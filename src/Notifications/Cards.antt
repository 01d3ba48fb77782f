-- ===== src/Notifications/Cards.antt =====
-- What is posted to a webhook: the arguments from which notifications.py renders each card. The
-- wording and layout of the cards is left out.
use healthgrid.Prelude.{ℕ, String, List}
use healthgrid.Models.Alerts.{LockAlert, LongQueryAlert}

-- The values of `event` in `_summary_message`.
pub data Event : Type 0 where
  initial update cleared storm : Event

-- The arguments of `notify_lock_summary`.
pub record LockCard : Type 0 where
  pub instance_id : ℕ
  pub alerts : List LockAlert
  pub event : Event
  pub previous_active_keys : List String
  pub cleared_keys : List String
  pub sent_at : ℕ
  pub cleared_alerts : List LockAlert

-- The payload of a weekly report.
pub record ReportCard : Type 0 where
  pub scope : String
  pub file_name : String
  pub csv_content : String
  pub report_url : String
  pub report_rows : ℕ

pub data Payload : Type 0 where
  lock_summary : LockCard → Payload
  long_query : ℕ → List LongQueryAlert → ℕ → Payload
  weekly_report : ReportCard → Payload
  test_notification : String → Payload

-- One request that left the process.
pub record Request : Type 0 where
  pub url : String
  pub payload : Payload
