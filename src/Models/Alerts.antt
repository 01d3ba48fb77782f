-- ===== src/Models/Alerts.antt =====
-- The incident tables of monitor/models.py, and the catalog rows of monitor/db.py that they record.
use healthgrid.Prelude.{ℕ, ℤ, String, Bool, false, Option, none, List, []}

-- A row of `BLOCKING_QUERY`; a column may be NULL.
pub record BlockingRow : Type 0 where
  pub blocked_pid : Option ℕ
  pub blocked_user : Option String
  pub blocking_pid : Option ℕ
  pub blocking_user : Option String
  pub blocked_query : Option String
  pub blocking_query : Option String
  pub waiting_seconds : Option ℤ

-- A row of `ACTIVITY_QUERY`.
pub record ActivityRow : Type 0 where
  pub pid : Option ℕ
  pub usename : Option String
  pub application_name : Option String
  pub client_addr : Option String
  pub state : Option String
  pub query : Option String
  pub query_start : Option ℕ
  pub duration_seconds : Option ℤ

pub record LockAlert : Type 0 where
  pub pk : ℕ
  pub instance_id : ℕ
  pub alert_key : String
  pub blocked_pid : ℕ
  pub blocking_pid : ℕ
  pub blocked_user : String
  pub blocking_user : String
  pub blocked_query : String
  pub blocking_query : String
  pub waiting_seconds : ℕ
  pub first_seen_at : ℕ
  pub last_seen_at : ℕ
  pub alerted_at : Option ℕ
  pub resolved_at : Option ℕ
  pub clear_reason : String
  pub cleared_by : String

pub record LockNotificationState : Type 0 where
  pub instance_id : ℕ
  pub last_fingerprint : String
  pub last_active_keys : List String
  pub last_sent_at : Option ℕ
  pub storm_active : Bool

-- The row that `get_or_create` makes.
abbrev pub new_notification_state : ℕ → LockNotificationState
new_notification_state i = record {
  instance_id = i;
  last_fingerprint = "";
  last_active_keys = [];
  last_sent_at = none;
  storm_active = false;
}

pub record LongQueryAlert : Type 0 where
  pub pk : ℕ
  pub instance_id : ℕ
  pub alert_key : String
  pub pid : ℕ
  pub username : String
  pub application_name : String
  pub client_addr : String
  pub query : String
  pub query_start : Option ℕ
  pub duration_seconds : ℕ
  pub first_seen_at : ℕ
  pub last_seen_at : ℕ
  pub alerted_at : Option ℕ
  pub resolved_at : Option ℕ

-- A table whose rows get their primary keys from a counter.
pub record Table (A : Type 0) : Type 0 where
  pub rows : List A
  pub next_pk : ℕ

abbrev pub empty_table : {A : Type 0} → Table A
empty_table = record { rows = []; next_pk = 1 }
