-- ===== src/Monitor/State.antt =====
-- The rows that one cycle of the monitor reads and writes, and the library functions that it calls.
use healthgrid.Prelude.{ℕ, String, List}
use healthgrid.Models.Alerts.{LockAlert, LockNotificationState, LongQueryAlert, Table}
use healthgrid.Notifications.Cards.{Request}

pub record MonitorState : Type 0 where
  pub locks : Table LockAlert
  pub long_queries : Table LongQueryAlert
  pub states : List LockNotificationState
  -- the requests that were posted to webhooks so far
  pub sent : List Request

-- `hashlib.sha256(…).hexdigest()`, `str.strip`, `str.casefold` and `str` of a `datetime`.
pub record Library : Type 0 where
  pub sha256 : String → String
  pub strip : String → String
  pub casefold : String → String
  pub time_text : ℕ → String
