-- ===== src/Tests/Data.antt =====
-- The data of the tests: an instance, its settings, rows of its catalog, and a network.
use healthgrid.Prelude.{ℕ, String, Bool, true, false, none, some, List, [], ◌∷◌, pos}
use healthgrid.Results.{ok}
use healthgrid.Models.Alerts.{
  BlockingRow, LockAlert, LockNotificationState, Table, new_notification_state,
}
use healthgrid.Models.Instances.{RdsInstance, Engine, postgresql}
use healthgrid.Models.Settings.{NotificationSettings, default_settings}
use healthgrid.Models.Accounts.{User}
use healthgrid.Notifications.Webhooks.{Web, Address}
use healthgrid.Notifications.Cards.{LockCard, update}
use healthgrid.Monitor.State.{Library}

abbrev pub instance_on : Engine → RdsInstance
instance_on engine = record {
  pk = 1;
  name = "orders";
  connection_group = 1;
  engine = engine;
  db_identifier = "orders-1";
  region = "ap-south-1";
  host = "orders.internal";
  port = 5432;
  db_name = "orders";
  username = "monitor";
  lock_control_enabled = false;
  control_username = "";
  owner_teams_webhook_url = "https://owner";
  exclude_from_global_notifications = true;
  password_encrypted = "p";
  control_password_encrypted = "";
  query_runner_enabled = true;
  query_runner_username = "writer";
  query_runner_password_encrypted = "w";
  ssl_required = true;
  is_active = true;
  added_by = none;
}

abbrev pub orders : RdsInstance
orders = instance_on postgresql

abbrev pub settings : NotificationSettings
settings = record default_settings {
  channel_webhook_url = "https://channel";
  notification_schedule_enabled = true;
  lock_storm_threshold = 2;
}

-- 3:30 and 10:30 in IST
abbrev pub night : ℕ
night = 79200

abbrev pub morning : ℕ
morning = 18000

abbrev pub blocking_row : ℕ → ℕ → BlockingRow
blocking_row blocked blocking = record {
  blocked_pid = some blocked;
  blocked_user = some "app";
  blocking_pid = some blocking;
  blocking_user = none;
  blocked_query = some "UPDATE t";
  blocking_query = none;
  waiting_seconds = some (pos 300);
}

abbrev pub alert : ℕ → ℕ → String → LockAlert
alert pk blocked key = record {
  pk = pk;
  instance_id = 1;
  alert_key = key;
  blocked_pid = blocked;
  blocking_pid = 20;
  blocked_user = "app";
  blocking_user = "";
  blocked_query = "UPDATE t";
  blocking_query = "";
  waiting_seconds = 300;
  first_seen_at = 0;
  last_seen_at = 0;
  alerted_at = some 0;
  resolved_at = none;
  clear_reason = "";
  cleared_by = "";
}

-- One active incident, which the snapshots of the tests no longer hold.
abbrev pub alerts : Table LockAlert
alerts = record { rows = alert 1 10 "10:20" ∷ []; next_pk = 2 }

abbrev pub one_lock : List LockAlert
one_lock = alert 1 10 "10:20" ∷ []

abbrev pub storm_locks : List LockAlert
storm_locks = alert 1 10 "10:20" ∷ alert 2 11 "11:20" ∷ []

abbrev pub fresh : LockNotificationState
fresh = new_notification_state 1

abbrev pub in_storm : LockNotificationState
in_storm = record fresh { storm_active = true; last_active_keys = "10:20" ∷ "11:20" ∷ [] }

abbrev pub public_address : Address
public_address = record {
  is_private = false;
  is_loopback = false;
  is_link_local = false;
  is_reserved = false;
  is_multicast = false;
}

-- A network whose hosts are public and answer with the status.
abbrev pub web_with : ℕ → Web
web_with status = record {
  urlsplit =
      λ url. record { scheme = "https"; hostname = some url; username = none; password = none };
  lower = λ s. s;
  getaddrinfo = λ host. ok (public_address ∷ []);
  send = λ url payload. ok status;
}

abbrev pub up : Web
up = web_with 200

abbrev pub down : Web
down = web_with 503

-- A stand-in that keeps its argument.
abbrev pub library : Library
library = record { sha256 = λ s. s; strip = λ s. s; casefold = λ s. s; time_text = λ t. "" }

abbrev pub card : LockCard
card = record {
  instance_id = 1;
  alerts = one_lock;
  event = update;
  previous_active_keys = [];
  cleared_keys = [];
  sent_at = 0;
  cleared_alerts = [];
}

abbrev pub account : ℕ → Bool → Bool → User
account pk is_staff is_superuser = record {
  pk = pk;
  username = "ada";
  is_authenticated = true;
  is_active = true;
  is_staff = is_staff;
  is_superuser = is_superuser;
}
