-- ===== src/Notifications/Weekly.antt =====
-- The weekly report of notifications.py: the incidents of seven days as a CSV text, to the shared
-- channel and to the owners, and the test message.
pub mod Scope
pub mod Sent
use healthgrid.Prelude.{
  ℕ, ◌+◌, ◌*◌, String, Bool, true, false, not, ◌&&◌, ◌||◌, Option, none, some, List, [], ◌∷◌, ◌++◌,
  ◌<>◌, length, show, sorted, leb, ltb, leb_text, is_blank, is_empty, strip_right, nat_beq, nat_eq,
  string_eq, ◌==◌, if◌then◌else◌,
}
use healthgrid.Prelude.Tables.{select, delete_where}
use healthgrid.Results.{Result, ok, raise, Exn}
use healthgrid.Models.Alerts.{LockAlert}
use healthgrid.Models.Instances.{RdsInstance, instance_label}
use healthgrid.Models.Reports.{LockReport}
use healthgrid.Models.Settings.{NotificationSettings}
use healthgrid.Notifications.Cards.{Payload, Request, weekly_report, test_notification}
use healthgrid.Notifications.Webhooks.{Web, post_webhook}
use healthgrid.Notifications.Delivery.{succeeded}
use healthgrid.Notifications.Csv.{write_row, utf8_length}
use healthgrid.Access.{first}

-- A time as `_timestamp` and the file name show it, `TimestampSigner().sign` and `quote`.
pub record ReportLibrary : Type 0 where
  pub local_time : ℕ → String
  pub file_time : ℕ → String
  pub sign : String → String
  pub quote : String → String

-- An alert with its instance: `select_related("instance")`.
abbrev pub Incident : Type 0
Incident = LockAlert × RdsInstance

abbrev pub with_instance : LockAlert → Option RdsInstance → List Incident → List Incident
with_instance a none rest = rest
with_instance a (some r) rest = (a, r) ∷ rest

abbrev pub join_instances : List RdsInstance → List LockAlert → List Incident
join_instances instances [] = []
join_instances instances (a ∷ rest) =
    with_instance a (first (select (λ r. r.pk == a.instance_id) instances))
      (join_instances instances rest)

-- `resolved_at__gte`, which is false of a null
abbrev pub resolved_since : ℕ → Option ℕ → Bool
resolved_since now none = false
resolved_since now (some at) = leb now (at + 604800)

-- The filter of `_weekly_alerts`: started, changed or cleared in the last seven days.
unfoldable pub in_report : ℕ → LockAlert → Bool
in_report now a =
    leb a.first_seen_at now
    && (leb now (a.first_seen_at + 604800)
        || (leb now (a.last_seen_at + 604800) || resolved_since now a.resolved_at))

abbrev pub of_scope : Option ℕ → LockAlert → Bool
of_scope none a = true
of_scope (some pk) a = a.instance_id == pk

-- `order_by("instance__name", "first_seen_at", "blocked_pid", "blocking_pid")`
unfoldable pub comes_before : Incident → Incident → Bool
comes_before (a, r) (b, s) =
    if not (r.name == s.name)
    then leb_text r.name s.name
    else if not (a.first_seen_at == b.first_seen_at)
    then ltb a.first_seen_at b.first_seen_at
    else if not (a.blocked_pid == b.blocked_pid)
    then ltb a.blocked_pid b.blocked_pid
    else leb a.blocking_pid b.blocking_pid

-- `_weekly_alerts`
unfoldable pub weekly_alerts : ℕ → Option ℕ → List RdsInstance → List LockAlert → List Incident
unfolding in_report comes_before sorted
weekly_alerts now scope instances alerts =
    sorted comes_before
      (join_instances instances (select (of_scope scope) (select (in_report now) alerts)))

-- `_timestamp`
abbrev pub timestamp : ReportLibrary → Option ℕ → String
timestamp lib none = "—"
timestamp lib (some at) = lib.local_time at

abbrev status_of : Option ℕ → String
status_of none = "ACTIVE"
status_of (some at) = "CLEARED"

abbrev pub csv_header : List String
csv_header =
    "database" ∷ "db_identifier" ∷ "region" ∷ "status" ∷ "blocked_pid" ∷ "blocked_user"
    ∷ "blocking_pid" ∷ "blocking_user" ∷ "first_observed_ist" ∷ "last_observed_ist"
    ∷ "cleared_at_ist" ∷ "clear_reason" ∷ "cleared_by" ∷ "waiting_seconds" ∷ "blocked_query"
    ∷ "blocking_query" ∷ []

unfoldable pub csv_fields : ReportLibrary → Incident → List String
csv_fields lib (a, r) =
    r.name
    ∷ r.db_identifier
    ∷ r.region
    ∷ status_of a.resolved_at
    ∷ show a.blocked_pid
    ∷ a.blocked_user
    ∷ show a.blocking_pid
    ∷ a.blocking_user
    ∷ timestamp lib (some a.first_seen_at)
    ∷ timestamp lib (some a.last_seen_at)
    ∷ timestamp lib a.resolved_at
    ∷ a.clear_reason
    ∷ a.cleared_by
    ∷ show a.waiting_seconds
    ∷ a.blocked_query
    ∷ a.blocking_query
    ∷ []

abbrev csv_rows : ReportLibrary → List Incident → String
csv_rows lib [] = ""
csv_rows lib (i ∷ is) = write_row (csv_fields lib i) <> csv_rows lib is

-- `_csv_report`
unfoldable pub csv_report : ReportLibrary → List Incident → String
unfolding write_row csv_fields
csv_report lib incidents = write_row csv_header <> csv_rows lib incidents

-- `_report_url`: `rstrip("/")` takes off the code 47.
unfoldable pub report_url : ReportLibrary → ℕ → String → String
report_url lib pk report_base_url =
    if is_blank report_base_url
    then ""
    else strip_right (λ c. nat_beq c 47) report_base_url
      <> ("/reports/weekly/" <> (lib.quote (lib.sign (show pk)) <> "/"))

-- The table of reports, with the next key, and the requests that were sent.
pub record ReportState : Type 0 where
  pub reports : List LockReport
  pub next_report : ℕ
  pub sent : List Request

abbrev pub max_inline_report_bytes : ℕ
max_inline_report_bytes = 20 * 1024

module _ (lib : ReportLibrary) (web : Web) (allowed : List String) (config : NotificationSettings)
    (now : ℕ) where
  abbrev pub file_name : String
  file_name = "rds-lock-report-" <> (lib.file_time now <> ".csv")

  abbrev pub new_report : ℕ → String → LockReport
  new_report pk csv_content = record {
    pk = pk;
    file_name = file_name;
    csv_content = csv_content;
    expires_at = now + config.report_retention_days * 86400;
  }

  -- `LockReport.objects.create`
  abbrev pub store_report : String → ReportState → ReportState
  store_report csv_content st = record st {
    reports = st.reports ++ new_report st.next_report csv_content ∷ [];
    next_report = st.next_report + 1;
  }

  abbrev pub report_payload : String → String → String → ℕ → Payload
  report_payload scope csv_content url rows = weekly_report (record {
    scope = scope;
    file_name = file_name;
    csv_content = if is_blank url then csv_content else "";
    report_url = url;
    report_rows = rows;
  })

  -- The rest of `_send_report_to_webhook`, once the report is stored.
  abbrev pub post_report :
      String → String → List Incident → String → String → ReportState → Bool × ReportState
  post_report webhook_url scope alerts csv_content url st =
      if is_blank url && ltb max_inline_report_bytes (utf8_length csv_content)
      then (false, st)
      else (let (r, sent) =
            post_webhook web allowed webhook_url
              (report_payload scope csv_content url (length alerts)) st.sent in
          (succeeded r, record st { sent = sent }))

  -- `_send_report_to_webhook`
  unfoldable pub send_report_to_webhook :
      String → String → List Incident → ReportState → Bool × ReportState
  unfolding csv_report report_url
  send_report_to_webhook webhook_url scope alerts st =
      if is_blank webhook_url
      then (false, st)
      else post_report webhook_url scope alerts (csv_report lib alerts)
          (report_url lib st.next_report config.report_base_url)
          (store_report (csv_report lib alerts) st)

  -- The loop over the owners.
  unfoldable pub send_to_owners :
      List RdsInstance → List LockAlert → List RdsInstance → Bool → ReportState → Bool × ReportState
  unfolding send_report_to_webhook weekly_alerts instance_label
  send_to_owners instances alerts [] delivered st = (delivered, st)
  send_to_owners instances alerts (r ∷ rs) delivered st =
      let (done, st') =
        send_report_to_webhook r.owner_teams_webhook_url (instance_label r)
          (weekly_alerts now (some r.pk) instances alerts) st in
      send_to_owners instances alerts rs (done || delivered) st'

  abbrev pub owners : List RdsInstance → List RdsInstance
  owners instances = select (λ r. r.is_active && not (is_blank r.owner_teams_webhook_url)) instances

  abbrev pub send_to_channel : List Incident → ReportState → Bool × ReportState
  send_to_channel all_alerts st =
      if not (is_blank config.channel_webhook_url) && not (is_empty all_alerts)
      then send_report_to_webhook config.channel_webhook_url "All monitored databases" all_alerts st
      else (false, st)

  -- `send_weekly_reports`
  unfoldable pub send_weekly_reports :
      List RdsInstance → List LockAlert → ReportState → Bool × ReportState
  unfolding send_to_owners
  send_weekly_reports instances alerts st =
      let kept : ReportState = record st {
        reports = delete_where (λ r. ltb r.expires_at now) st.reports;
      } in
      let (delivered, st') = send_to_channel (weekly_alerts now none instances alerts) kept in
      send_to_owners instances alerts (owners instances) delivered st'

-- `send_test_notification`: the answer and its text; `exn_text` is `str(exc)`.
module _ (web : Web) (allowed : List String) (exn_text : Exn → String) where
  abbrev pub test_answer : Result Bool → Bool × String
  test_answer (ok true) = (true, "Test notification sent.")
  test_answer (ok false) = (false, "Teams returned a non-success HTTP status.")
  test_answer (raise e) = (false, exn_text e)

  unfoldable pub send_test_notification :
      String → String → List Request → (Bool × String) × List Request
  send_test_notification webhook_url destination sent =
      if is_blank webhook_url
      then ((false, "No Teams webhook URL is configured."), sent)
      else (let (r, sent') =
            post_webhook web allowed webhook_url (test_notification destination) sent in
          (test_answer r, sent'))
