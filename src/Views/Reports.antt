-- ===== src/Views/Reports.antt =====
-- `download_weekly_report` and `test_notification` of monitor/views.py.
pub mod Download
use healthgrid.Prelude.{
  ℕ, String, Bool, true, false, not, ◌&&◌, Option, none, some, List, [], ◌∷◌, ◌<>◌, ltb, is_some,
  strip, nat_eq, string_eq, ◌==◌, if◌then◌else◌,
}
use healthgrid.Prelude.Tables.{select}
use healthgrid.Results.{Exn, Result, ok, raise, not_found, permission_denied, ◌>>=◌ as ◌>>>◌}
use healthgrid.Effects.{Exec, pure, guard, gets, or_raise, ◌>>=◌, ◌>>◌}
use healthgrid.Models.Accounts.{AccessTables}
use healthgrid.Models.Instances.{RdsInstance}
use healthgrid.Models.Reports.{LockReport}
use healthgrid.Models.Settings.{NotificationSettings}
use healthgrid.Notifications.Cards as Cards
use healthgrid.Notifications.Webhooks.{Web}
use healthgrid.Notifications.Weekly.{send_test_notification}
use healthgrid.Access.{first, can_manage_global_notifications, can_manage_instance_notifications}
use healthgrid.Views.{Flash, ViewState, Request, flash, require_staff}

abbrev pub not_expired : ℕ → LockReport → Result LockReport
not_expired now report = if ltb report.expires_at now then raise not_found else ok report

abbrev pub found_or_404 : Option LockReport → Result LockReport
found_or_404 none = raise not_found
found_or_404 (some report) = ok report

abbrev pub download_key : ℕ → List LockReport → Option ℕ → Result LockReport
download_key now reports none = raise not_found
download_key now reports (some pk) =
    found_or_404 (first (select (λ r. r.pk == pk) reports)) >>> not_expired now

-- `unsign` at a time: the key that `TimestampSigner` signed at most seven days before.
unfoldable pub download_weekly_report :
    (ℕ → String → Option ℕ) → ℕ → String → List LockReport → Result LockReport
download_weekly_report unsign now token reports = download_key now reports (unsign now token)

-- What `test_notification` reads, and the requests that were sent.
pub record Outbox : Type 0 where
  pub config : NotificationSettings
  pub instances : List RdsInstance
  pub sent : List Cards.Request

abbrev pub State : Type 0
State = ViewState Outbox

module _ (web : Web) (allowed : List String) (exn_text : Exn → String) (t : AccessTables)
    (q : Request) where
  -- The owner's webhook, for who manages the notifications of the instance.
  abbrev pub owner_webhook : ℕ → Exec State String
  owner_webhook pk = do
    found ← gets (λ s. first (select (λ r. r.pk == pk) (s.target).instances))
    r ← or_raise found not_found
    guard (can_manage_instance_notifications t q.user r) permission_denied
    pure r.owner_teams_webhook_url

  abbrev pub shared_webhook : Exec State String
  shared_webhook = do
    guard (can_manage_global_notifications t q.user) permission_denied
    gets (λ s. ((s.target).config).channel_webhook_url)

  abbrev pub owner_or_posted : Option ℕ → String → Bool → Exec State String
  owner_or_posted none posted_url to_owner = pure posted_url
  owner_or_posted (some pk) posted_url false = pure posted_url
  owner_or_posted (some pk) posted_url true = owner_webhook pk

  -- Which webhook the test goes to.
  unfoldable pub destination_webhook : String → String → Option ℕ → Exec State String
  destination_webhook destination posted_url instance_id =
      if destination == "shared channel"
      then shared_webhook
      else owner_or_posted instance_id posted_url (destination == "owner chat")

  abbrev pub send_test : String → String → Exec State (Bool × String)
  send_test destination webhook_url s =
      let (answer, sent) =
        send_test_notification web allowed exn_text webhook_url destination (s.target).sent in
      (ok answer, record s { target = record (s.target) { sent = sent } })

  abbrev pub show_answer : Bool × String → Exec State (Unit {0})
  show_answer (true, detail) = flash (Flash.success detail)
  show_answer (false, detail) = flash (Flash.error ("Test notification failed: " <> detail))

  abbrev pub send_and_show : String → String → Exec State (Unit {0})
  send_and_show destination webhook_url = send_test destination webhook_url >>= show_answer

  unfoldable pub test_notification : String → String → Option ℕ → Exec State (Unit {0})
  unfolding destination_webhook
  test_notification destination posted_url instance_id = do
    require_staff q.user
    webhook_url ← destination_webhook destination (strip posted_url) instance_id
    send_and_show destination webhook_url
