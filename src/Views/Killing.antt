-- ===== src/Views/Killing.antt =====
-- `_kill_session_impl` and `_kill_chain_impl` of monitor/views.py, with their four routes.
pub mod Chains
pub mod Guards
pub mod Sessions
use healthgrid.Prelude.{
  ℕ, String, Bool, true, false, not, ◌&&◌, ◌||◌, Option, none, some, List, [], ◌∷◌, ◌++◌, ◌<>◌, map,
  all, is_empty, contains, length, show, nat_eq, ◌==◌, if◌then◌else◌,
}
use healthgrid.Prelude.Dict.{Dict, keys}
use healthgrid.Prelude.Tables.{select}
use healthgrid.Results.{Exn, Result, ok, raise, connection_error, connection_message, not_found}
use healthgrid.Effects.{Exec, pure, throw, lift, gets, modify, when, guard, or_raise, ◌>>=◌, ◌>>◌}
use healthgrid.Models.Alerts.{ActivityRow, BlockingRow}
use healthgrid.Models.Accounts.{User, AccessTables}
use healthgrid.Models.Audit.{
  AuditAction, kill_session, kill_chain, bulk_kill, AuditResult, AuditLog,
}
use healthgrid.Models.Instances.{RdsInstance}
use healthgrid.Access.{can_manage_replication_slot}
use healthgrid.Mfa.{MfaLibrary}
use healthgrid.Db.Connections.{Connection}
use healthgrid.Db.Kills.{Server, kill_pid, kill_pids}
use healthgrid.Views.{
  Flash, ViewState, Request, flash, require_staff, require_instance_access, log_audit,
  mark_manual_kill, require_action_mfa, show_pids,
}

-- What a handler asks of the monitored server: the catalog rows that `fetch_activity` returns, and
-- the connection of `get_connection`.
pub record Upstream : Type 0 where
  pub fetched : Result (List ActivityRow × List BlockingRow)
  pub connection : Result Connection

abbrev pub pids_of_row : BlockingRow → List ℕ
pids_of_row row = pid_list row.blocked_pid ++ pid_list row.blocking_pid
  where
    pid_list : Option ℕ → List ℕ
    pid_list none = []
    pid_list (some pid) = pid ∷ []

-- `_current_lock_pids`
unfoldable pub current_lock_pids : List BlockingRow → List ℕ
current_lock_pids [] = []
current_lock_pids (row ∷ rows) = pids_of_row row ++ current_lock_pids rows

-- A failure to connect is shown; another exception goes on.
abbrev pub shown_or_raised : String → Exn → Option String → Result (Option String)
shown_or_raised failure e none = raise e
shown_or_raised failure e (some message) = ok (some (failure <> message))

-- The check of the routes for locks, by what was fetched: `some` is the error that is shown.
unfoldable pub not_locked :
    String → String → List ℕ → Result (List ActivityRow × List BlockingRow) → Result (Option String)
unfolding current_lock_pids
not_locked gone failure pids (ok (activity, blocking)) =
    if all (λ pid. contains pid (current_lock_pids blocking)) pids then ok none else ok (some gone)
not_locked gone failure pids (raise e) = shown_or_raised failure e (connection_message e)

abbrev pub entry :
    Request → RdsInstance → AuditAction → Option ℕ → String → AuditResult → String → AuditLog
entry q r action pid query result detail = record {
  instance_id = some r.pk;
  action = action;
  target_pid = pid;
  target_query = query;
  performed_by = q.user.pk;
  result = result;
  detail = detail;
}

module _ (lib : MfaLibrary) (t : AccessTables) (q : Request) (up : Upstream) where
  -- The `try` of `_kill_session_impl` once `kill_pid` returned.
  unfoldable pub report_kill : RdsInstance → ℕ → String → Bool → Exec (ViewState Server) (Unit {0})
  unfolding mark_manual_kill
  report_kill r pid query true = do
    log_audit (entry q r kill_session (some pid) query AuditResult.success "")
    modify (λ s. record s { locks = mark_manual_kill r (pid ∷ []) q.user s.locks })
    flash (Flash.success ("Terminated backend pid " <> (show pid <> ".")))
  report_kill r pid query false = do
    log_audit (
        entry q r kill_session (some pid) query AuditResult.failed
          "pid was not running or is a protected replication-slot backend")
    flash (
        Flash.warning (
          "pid "
          <> (show pid
              <> " was not running or is a replication-slot backend you do not have permission to terminate.")))

  abbrev pub on_server : {A : Type 0} → (Server → Result A × Server) → Exec (ViewState Server) A
  on_server m s = let (r, target) = m s.target in (r, record s { target = target })

  -- The `try`, and the `except db.ConnectionError`.
  unfoldable pub try_kill :
      RdsInstance → ℕ → String → Result Connection → Exec (ViewState Server) (Unit {0})
  unfolding report_kill
  try_kill r pid query (ok conn) = do
    terminated ← on_server (kill_pid r conn (can_manage_replication_slot t q.user "terminate") pid)
    report_kill r pid query terminated
  try_kill r pid query (raise (connection_error message)) = do
    log_audit (entry q r kill_session (some pid) query AuditResult.failed message)
    flash (Flash.error ("Could not connect to kill pid " <> (show pid <> (": " <> message))))
  try_kill r pid query (raise e) = throw e

  -- The error of a lock check is shown, and ends the request.
  abbrev pub go_on : Option String → Exec (ViewState Server) Bool
  go_on none = pure true
  go_on (some message) = flash (Flash.error message) >> pure false

  -- The check before the kill: whether to go on.
  unfoldable pub session_check : RdsInstance → ℕ → Bool → Exec (ViewState Server) Bool
  unfolding not_locked
  session_check r pid true = do
    problem ← lift (
        not_locked ("pid " <> (show pid <> " is no longer part of an active lock."))
          ("Could not verify the lock before killing pid " <> (show pid <> ": ")) (pid ∷ [])
          up.fetched)
    go_on problem
  session_check r pid false = require_action_mfa lib q r kill_session ("pid=" <> show pid)

  unfoldable pub kill_session_impl :
      Option RdsInstance → Option ℕ → String → Bool → Exec (ViewState Server) (Unit {0})
  unfolding session_check try_kill
  kill_session_impl found posted query lock_only = do
    r ← or_raise found not_found
    require_staff q.user
    require_instance_access t q.user r true
    elim posted [
      | none ↦ flash (Flash.error "A valid backend PID is required.")
      | some pid ↦ do
        passed ← session_check r pid lock_only
        if passed then try_kill r pid query up.connection else pure tt
    ]

  -- The pids of one outcome: `[pid for pid, ok in results.items() if ok]`, or not.
  abbrev pub pids_with : Bool → Dict ℕ Bool → List ℕ
  pids_with outcome results = keys (select (λ e. if outcome then e.1 else not e.1) results)

  unfoldable pub report_kills :
      RdsInstance → AuditAction → List ℕ → String → Dict ℕ Bool → Exec (ViewState Server) (Unit {0})
  unfolding mark_manual_kill show_pids
  report_kills r action pids query results =
      let terminated = pids_with true results in
      let not_running = pids_with false results in
      do
        log_audit (
            entry q r action none query
              (if is_empty terminated then AuditResult.failed else AuditResult.success)
              ("pids="
                <> (show_pids pids
                    <> (" terminated="
                        <> (show_pids terminated <> (" not_running=" <> show_pids not_running))))))
        when (not (is_empty terminated)) (do
          modify (λ s. record s { locks = mark_manual_kill r terminated q.user s.locks })
          flash (
              Flash.success (
                "Terminated "
                <> (show (length terminated) <> (" pid(s): " <> (show_pids terminated <> "."))))))
        when (not (is_empty not_running)) (
            flash (
              Flash.warning (
                "Not running or protected replication-slot backends: "
                <> (show_pids not_running <> "."))))

  unfoldable pub try_kills :
      RdsInstance
      → AuditAction
      → List ℕ
      → String
      → Result Connection
      → Exec (ViewState Server) (Unit {0})
  unfolding report_kills
  try_kills r action pids query (ok conn) = do
    results ← on_server (kill_pids r conn (can_manage_replication_slot t q.user "terminate") pids)
    report_kills r action pids query results
  try_kills r action pids query (raise (connection_error message)) = do
    log_audit (entry q r kill_chain none query AuditResult.failed message)
    flash (Flash.error ("Could not connect to kill chain: " <> message))
  try_kills r action pids query (raise e) = throw e

  -- The `if lock_only`.
  unfoldable pub lock_check : List ℕ → Exec (ViewState Server) Bool
  unfolding not_locked
  lock_check pids =
      lift (
        not_locked "One or more selected PIDs are no longer part of an active lock."
          "Could not verify the lock before killing the selected PIDs: " pids up.fetched)
      >>= go_on

  -- The `if require_mfa`.
  unfoldable pub mfa_check :
      RdsInstance → AuditAction → List ℕ → Bool → Exec (ViewState Server) Bool
  unfolding show_pids
  mfa_check r action pids require_mfa =
      if require_mfa
      then require_action_mfa lib q r action ("pids=" <> show_pids pids)
      else pure true

  abbrev pub after_mfa : List ℕ → Bool → Bool → Exec (ViewState Server) Bool
  after_mfa pids lock_only verified =
      if not verified then pure false else if not lock_only then pure true else lock_check pids

  -- The two checks before the kills.
  unfoldable pub chain_check :
      RdsInstance → AuditAction → List ℕ → Bool → Bool → Exec (ViewState Server) Bool
  unfolding mfa_check lock_check
  chain_check r action pids lock_only require_mfa =
      mfa_check r action pids require_mfa >>= after_mfa pids lock_only

  abbrev pub kill_chosen :
      RdsInstance → AuditAction → List ℕ → String → Bool → Exec (ViewState Server) (Unit {0})
  kill_chosen r action pids query passed =
      if passed then try_kills r action pids query up.connection else pure tt

  -- What follows the parsing of the pids.
  unfoldable pub kill_chain_pids :
      RdsInstance → AuditAction → String → Bool → Bool → List ℕ → Exec (ViewState Server) (Unit {0})
  unfolding chain_check try_kills
  kill_chain_pids r action query lock_only require_mfa pids =
      if is_empty pids
      then flash (Flash.error "Select at least one backend PID first.")
      else chain_check r action pids lock_only require_mfa >>= kill_chosen r action pids query

  abbrev pub chain_action : Bool → AuditAction
  chain_action is_chain = if is_chain then kill_chain else bulk_kill

  abbrev pub with_pids :
      RdsInstance
      → String
      → Bool
      → Bool
      → Bool
      → Option (List ℕ)
      → Exec (ViewState Server) (Unit {0})
  with_pids r query is_chain lock_only require_mfa none =
      flash (Flash.error "The selected backend PIDs are invalid.")
  with_pids r query is_chain lock_only require_mfa (some pids) =
      kill_chain_pids r (chain_action is_chain) query lock_only require_mfa pids

  unfoldable pub kill_chain_impl :
      Option RdsInstance
      → Option (List ℕ)
      → String
      → Bool
      → Bool
      → Bool
      → Exec (ViewState Server) (Unit {0})
  unfolding kill_chain_pids
  kill_chain_impl found posted query is_chain lock_only require_mfa = do
    r ← or_raise found not_found
    require_staff q.user
    require_instance_access t q.user r true
    with_pids r query is_chain lock_only require_mfa posted
