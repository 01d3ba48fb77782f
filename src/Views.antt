-- ===== src/Views.antt =====
-- monitor/views.py: what the handlers of the dashboard share, and the handlers.
pub mod Unchanged
pub mod Keeps
pub mod Killing
pub mod Runner
pub mod Registry
pub mod Settings
pub mod Users
pub mod Slots
pub mod Grants
pub mod Links
pub mod Reports
use healthgrid.Prelude.{
  ℕ, String, Bool, true, false, not, ◌&&◌, ◌||◌, Option, none, some, List, [], ◌∷◌, ◌++◌, ◌<>◌, map,
  is_none, is_blank, contains, join, show, nat_eq, ◌==◌, if◌then◌else◌,
}
use healthgrid.Prelude.Tables.{update_where}
use healthgrid.Results.{ok, permission_denied}
use healthgrid.Effects.{Exec, pure, gets, modify, guard, ◌>>=◌, ◌>>◌}
use healthgrid.Models.Alerts.{LockAlert, Table}
use healthgrid.Models.Accounts.{User, AccessTables}
use healthgrid.Models.Audit.{AuditAction, AuditResult, failed, AuditLog, QueryRunnerExecution}
use healthgrid.Models.Instances.{RdsInstance}
use healthgrid.Access.{can_view_instance, can_operate_instance}
use healthgrid.Mfa.{MfaLibrary, UserMfa, Session, require_mfa_for_action}
use healthgrid.Monitor.Alerts.{is_active}

-- `messages.success`, `.warning` and `.error`
pub data Flash : Type 0 where
  success warning error : String → Flash

-- What the handlers read and write. `T` is the part that the handlers of one module own: what the
-- monitored server holds, or a table of the program.
pub record ViewState (T : Type 0) : Type 0 where
  pub target : T
  pub locks : Table LockAlert
  pub audit_logs : List AuditLog
  pub executions : List QueryRunnerExecution
  pub next_execution : ℕ
  pub session : Session
  pub profile : Option UserMfa
  pub messages : List Flash

-- The parts of a request that the handlers share.
pub record Request : Type 0 where
  pub user : User
  pub now : ℕ
  pub mfa_code : String

-- `_mark_manual_kill`
unfoldable pub mark_manual_kill : RdsInstance → List ℕ → User → Table LockAlert → Table LockAlert
mark_manual_kill r pids u t = record t {
  rows =
      update_where
        (λ a. is_active r.pk a && (contains a.blocked_pid pids || contains a.blocking_pid pids))
        (λ a. record a { clear_reason = "manual_kill"; cleared_by = u.username }) t.rows;
}

abbrev pub mfa_refusal : String
mfa_refusal =
    "MFA verification is required for this action. Set up Google Authenticator from the security menu, then try again."

module _ {T : Type 0} where
  abbrev pub flash : Flash → Exec (ViewState T) (Unit {0})
  flash m = modify (λ s. record s { messages = s.messages ++ m ∷ [] })

  -- `_require_staff`
  abbrev pub require_staff : User → Exec (ViewState T) (Unit {0})
  require_staff u = guard u.is_staff permission_denied

  -- `_require_administrator`
  abbrev pub require_administrator : User → Exec (ViewState T) (Unit {0})
  require_administrator u = guard (u.is_active && (u.is_staff && u.is_superuser)) permission_denied

  -- `_require_instance_access`
  abbrev pub require_instance_access :
      AccessTables → User → RdsInstance → Bool → Exec (ViewState T) (Unit {0})
  require_instance_access t u r write = do
    guard (can_view_instance t u r) permission_denied
    guard (not write || can_operate_instance t u r) permission_denied

  -- `_log_audit`, where the application's database accepts the row
  abbrev pub log_audit : AuditLog → Exec (ViewState T) (Unit {0})
  log_audit entry = modify (λ s. record s { audit_logs = s.audit_logs ++ entry ∷ [] })

  -- The check of `require_mfa_for_action` with a code required, which writes to session and factor.
  unfoldable pub check_mfa : MfaLibrary → Request → ViewState T → Bool × ViewState T
  unfolding require_mfa_for_action
  check_mfa lib q s =
      let (allowed, profile, session) =
        require_mfa_for_action lib q.now s.session s.profile q.mfa_code true in
      (allowed, record s { profile = profile; session = session })

  -- `_require_action_mfa` with `require_code=True`
  unfoldable pub require_action_mfa :
      MfaLibrary → Request → RdsInstance → AuditAction → String → Exec (ViewState T) Bool
  unfolding check_mfa
  require_action_mfa lib q r action detail = do
    allowed ← (λ s. let (b, s') = check_mfa lib q s in (ok b, s'))
    (if allowed then pure true else (do
      log_audit (record {
        instance_id = some r.pk;
        action = action;
        target_pid = none;
        target_query = "";
        performed_by = q.user.pk;
        result = failed;
        detail = "MFA verification required" <> (if is_blank detail then "" else ": " <> detail);
      })
      flash (error mfa_refusal)
      pure false))

-- `f"{pids}"` for a list of pids
unfoldable pub show_pids : List ℕ → String
show_pids pids = "[" <> (join ", " (map show pids) <> "]")
