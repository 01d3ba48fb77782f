-- ===== src/Views/Slots.antt =====
-- `kill_replication_slot` and `drop_replication_slot` of monitor/views.py. Deleting the cached slots
-- is left out. The part of the state that they own is what PostgreSQL keeps of the slots.
pub mod Guarded
pub mod Audited
use healthgrid.Prelude.{String, Bool, true, false, Option, none, some, ◌<>◌}
use healthgrid.Results.{Exn, Result, ok, raise, connection_message, permission_denied, not_found}
use healthgrid.Effects.{Exec, pure, throw, guard, or_raise, ◌>>=◌, ◌>>◌}
use healthgrid.Models.Accounts.{AccessTables}
use healthgrid.Models.Audit.{AuditAction, AuditResult, AuditLog}
use healthgrid.Models.Instances.{RdsInstance}
use healthgrid.Access.{can_manage_replication_slot}
use healthgrid.Mfa.{MfaLibrary}
use healthgrid.Db.Connections.{Network, get_connection}
use healthgrid.Db.Slots.{SlotServer, terminate_replication_slot_backend}
use healthgrid.Db.Slots
use healthgrid.Views.{
  Flash, ViewState, Request, flash, log_audit, require_instance_access, require_action_mfa,
}
use healthgrid.Views.Killing.{entry}

module _ {S Row : Type 0} (lib : MfaLibrary) (net : Network) (server : SlotServer S Row)
    (exn_text : Exn → String) (t : AccessTables) (q : Request) where
  abbrev pub with_server : {A : Type 0} → (S → Result A × S) → Exec (ViewState S) (Result A)
  with_server m s = let (r, target) = m s.target in (ok r, record s { target = target })

  -- `except db.ConnectionError`; another exception goes on.
  abbrev pub report_failed :
      AuditAction → RdsInstance → String → Exn → Option String → Exec (ViewState S) (Unit {0})
  report_failed action r slot_name e none = throw e
  report_failed action r slot_name e (some message) = do
    log_audit (entry q r action none "" AuditResult.failed (slot_name <> (": " <> message)))
    flash (Flash.error ("Could not connect: " <> message))

  -- The `try` of `kill_replication_slot`, by what the call gave.
  unfoldable pub report_terminated :
      RdsInstance → String → Result Bool → Exec (ViewState S) (Unit {0})
  report_terminated r slot_name (ok true) = do
    log_audit (entry q r AuditAction.kill_replication_slot none "" AuditResult.success slot_name)
    flash (Flash.success ("Terminated the active backend for slot '" <> (slot_name <> "'.")))
  report_terminated r slot_name (ok false) = do
    log_audit (entry q r AuditAction.kill_replication_slot none "" AuditResult.failed slot_name)
    flash (Flash.warning ("Slot '" <> (slot_name <> "' has no active backend right now.")))
  report_terminated r slot_name (raise e) =
      report_failed AuditAction.kill_replication_slot r slot_name e (connection_message e)

  abbrev pub terminate_slot : String → RdsInstance → Exec (ViewState S) (Unit {0})
  terminate_slot slot_name r = do
    outcome ←
        with_server
          (terminate_replication_slot_backend server r (get_connection lib net r) slot_name)
    report_terminated r slot_name outcome

  unfoldable pub kill_replication_slot : Option RdsInstance → String → Exec (ViewState S) (Unit {0})
  unfolding report_terminated
  kill_replication_slot found slot_name = do
    guard (can_manage_replication_slot t q.user "terminate") permission_denied
    r ← or_raise found not_found
    require_instance_access t q.user r true
    terminate_slot slot_name r

  -- The `try` of `drop_replication_slot`.
  unfoldable pub report_dropped :
      RdsInstance → String → Result (Option String) → Exec (ViewState S) (Unit {0})
  report_dropped r slot_name (ok none) = do
    log_audit (entry q r AuditAction.drop_replication_slot none "" AuditResult.success slot_name)
    flash (Flash.success ("Dropped replication slot '" <> (slot_name <> "'.")))
  report_dropped r slot_name (ok (some error)) = do
    log_audit (
        entry q r AuditAction.drop_replication_slot none "" AuditResult.failed
          (slot_name <> (": " <> error)))
    flash (Flash.error ("Could not drop slot '" <> (slot_name <> ("': " <> error))))
  report_dropped r slot_name (raise e) =
      report_failed AuditAction.drop_replication_slot r slot_name e (connection_message e)

  abbrev pub drop_if : String → RdsInstance → Bool → Exec (ViewState S) (Unit {0})
  drop_if slot_name r false = pure tt
  drop_if slot_name r true = do
    outcome ←
        with_server
          (Slots.drop_replication_slot server exn_text r (get_connection lib net r) slot_name)
    report_dropped r slot_name outcome

  abbrev pub drop_checked : String → RdsInstance → Exec (ViewState S) (Unit {0})
  drop_checked slot_name r =
      require_action_mfa lib q r AuditAction.drop_replication_slot slot_name >>= drop_if slot_name r

  unfoldable pub drop_replication_slot : Option RdsInstance → String → Exec (ViewState S) (Unit {0})
  unfolding report_dropped
  drop_replication_slot found slot_name = do
    guard (can_manage_replication_slot t q.user "drop") permission_denied
    r ← or_raise found not_found
    require_instance_access t q.user r true
    drop_checked slot_name r
