-- ===== src/Views/Registry.antt =====
-- The instance registry of monitor/views.py: what its handlers share. The part of the state that
-- they own is the table of instances.
pub mod Keeps
pub mod Complete
pub mod Kept
pub mod Served
pub mod Extended
pub mod Reachable
pub mod Removal
pub mod Credentials
pub mod Instances
pub mod Api
pub mod Adding
pub mod Addition
use healthgrid.Prelude.{ℕ, String, Bool, true, Option, none, some, nat_eq, ◌==◌}
use healthgrid.Prelude.Tables.{select, update_where}
use healthgrid.Results.{not_found}
use healthgrid.Effects.{Exec, gets, modify, or_raise, ◌>>=◌, ◌>>◌}
use healthgrid.Models.Accounts.{AccessTables}
use healthgrid.Models.Alerts.{Table}
use healthgrid.Models.Audit.{AuditAction, success, AuditLog}
use healthgrid.Models.Instances.{RdsInstance}
use healthgrid.Access.{first}
use healthgrid.Views.{ViewState, Request, require_administrator, require_instance_access}

abbrev pub State : Type 0
State = ViewState (Table RdsInstance)

-- `get_object_or_404(RDSInstance, pk=pk)`
unfoldable pub get_instance : ℕ → Exec State RdsInstance
get_instance pk = do
  found ← gets (λ s. first (select (λ r. r.pk == pk) s.target.rows))
  or_raise found not_found

-- `instance.save(update_fields=[…])`: `write` sets the fields.
abbrev pub save_fields : ℕ → (RdsInstance → RdsInstance) → Exec State (Unit {0})
save_fields pk write = modify (λ s. record s {
  target = record (s.target) { rows = update_where (λ r. r.pk == pk) write (s.target).rows };
})

-- What the Administrator's handlers of one instance begin with.
unfoldable pub administered :
    {A : Type 0} → AccessTables → Request → ℕ → (RdsInstance → Exec State A) → Exec State A
unfolding get_instance
administered t q pk rest = do
  require_administrator q.user
  r ← get_instance pk
  require_instance_access t q.user r true
  rest r

-- An entry of the audit history for an action that succeeded.
abbrev pub entry : Request → RdsInstance → AuditAction → String → AuditLog
entry q r action detail = record {
  instance_id = some r.pk;
  action = action;
  target_pid = none;
  target_query = "";
  performed_by = q.user.pk;
  result = success;
  detail = detail;
}
