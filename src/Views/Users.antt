-- ===== src/Views/Users.antt =====
-- `user_management` of monitor/views.py, with the account that it creates. `User` has no password
-- and no email address here: nothing that is modelled reads them.
pub mod NewAccount
pub mod Handler
pub mod Created
pub mod Sound
pub mod Creation
pub mod Reachable
use healthgrid.Prelude.{
  ℕ, ◌+◌, String, Bool, true, false, not, ◌&&◌, ◌||◌, Option, none, some, List, [], ◌∷◌, ◌++◌, ◌<>◌,
  any, given, is_some, show, join, strip, is_blank, string_eq, nat_eq, ◌==◌, if◌then◌else◌,
}
use healthgrid.Prelude.Tables.{select}
use healthgrid.Results.{Result, ok, raise, permission_denied, integrity_error}
use healthgrid.Effects.{Exec, pure, throw, gets, modify, guard, ◌>>=◌, ◌>>◌}
use healthgrid.Models.Accounts.{
  User, Role, readonly, operator, UserInstanceAccess, UserInstanceAccessScope, AccessTables,
}
use healthgrid.Models.Audit.{update_slot_permissions, success, AuditLog}
use healthgrid.Models.Instances.{RdsInstance}
use healthgrid.Access.{is_operator}
use healthgrid.Access.Accounts.{
  GrantForm, find_user, role_of, posted_role, update_user_role, save_slot_access,
  update_slot_access, update_instance_access,
}
use healthgrid.Views.{Flash, ViewState, Request, flash, log_audit, require_administrator}

-- The accounts with their grants, the key that the next account gets, and the instances.
pub record Directory : Type 0 where
  pub tables : AccessTables
  pub next_user : ℕ
  pub instances : List RdsInstance

abbrev pub State : Type 0
State = ViewState Directory

-- The posted fields. `user_id` is none where it is no number; `new_grants` are the fields
-- `new_all_instance_role`, `new_instance_role_…` and `new_instance_notifications_…`.
pub record UserForm : Type 0 where
  pub action : Option String
  pub user_id : Option ℕ
  pub role : Option String
  pub can_drop : Bool
  pub can_terminate : Bool
  pub can_manage_global_notifications : Bool
  pub grants : GrantForm
  pub username : String
  pub password : String
  pub new_grants : GrantForm
  pub new_can_manage_global_notifications : Bool

abbrev pub set_tables : AccessTables → State → State
set_tables t s = record s { target = record (s.target) { tables = t } }

abbrev pub save_result : Result AccessTables → Exec State (Unit {0})
save_result (raise e) = throw e
save_result (ok t) = modify (set_tables t)

-- A transaction on the tables.
abbrev pub save_tables : (AccessTables → Result AccessTables) → Exec State (Unit {0})
save_tables change s = save_result (change s.target.tables) s

abbrev pub get_target : UserForm → Exec State User
get_target form s = (find_user form.user_id s.target.tables, s)

abbrev python_bool : Bool → String
python_bool b = if b then "True" else "False"

-- The audit entry of `_save_slot_access`.
abbrev pub slot_entry : Request → User → Bool → Bool → AuditLog
slot_entry q target can_drop can_terminate = record {
  instance_id = none;
  action = update_slot_permissions;
  target_pid = none;
  target_query = "";
  performed_by = q.user.pk;
  result = success;
  detail =
      "user="
      <> (target.username
          <> (" (id="
              <> (show target.pk
                  <> ("); drop="
                      <> (python_bool can_drop
                          <> ("; terminate=" <> python_bool can_terminate))))));
}

abbrev pub post_user_role : UserForm → Exec State (Unit {0})
post_user_role form = do
  target ← get_target form
  save_tables
      (update_user_role form.user_id (given form.role "") form.can_manage_global_notifications)
  flash
      (Flash.success ("Changed '" <> (target.username <> ("' to " <> (given form.role "" <> ".")))))

abbrev pub post_slot_access : Request → UserForm → Exec State (Unit {0})
post_slot_access q form = do
  target ← get_target form
  save_tables (update_slot_access form.user_id form.can_drop form.can_terminate)
  log_audit (slot_entry q target form.can_drop form.can_terminate)
  flash (Flash.success ("Updated replication-slot permissions for '" <> (target.username <> "'.")))

abbrev pub active_instances : State → List RdsInstance
active_instances s = select (λ r. r.is_active) (s.target).instances

abbrev pub access_updated : User → Flash
access_updated target = Flash.success ("Updated instance access for '" <> (target.username <> "'."))

abbrev pub save_access : UserForm → User → List RdsInstance → Exec State (Unit {0})
save_access form target instances = do
  save_tables (update_instance_access form.user_id form.grants instances)
  flash (access_updated target)

abbrev pub post_instance_access : UserForm → Exec State (Unit {0})
post_instance_access form = do
  target ← get_target form
  instances ← gets active_instances
  save_access form target instances
