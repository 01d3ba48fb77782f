-- ===== src/Views/Users/NewAccount.antt =====
-- The action `create_user` of `user_management`.
use healthgrid.Prelude.{
  ℕ, ◌+◌, String, Bool, true, false, not, ◌&&◌, ◌||◌, Option, none, some, List, [], ◌∷◌, ◌++◌, ◌<>◌,
  any, is_some, join, strip, is_blank, string_eq, nat_eq, ◌==◌, if◌then◌else◌,
}
use healthgrid.Results.{integrity_error}
use healthgrid.Effects.{Exec, pure, gets, modify, guard, ◌>>=◌, ◌>>◌}
use healthgrid.Models.Accounts.{User, Role, UserInstanceAccess, AccessTables}
use healthgrid.Models.Instances.{RdsInstance}
use healthgrid.Access.{is_operator}
use healthgrid.Access.Accounts.{GrantForm, role_of, posted_role, save_slot_access}
use healthgrid.Views.{Flash, Request, flash, log_audit}
use healthgrid.Views.Users.{State, UserForm, slot_entry, active_instances}

-- One round of the loop that reads the grants of a new account; `none` is `invalid_grant`.
unfoldable pub add_spec :
    ℕ
    → Bool
    → GrantForm
    → ℕ
    → Option Role
    → Option (List UserInstanceAccess)
    → Option (List UserInstanceAccess)
add_spec id is_staff form pk none rest = rest
add_spec id is_staff form pk (some role) none = none
add_spec id is_staff form pk (some role) (some rest) =
    if is_operator role && not is_staff
    then none
    else some (
        record {
          user_id = id;
          instance_id = pk;
          role = role;
          can_manage_notifications = is_staff && form.instance_notifications pk;
        }
        ∷ rest)

unfoldable pub grant_specs :
    ℕ → Bool → GrantForm → List RdsInstance → Option (List UserInstanceAccess)
unfolding add_spec
grant_specs id is_staff form [] = some []
grant_specs id is_staff form (r ∷ rs) =
    add_spec id is_staff form r.pk (posted_role form r.pk) (grant_specs id is_staff form rs)

-- The new account.
abbrev pub new_user : ℕ → String → Bool → User
new_user id username is_staff = record {
  pk = id;
  username = username;
  is_authenticated = true;
  is_active = true;
  is_staff = is_staff;
  is_superuser = false;
}

-- The transaction that creates the account, with its scope, slot access and grants.
abbrev pub with_scope : UserForm → User → AccessTables → AccessTables
with_scope form user t = record t {
  users = t.users ++ user ∷ [];
  scopes =
      t.scopes
      ++ record {
        user_id = user.pk;
        can_manage_global_notifications = user.is_staff && form.new_can_manage_global_notifications;
      }
        ∷ [];
}

abbrev pub with_slots : UserForm → User → Bool → AccessTables → AccessTables
with_slots form user b t =
    if b then save_slot_access user.pk form.can_drop form.can_terminate t else t

abbrev pub with_grants : List UserInstanceAccess → AccessTables → AccessTables
with_grants specs t = record t { grants = t.grants ++ specs }

unfoldable pub with_user : UserForm → User → List UserInstanceAccess → AccessTables → AccessTables
with_user form user specs t = with_grants specs (
    with_slots form user (user.is_staff && (form.can_drop || form.can_terminate))
      (with_scope form user t))

-- `validate_password` gives the messages of what is wrong with a password, `normalize` is
-- `normalize_username`. The model's own username is unique, so that `create_user` raises where the
-- normalized name is taken.
module _ (password_problems : String → List String) (normalize : String → String)
    (q : Request) where
  unfoldable pub insert_user :
      UserForm → String → String → Bool → List UserInstanceAccess → Exec State (Unit {0})
  unfolding with_user
  insert_user form username role is_staff specs = do
    directory ← gets (λ s. s.target)
    user ← pure (new_user directory.next_user (normalize username) is_staff)
    guard (not (any (λ u. u.username == user.username) directory.tables.users)) integrity_error
    modify (λ s. record s {
      target = record (s.target) {
        tables = with_user form user specs (s.target).tables;
        next_user = (s.target).next_user + 1;
      };
    })
    (if is_staff && (form.can_drop || form.can_terminate)
        then log_audit (slot_entry q user form.can_drop form.can_terminate)
        else pure tt)
    flash (
        Flash.success (
          "Created "
          <> (role
              <> (" user '"
                  <> (username <> "'. They will enroll their own authenticator on first login.")))))

  abbrev pub insert_if :
      UserForm → String → String → Bool → Option (List UserInstanceAccess) → Exec State (Unit {0})
  insert_if form username role is_staff none =
      flash (Flash.error "Read-only accounts cannot receive operator instance access.")
  insert_if form username role is_staff (some specs) = insert_user form username role is_staff specs

  abbrev pub create_valid : UserForm → String → String → List String → Exec State (Unit {0})
  create_valid form username role (p ∷ ps) = flash (Flash.error (join " " (p ∷ ps)))
  create_valid form username role [] = do
    directory ← gets (λ s. s.target)
    specs ← gets (λ s.
        grant_specs directory.next_user (role == "operator") form.new_grants (active_instances s))
    insert_if form username role (role == "operator") specs

  abbrev pub create_named : UserForm → String → String → Exec State (Unit {0})
  create_named form username role = do
    exists ← gets (λ s. any (λ u. u.username == username) (s.target).tables.users)
    (if exists
        then flash (Flash.error "That username already exists.")
        else create_valid form username role (password_problems form.password))

  -- The action `create_user`.
  unfoldable pub create_user : UserForm → String → String → Exec State (Unit {0})
  unfolding insert_user grant_specs strip
  create_user form username role =
      if is_blank username || (is_blank form.password || not (is_some (role_of role)))
      then flash (Flash.error "Username, password, and a valid role are required.")
      else if not (role == "operator") && (form.can_drop || form.can_terminate)
      then flash (Flash.error "Only operators can be granted replication-slot permissions.")
      else create_named form username role
