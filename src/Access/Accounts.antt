-- ===== src/Access/Accounts.antt =====
-- `user_management` of monitor/views.py: the actions that change the role and the grants of an
-- account.
use healthgrid.Prelude.{
  ℕ, String, Bool, true, false, not, ◌&&◌, ◌||◌, Option, none, some, List, [], ◌∷◌, ◌++◌, any,
  nat_eq, string_eq, ◌==◌, if◌then◌else◌,
}
use healthgrid.Prelude.Tables.{select, update_where, delete_where}
use healthgrid.Results.{Result, ok, raise, permission_denied, not_found, ◌>>=◌, require}
use healthgrid.Models.Accounts.{
  User, Role, readonly, operator, UserInstanceAccess, UserInstanceAccessScope, AccessTables,
}
use healthgrid.Models.Instances.{RdsInstance}
use healthgrid.Access.{first, is_operator, of_user}

-- A posted role; anything else is no role.
abbrev pub role_of : String → Option Role
role_of text =
    if text == "readonly" then some readonly else if text == "operator" then some operator else none

-- `UserInstanceAccessScope.objects.get_or_create(user=target)`
unfoldable pub ensure_scope : ℕ → List UserInstanceAccessScope → List UserInstanceAccessScope
ensure_scope u scopes =
    if any (λ s. s.user_id == u) scopes
    then scopes
    else scopes ++ record { user_id = u; can_manage_global_notifications = false } ∷ []

-- The grants of the account take the new role; a read-only one manages no notifications.
abbrev pub change_role : Role → UserInstanceAccess → UserInstanceAccess
change_role role g = record g {
  role = role;
  can_manage_notifications = is_operator role && g.can_manage_notifications;
}

-- The transaction of the action `update_user_role`.
unfoldable pub save_user_role : User → Role → Bool → AccessTables → AccessTables
save_user_role target new_role manages_global t = record t {
  users =
      update_where (λ u. u.pk == target.pk) (λ u. record u { is_staff = is_operator new_role })
        t.users;
  scopes =
      update_where (λ s. s.user_id == target.pk)
        (λ s. record s { can_manage_global_notifications = is_operator new_role && manages_global })
        (ensure_scope target.pk t.scopes);
  grants = update_where (of_user target) (change_role new_role) t.grants;
  slot_access =
      if is_operator new_role
      then t.slot_access
      else update_where (λ a. a.user_id == target.pk)
          (λ a. record a { can_drop = false; can_terminate = false }) t.slot_access;
}

-- `get_object_or_404(User.objects, pk=target_id)`, where an id that is no number is refused before
abbrev pub find_user : Option ℕ → AccessTables → Result User
find_user none t = raise permission_denied
find_user (some pk) t = elim (first (select (λ u. u.pk == pk) t.users)) [
  | none ↦ raise not_found
  | some u ↦ ok u
]

abbrev pub role_or_denied : Option Role → Result Role
role_or_denied none = raise permission_denied
role_or_denied (some role) = ok role

-- The action `update_user_role`.
unfoldable pub update_user_role : Option ℕ → String → Bool → AccessTables → Result AccessTables
update_user_role user_id role manages_global t = do
  target ← find_user user_id t
  _ ← require (not target.is_superuser) permission_denied
  new_role ← role_or_denied (role_of role)
  ok (save_user_role target new_role manages_global t)

-- `_save_slot_access`: `update_or_create`
unfoldable pub save_slot_access : ℕ → Bool → Bool → AccessTables → AccessTables
save_slot_access user_id can_drop can_terminate t = record t {
  slot_access =
      if any (λ a. a.user_id == user_id) t.slot_access
      then update_where (λ a. a.user_id == user_id)
          (λ a. record a { can_drop = can_drop; can_terminate = can_terminate }) t.slot_access
      else t.slot_access
        ++ record { user_id = user_id; can_drop = can_drop; can_terminate = can_terminate } ∷ [];
}

-- The action `update_slot_access`.
unfoldable pub update_slot_access : Option ℕ → Bool → Bool → AccessTables → Result AccessTables
update_slot_access user_id can_drop can_terminate t = do
  target ← find_user user_id t
  _ ← require (not (target.is_superuser || not target.is_staff)) permission_denied
  ok (save_slot_access target.pk can_drop can_terminate t)

-- What a form says of one instance: the fields `instance_role_…` and `instance_notifications_…`.
pub record GrantForm : Type 0 where
  pub all_instance_role : String
  pub instance_role_of : ℕ → String
  pub instance_notifications : ℕ → Bool

-- The role that the form gives on an instance, the bulk role first.
unfoldable pub posted_role : GrantForm → ℕ → Option Role
posted_role form pk = elim (role_of form.all_instance_role) [
  | some role ↦ some role
  | none ↦ role_of (form.instance_role_of pk)
]

abbrev pub grant_on : ℕ → Bool → GrantForm → ℕ → Role → UserInstanceAccess
grant_on user_id is_staff form pk role = record {
  user_id = user_id;
  instance_id = pk;
  role = role;
  can_manage_notifications = is_staff && (is_operator role && form.instance_notifications pk);
}

-- One round of the loop over the active instances: the grants so far come first.
unfoldable pub add_grant :
    ℕ
    → Bool
    → GrantForm
    → ℕ
    → Option Role
    → List UserInstanceAccess
    → Result (List UserInstanceAccess)
add_grant user_id is_staff form pk none rest = ok rest
add_grant user_id is_staff form pk (some role) rest =
    ok (grant_on user_id is_staff form pk role ∷ rest)

-- An operator grant for an account that is not an operator is refused.
abbrev pub role_fits : Bool → Option Role → Bool
role_fits is_staff none = true
role_fits is_staff (some role) = not (is_operator role) || is_staff

unfoldable pub posted_grants :
    ℕ → Bool → GrantForm → List RdsInstance → Result (List UserInstanceAccess)
unfolding posted_role add_grant
posted_grants user_id is_staff form [] = ok []
posted_grants user_id is_staff form (r ∷ rs) = do
  _ ← require (role_fits is_staff (posted_role form r.pk)) permission_denied
  rest ← posted_grants user_id is_staff form rs
  add_grant user_id is_staff form r.pk (posted_role form r.pk) rest

-- The action `update_instance_access`; `instances` are the active ones.
unfoldable pub update_instance_access :
    Option ℕ → GrantForm → List RdsInstance → AccessTables → Result AccessTables
unfolding posted_grants ensure_scope
update_instance_access user_id form instances t = do
  target ← find_user user_id t
  _ ← require (not target.is_superuser) permission_denied
  grants ← posted_grants target.pk target.is_staff form instances
  ok (record t {
    grants = delete_where (of_user target) t.grants ++ grants;
    scopes = ensure_scope target.pk t.scopes;
  })
