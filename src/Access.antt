-- ===== src/Access.antt =====
-- monitor/permissions.py: what an account may see and do, by the tables of grants.
pub mod Accounts
pub mod Views
pub mod Demotion
pub mod Fits
use healthgrid.Prelude.{
  ℕ, String, Bool, true, false, not, ◌&&◌, ◌||◌, Option, none, some, List, [], ◌∷◌, any, is_some,
  nat_eq, string_eq, ◌==◌, if◌then◌else◌,
}
use healthgrid.Prelude.Tables.{select}
use healthgrid.Models.Accounts.{
  User, Role, readonly, operator, UserInstanceAccess, UserInstanceAccessScope,
  ReplicationSlotAccess, AccessTables,
}
use healthgrid.Models.Instances.{RdsInstance}

-- What `instance_role` returns, besides None.
pub data InstanceRole : Type 0 where
  administrator : InstanceRole
  granted : Role → InstanceRole

-- `user and user.is_authenticated and user.is_active`
abbrev pub is_live : User → Bool
is_live u = u.is_authenticated && u.is_active

-- `objects.filter(…).first()`
abbrev pub first : {A : Type 0} → List A → Option A
first [] = none
first (a ∷ rest) = some a

abbrev pub is_operator : Role → Bool
is_operator readonly = false
is_operator operator = true

abbrev pub of_user : User → UserInstanceAccess → Bool
of_user u g = g.user_id == u.pk

abbrev pub of_user_on : User → RdsInstance → UserInstanceAccess → Bool
of_user_on u r g = of_user u g && g.instance_id == r.pk

-- The account has an explicit scope, or grants of its own.
unfoldable pub is_scoped : AccessTables → User → Bool
is_scoped t u = any (λ s. s.user_id == u.pk) t.scopes || any (of_user u) t.grants

-- What follows the lookup of the grant.
abbrev pub role_or_legacy : AccessTables → User → Option UserInstanceAccess → Option InstanceRole
role_or_legacy t u (some g) = some (granted g.role)
role_or_legacy t u none =
    if is_scoped t u then none else some (granted (if u.is_staff then operator else readonly))

unfoldable pub instance_role : AccessTables → User → RdsInstance → Option InstanceRole
instance_role t u r =
    if not (is_live u)
    then none
    else if u.is_superuser
    then some administrator
    else role_or_legacy t u (first (select (of_user_on u r) t.grants))

unfoldable pub can_view_instance : AccessTables → User → RdsInstance → Bool
can_view_instance t u r = is_some (instance_role t u r)

-- `role in {"administrator", "operator"}`
abbrev pub may_operate : Option InstanceRole → Bool
may_operate none = false
may_operate (some administrator) = true
may_operate (some (granted role)) = is_operator role

unfoldable pub can_operate_instance : AccessTables → User → RdsInstance → Bool
can_operate_instance t u r = may_operate (instance_role t u r)

unfoldable pub can_manage_instance_notifications : AccessTables → User → RdsInstance → Bool
can_manage_instance_notifications t u r =
    if not (is_live u)
    then false
    else if u.is_superuser
    then true
    else if not (is_scoped t u)
    then u.is_staff
    else any (λ g. of_user_on u r g && (is_operator g.role && g.can_manage_notifications)) t.grants

abbrev pub scope_permits : Option UserInstanceAccessScope → Bool
scope_permits none = true
scope_permits (some scope) = scope.can_manage_global_notifications

unfoldable pub can_manage_global_notifications : AccessTables → User → Bool
can_manage_global_notifications t u =
    if not (is_live u && u.is_staff)
    then false
    else if u.is_superuser
    then true
    else scope_permits (first (select (λ s. s.user_id == u.pk) t.scopes))

-- `instances` is the table of `RDSInstance`.
unfoldable pub accessible_instances : AccessTables → User → List RdsInstance → List RdsInstance
accessible_instances t u instances =
    let queryset = select (λ r. r.is_active) instances in
    if u.is_superuser || not (is_scoped t u)
    then queryset
    else select (λ r. any (of_user_on u r) t.grants) queryset

unfoldable pub can_run_queries : AccessTables → User → RdsInstance → Bool
can_run_queries t u r =
    if not (is_live u)
    then false
    else if not r.query_runner_enabled
    then false
    else if u.is_superuser
    then true
    else any (λ g. g.user_id == u.pk && g.instance_id == r.pk) t.query_grants

-- `getattr(access, f"can_{action}")`, where a missing row grants nothing
abbrev pub slot_permits : String → Option ReplicationSlotAccess → Bool
slot_permits action none = false
slot_permits action (some a) = if action == "drop" then a.can_drop else a.can_terminate

unfoldable pub can_manage_replication_slot : AccessTables → User → String → Bool
can_manage_replication_slot t u action =
    if not (action == "drop" || action == "terminate")
    then false
    else if not (is_live u && u.is_staff)
    then false
    else if u.is_superuser
    then true
    else slot_permits action (first (select (λ a. a.user_id == u.pk) t.slot_access))

-- `IsStaffOrReadOnly.has_permission`
unfoldable pub has_permission : String → User → Bool
has_permission method u =
    if method == "DELETE"
    then is_live u && (u.is_staff && u.is_superuser)
    else if method == "GET" || (method == "HEAD" || method == "OPTIONS")
    then u.is_authenticated
    else u.is_authenticated && u.is_staff
