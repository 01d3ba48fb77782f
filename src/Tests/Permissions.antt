-- ===== src/Tests/Permissions.antt =====
-- Accounts and what they may do.
use healthgrid.Prelude.{true, false, ◌&&◌, some, [], ◌∷◌, ◌≡◌, refl, arith}
use healthgrid.Prelude.Tables.{select}
use healthgrid.Results.{ok}
use healthgrid.Models.Accounts.{User, operator, AccessTables}
use healthgrid.Access.{
  first, can_view_instance, can_operate_instance, can_manage_instance_notifications,
  accessible_instances, is_scoped,
}
use healthgrid.Access.Accounts.{update_user_role}
use healthgrid.Access.Views.{accessible_instances-can_view, notifications-operate}
use healthgrid.Access.Demotion.{MayNothing, Revoked, update_user_role-readonly}
use healthgrid.Access.Fits.{by_id}
use healthgrid.Tests.Data.{orders, account}

-- An operator of instance 1, with its notifications and the drop of slots.
abbrev tables : AccessTables
tables = record {
  users = account 7 true false ∷ [];
  grants =
      record { user_id = 7; instance_id = 1; role = operator; can_manage_notifications = true }
      ∷ [];
  scopes = record { user_id = 7; can_manage_global_notifications = true } ∷ [];
  slot_access = record { user_id = 7; can_drop = true; can_terminate = false } ∷ [];
  query_grants = [];
}

update_user_role-readonly_example :
    (t' : AccessTables) × (saved : User) × (update_user_role (some 7) "readonly" true tables
      ≡ ok t')
    × (first (select (by_id 7) t'.users) ≡ some saved)
    × (saved.is_staff ≡ false)
    × MayNothing t' saved
    × Revoked 7 t'
update_user_role-readonly_example =
    update_user_role-readonly 7 true (account 7 true false) tables refl refl

accessible_instances-can_view_example :
    accessible_instances tables (account 7 true false) (orders ∷ [])
    ≡ select (λ r. r.is_active && can_view_instance tables (account 7 true false) r) (orders ∷ [])
accessible_instances-can_view_example =
    accessible_instances-can_view tables (account 7 true false) (orders ∷ []) refl

may_manage : can_manage_instance_notifications tables (account 7 true false) orders ≡ true
unfolding can_manage_instance_notifications is_scoped
may_manage = refl

notifications-operate_example : can_operate_instance tables (account 7 true false) orders ≡ true
notifications-operate_example =
    notifications-operate tables (account 7 true false) orders (omega arith) may_manage
