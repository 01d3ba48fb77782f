-- ===== src/Access/Fits/ReadOnly.antt =====
-- Accounts that are not operators, where the grants are fit.
use healthgrid.Prelude.{
  true, false, ◌&&◌, ◌||◌, some, List, [], ◌∷◌, All, any, nat_eq, nat_beq_iff, ◌≡◌, refl, ap, arith,
  Bool-cases, inl, inr,
}
use healthgrid.Prelude.Tables.{select}
use healthgrid.Models.Accounts.{User, UserInstanceAccess, AccessTables}
use healthgrid.Models.Instances.{RdsInstance}
use healthgrid.Access.{
  first, is_operator, of_user, of_user_on, role_or_legacy, may_operate, instance_role,
  can_operate_instance, can_manage_instance_notifications, can_manage_global_notifications,
  can_manage_replication_slot,
}
use healthgrid.Access.Demotion.{MayNothing}
use healthgrid.Access.Fits.{is_staff_id, GrantFits, IsFit, by_id, is_staff-found}

module _ (t : AccessTables) (u : User) (h : IsFit t)
    (found : first (select (by_id u.pk) t.users) ≡ some u)
    (plain : (u.is_staff || u.is_superuser) ≡ false) where
  not_staff : is_staff_id t.users u.pk ≡ false
  not_staff = ground (arith, is_staff-found t.users u.pk u found, plain)

  -- A grant of the account is read-only.
  own_grant :
      (g : UserInstanceAccess)
      → GrantFits t.users g
      → of_user u g ≡ true
      → is_operator g.role ≡ false
  own_grant g fits own =
      ground (arith, fits, not_staff, ap (is_staff_id t.users) ((nat_beq_iff g.user_id u.pk).0 own))

  first-read_only :
      (r : RdsInstance) (gs : List UserInstanceAccess)
      → All (GrantFits t.users) gs
      → may_operate (role_or_legacy t u (first (select (of_user_on u r) gs))) ≡ false
  first-read_only r [] fits = ground (arith, plain)
  first-read_only r (g ∷ gs) fits = elim (Bool-cases (of_user_on u r g)) [
    | inl own ↦ ground (arith, own, own_grant g fits.0)
    | inr other ↦ ground (arith, other, first-read_only r gs fits.1)
  ]

  any-read_only :
      (r : RdsInstance) (gs : List UserInstanceAccess)
      → All (GrantFits t.users) gs
      → any (λ g. of_user_on u r g && (is_operator g.role && g.can_manage_notifications)) gs ≡ false
  any-read_only r [] fits = refl
  any-read_only r (g ∷ gs) fits = elim (Bool-cases (of_user u g)) [
    | inl own ↦ ground (arith, own, own_grant g fits.0 own, any-read_only r gs fits.1)
    | inr other ↦ ground (arith, other, any-read_only r gs fits.1)
  ]

  IsFit-operate : (r : RdsInstance) → can_operate_instance t u r ≡ false
  unfolding can_operate_instance instance_role
  IsFit-operate r = ground (arith, plain, first-read_only r t.grants h.grants)

  IsFit-notifications : (r : RdsInstance) → can_manage_instance_notifications t u r ≡ false
  unfolding can_manage_instance_notifications
  IsFit-notifications r = ground (arith, plain, any-read_only r t.grants h.grants)

  pub IsFit-MayNothing : MayNothing t u
  unfolding can_manage_global_notifications can_manage_replication_slot
  IsFit-MayNothing = record {
    operate = IsFit-operate;
    notifications = IsFit-notifications;
    global = ground (arith, plain);
    slots = λ action. ground (arith, plain);
  }
