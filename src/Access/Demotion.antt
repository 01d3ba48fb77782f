-- ===== src/Access/Demotion.antt =====
-- What an account loses when its role becomes read-only.
use healthgrid.Prelude.{
  ℕ, String, Bool, true, false, not, ◌&&◌, ◌||◌, some, All, ap, ◌∙◌, List, [], ◌∷◌, any, nat_eq,
  string_eq, ◌==◌, ◌≡◌, refl, arith, Bool-cases, inl, inr,
}
use healthgrid.Prelude.Tables.{select, update_where}
use healthgrid.Prelude.Tables.Rows.{All-of, All-update_by}
use healthgrid.Results.{ok}
use healthgrid.Models.Accounts.{
  User, readonly, UserInstanceAccess, UserInstanceAccessScope, ReplicationSlotAccess, AccessTables,
}
use healthgrid.Models.Instances.{RdsInstance}
use healthgrid.Access.{
  first, is_operator, of_user, of_user_on, is_scoped, role_or_legacy, may_operate, instance_role,
  can_operate_instance, can_manage_instance_notifications, can_manage_global_notifications,
  can_manage_replication_slot,
}
use healthgrid.Access.Accounts.{
  change_role, ensure_scope, find_user, save_user_role, update_user_role,
}
use healthgrid.Access.Fits.{by_id, find_user-found, pk-found}

-- The row of the account after the role change.
abbrev pub demoted : User → User
demoted u = record u { is_staff = false }

-- None of what an operator may do is left.
pub record MayNothing (t : AccessTables) (u : User) : Type 0 where
  pub operate : (r : RdsInstance) → can_operate_instance t u r ≡ false
  pub notifications : (r : RdsInstance) → can_manage_instance_notifications t u r ≡ false
  pub global : can_manage_global_notifications t u ≡ false
  pub slots : (action : String) → can_manage_replication_slot t u action ≡ false

module _ (target : User) (r : RdsInstance) where
  first-demoted :
      (t : AccessTables) (gs : List UserInstanceAccess)
      → may_operate (
          role_or_legacy t (demoted target) (
            first (
              select
                (of_user_on (demoted target) r)
                (update_where (of_user target) (change_role readonly) gs))))
        ≡ false
  first-demoted t [] = elim (Bool-cases (is_scoped t (demoted target))) [
    | inl scoped ↦ rw scoped refl
    | inr legacy ↦ rw legacy refl
  ]
  first-demoted t (g ∷ gs) = elim (Bool-cases (of_user target g)) [
    | inl own ↦ elim (Bool-cases (g.instance_id == r.pk)) [
      | inl here ↦ ground arith
      | inr there ↦ ground (arith, first-demoted t gs)
    ]
    | inr other ↦ ground (arith, first-demoted t gs)
  ]

  any-demoted :
      (gs : List UserInstanceAccess)
      → any
          (λ g.
            of_user_on (demoted target) r g && (is_operator g.role && g.can_manage_notifications))
          (update_where (of_user target) (change_role readonly) gs)
        ≡ false
  any-demoted [] = refl
  any-demoted (g ∷ gs) = elim (Bool-cases (of_user target g)) [
    | inl own ↦ ground (arith, any-demoted gs)
    | inr other ↦ ground (arith, any-demoted gs)
  ]

module _ (target : User) (manages_global : Bool) (t : AccessTables)
    (plain : target.is_superuser ≡ false) where
  save_user_role-operate :
      (r : RdsInstance)
      → can_operate_instance (save_user_role target readonly manages_global t) (demoted target) r
        ≡ false
  unfolding can_operate_instance instance_role save_user_role
  save_user_role-operate r =
      ground
        (arith, first-demoted target r (save_user_role target readonly manages_global t) t.grants)

  save_user_role-notifications :
      (r : RdsInstance)
      → can_manage_instance_notifications
          (save_user_role target readonly manages_global t)
          (demoted target)
          r
        ≡ false
  unfolding can_manage_instance_notifications save_user_role
  save_user_role-notifications r = ground (arith, any-demoted target r t.grants)

  save_user_role-MayNothing :
      MayNothing (save_user_role target readonly manages_global t) (demoted target)
  unfolding can_manage_global_notifications can_manage_replication_slot
  save_user_role-MayNothing = record {
    operate = save_user_role-operate;
    notifications = save_user_role-notifications;
    global = ground arith;
    slots = λ action. ground arith;
  }

-- The slots of an account that is not staff any more: its rows grant nothing.
abbrev pub SlotRevoked : ℕ → ReplicationSlotAccess → Type 0
SlotRevoked id a = (not (a.user_id == id) || not (a.can_drop || a.can_terminate)) ≡ true

-- A scope of the account that manages no global notifications.
abbrev pub ScopeRevoked : ℕ → UserInstanceAccessScope → Type 0
ScopeRevoked id s = (not (s.user_id == id) || not s.can_manage_global_notifications) ≡ true

-- A grant of the account that is read-only and manages no notifications.
abbrev pub GrantRevoked : ℕ → UserInstanceAccess → Type 0
GrantRevoked id g =
    (not (g.user_id == id) || not (is_operator g.role || g.can_manage_notifications)) ≡ true

-- The tables in which nothing is left of what the account of a key could do.
pub record Revoked (id : ℕ) (t : AccessTables) : Type 0 where
  pub slots : All (SlotRevoked id) t.slot_access
  pub scopes : All (ScopeRevoked id) t.scopes
  pub grants : All (GrantRevoked id) t.grants

-- An update of the rows of the account that makes each of them harmless.
update_where-All :
    {A : Type 0} (P : A → Type 0) (own : A → Bool) (f : A → A)
    → ((x : A) → own x ≡ true → P (f x))
    → ((x : A) → own x ≡ false → P x)
    → (xs : List A) → All P (update_where own f xs)
update_where-All P own f done apart xs =
    All-update_by P own f xs (All-of (λ x. (done x, apart x)) xs)

save_user_role-Revoked :
    (target : User) (id : ℕ) (manages_global : Bool) (t : AccessTables)
    → target.pk ≡ id
    → Revoked id (save_user_role target readonly manages_global t)
unfolding save_user_role
save_user_role-Revoked target id manages_global t same = record {
  slots =
      update_where-All (SlotRevoked id) (λ a. a.user_id == target.pk)
        (λ a. record a { can_drop = false; can_terminate = false }) (λ a own. ground arith)
        (λ a other. ground (arith, same)) t.slot_access;
  scopes =
      update_where-All (ScopeRevoked id) (λ s. s.user_id == target.pk)
        (λ s. record s { can_manage_global_notifications = false }) (λ s own. ground arith)
        (λ s other. ground (arith, same)) (ensure_scope target.pk t.scopes);
  grants =
      update_where-All (GrantRevoked id) (of_user target) (change_role readonly)
        (λ g own. ground arith) (λ g other. ground (arith, same)) t.grants;
}

-- The row that the new table holds for the account.
first-demotion :
    (users : List User) (id : ℕ) (u : User)
    → first (select (by_id id) users) ≡ some u
    → first (select (by_id id) (update_where (by_id id) demoted users)) ≡ some (demoted u)
first-demotion [] id u e = cc
first-demotion (v ∷ vs) id u e = elim (Bool-cases (v.pk == id)) [
  | inl here ↦ ground arith
  | inr there ↦ ground (arith, first-demotion vs id u)
]

-- A role change to read-only succeeds for an account that is no administrator, and takes every
-- operator permission away at once. The row saved for the account is not staff; it may operate no
-- instance, manage no notifications, of an instance or global, and drop or terminate no slot; and
-- no row of slots, of scopes or of grants is left that gives the account any of that.
pub update_user_role-readonly :
    (id : ℕ) (manages_global : Bool) (target : User) (t : AccessTables)
    → find_user (some id) t ≡ ok target
    → target.is_superuser ≡ false
    → (t' : AccessTables) × (saved : User) × (update_user_role (some id) "readonly" manages_global t
        ≡ ok t')
      × (first (select (by_id id) t'.users) ≡ some saved)
      × (saved.is_staff ≡ false)
      × MayNothing t' saved
      × Revoked id t'
unfolding update_user_role save_user_role
update_user_role-readonly id manages_global target t found plain =
    let there : first (select (by_id id) t.users) ≡ some target =
      find_user-found id t target found in
    let same : target.pk ≡ id = pk-found t.users id target there in
    (
      save_user_role target readonly manages_global t,
      demoted target,
      rw found (rw plain refl),
      ap (λ i. first (select (by_id id) (update_where (by_id i) demoted t.users))) same
          ∙ first-demotion t.users id target there,
      refl,
      save_user_role-MayNothing target manages_global t plain,
      save_user_role-Revoked target id manages_global t same,
    )
