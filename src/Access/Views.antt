-- ===== src/Access/Views.antt =====
-- The permissions agree with each other.
use healthgrid.Prelude.{
  Option, Bool, true, false, not, ◌&&◌, ◌||◌, List, [], ◌∷◌, any, is_some, nat_eq, ◌≡◌, refl, ◌∙◌,
  arith, Bool-cases, inl, inr, ◌≤◌, none, some,
}
use healthgrid.Prelude.Tables.{select, count_where}
use healthgrid.Prelude.Tables.Rows.{select-cong, All-of}
use healthgrid.Models.Accounts.{User, UserInstanceAccess, AccessTables}
use healthgrid.Models.Instances.{RdsInstance}
use healthgrid.Access.{
  is_live, role_or_legacy, may_operate, first, is_operator, of_user, of_user_on, is_scoped,
  instance_role, can_view_instance, can_operate_instance, can_manage_instance_notifications,
  accessible_instances,
}

first_of_any : {A : Type 0} (p : A → Bool) (xs : List A) → is_some (first (select p xs)) ≡ any p xs
first_of_any p [] = refl
first_of_any p (x ∷ xs) = ground (arith, first_of_any p xs)

select-select_and :
    {A : Type 0} (p q : A → Bool) (xs : List A)
    → select q (select p xs) ≡ select (λ x. p x && q x) xs
select-select_and p q [] = refl
select-select_and p q (x ∷ xs) = ground (arith, select-select_and p q xs)

any_and_none :
    {A : Type 0} (p q : A → Bool) (xs : List A)
    → count_where p xs ≡ 0
    → any (λ x. p x && q x) xs ≡ false
any_and_none p q [] none_of = refl
any_and_none p q (x ∷ xs) none_of = ground (arith, any_and_none p q xs)

-- Where at most one row passes `p`, a row that passes `p` and `q` is the first that passes `p`.
sole_permit :
    {A : Type 0} (p q : A → Bool) (xs : List A)
    → count_where p xs ≤ 1
    → any (λ x. p x && q x) xs ≡ true
    → (x : A) × (first (select p xs) ≡ some x) × (q x ≡ true)
sole_permit p q [] one h = cc
sole_permit p q (x ∷ xs) one h = elim (Bool-cases (p x)) [
  | inl px ↦ elim (Bool-cases (q x)) [
    | inl qx ↦ (x, rw px refl, qx)
    | inr qx ↦ absurd (ground (arith, any_and_none p q xs))
  ]
  | inr px ↦
      let (y, found, qy) = sole_permit p q xs (ground arith) (ground arith) in (y, rw px found, qy)
]

any_imp :
    {A : Type 0} (p q : A → Bool) (xs : List A)
    → ((x : A) → p x ≡ true → q x ≡ true)
    → any q xs ≡ false
    → any p xs ≡ false
any_imp p q [] h none_of = refl
any_imp p q (x ∷ xs) h none_of = ground (arith, h x, any_imp p q xs h)

module _ (t : AccessTables) (u : User) where
  is_some-role_or_legacy :
      (found : Option UserInstanceAccess)
      → is_some (role_or_legacy t u found) ≡ (is_some found || not (is_scoped t u))
  is_some-role_or_legacy (some g) = refl
  is_some-role_or_legacy none = ground arith

  -- What a live account may view.
  can_view_instance-eq :
      (r : RdsInstance)
      → is_live u ≡ true
      → can_view_instance t u r
        ≡ (u.is_superuser || (any (of_user_on u r) t.grants || not (is_scoped t u)))
  unfolding can_view_instance instance_role
  can_view_instance-eq r live =
      let found = first (select (of_user_on u r) t.grants) in
      ground (arith, live, is_some-role_or_legacy found, first_of_any (of_user_on u r) t.grants)

  -- For an account that is signed in and active, the list of instances is exactly the active
  -- instances that the account may view one by one, in the same order.
  pub accessible_instances-can_view :
      (instances : List RdsInstance)
      → is_live u ≡ true
      → accessible_instances t u instances
        ≡ select (λ r. r.is_active && can_view_instance t u r) instances
  unfolding accessible_instances
  accessible_instances-can_view instances live =
      elim (Bool-cases (u.is_superuser || not (is_scoped t u))) [
        | inl all ↦ rw all (
            select-cong (λ r. r.is_active) (λ r. r.is_active && can_view_instance t u r) instances
              (All-of (λ r. ground (arith, all, can_view_instance-eq r live)) instances))
        | inr scoped ↦ rw scoped (
            select-select_and (λ r. r.is_active) (λ r. any (of_user_on u r) t.grants) instances
            ∙ select-cong (λ r. r.is_active && any (of_user_on u r) t.grants)
                (λ r. r.is_active && can_view_instance t u r) instances
                (All-of (λ r. ground (arith, scoped, can_view_instance-eq r live)) instances))
      ]

  operate-eq :
      (r : RdsInstance)
      → is_live u ≡ true
      → u.is_superuser ≡ false
      → can_operate_instance t u r
        ≡ may_operate (role_or_legacy t u (first (select (of_user_on u r) t.grants)))
  unfolding can_operate_instance instance_role
  operate-eq r live plain = ground arith

  legacy_operator :
      (found : Option UserInstanceAccess)
      → is_some found ≡ false
      → is_scoped t u ≡ false
      → u.is_staff ≡ true
      → may_operate (role_or_legacy t u found) ≡ true
  legacy_operator none missing legacy staff = ground arith
  legacy_operator (some g) missing legacy staff = cc

  unscoped_grants : is_scoped t u ≡ false → any (of_user u) t.grants ≡ false
  unfolding is_scoped
  unscoped_grants legacy = ground arith

  -- Where a user has at most one grant on the instance, whoever may manage the instance's
  -- notifications may also operate it, a legacy account and an administrator included.
  pub notifications-operate :
      (r : RdsInstance)
      → count_where (of_user_on u r) t.grants ≤ 1
      → can_manage_instance_notifications t u r ≡ true
      → can_operate_instance t u r ≡ true
  unfolding can_manage_instance_notifications can_operate_instance instance_role
  notifications-operate r unique may = elim (Bool-cases u.is_superuser) [
    | inl super ↦ ground arith
    | inr plain ↦
        let live : is_live u ≡ true = ground arith in
        elim (Bool-cases (is_scoped t u)) [
          | inl scoped ↦
              let (g, found, permits) =
                sole_permit (of_user_on u r) (λ g. is_operator g.role && g.can_manage_notifications)
                  t.grants unique (ground arith) in
              operate-eq r live plain ∙ rw found (ground arith)
          | inr legacy ↦
              let missing : is_some (first (select (of_user_on u r) t.grants)) ≡ false =
                first_of_any (of_user_on u r) t.grants
                ∙ any_imp (of_user_on u r) (of_user u) t.grants (λ g h. ground arith)
                    (unscoped_grants legacy) in
              operate-eq r live plain
              ∙ legacy_operator (first (select (of_user_on u r) t.grants)) missing legacy
                  (ground arith)
        ]
  ]
