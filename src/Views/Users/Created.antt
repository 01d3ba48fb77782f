-- ===== src/Views/Users/Created.antt =====
-- What creating an account does to the grants and the keys.
use mathlib.Core.Path.{subst}
use healthgrid.Prelude.{
  ℕ, ◌+◌, ◌<◌, Bool, true, false, ◌&&◌, ◌||◌, Option, none, some, List, [], ◌∷◌, ◌++◌, All, nat_eq,
  ◌≡◌, refl, sym, arith,
}
use healthgrid.Prelude.Tables.{All-append}
use healthgrid.Prelude.Tables.Rows.{All-imp}
use healthgrid.Models.Accounts.{User, Role, readonly, operator, UserInstanceAccess, AccessTables}
use healthgrid.Models.Instances.{RdsInstance}
use healthgrid.Access.Accounts.{GrantForm, posted_role, save_slot_access}
use healthgrid.Access.Fits.{is_staff_id, GrantFits, IsFit}
use healthgrid.Access.Fits.Actions.{save_slot_access-IsFit}
use healthgrid.Views.Users.{UserForm}
use healthgrid.Views.Users.NewAccount.{add_spec, grant_specs, with_scope, with_slots, with_user}

-- The keys of the accounts are below `n`.
abbrev pub AllBelow : ℕ → List User → Type 0
AllBelow n users = All (λ u. u.pk < n) users

AllBelow-suc : (n : ℕ) (users : List User) → AllBelow n users → AllBelow (n + 1) users
AllBelow-suc n = All-imp (λ u h. omega (arith, h))

staff_append :
    (users : List User) (u : User) (id : ℕ)
    → is_staff_id users id ≡ true
    → is_staff_id (users ++ u ∷ []) id ≡ true
staff_append [] u id e = cc
staff_append (v ∷ vs) u id e = ground (arith, staff_append vs u id)

staff_new :
    (users : List User) (u : User)
    → AllBelow u.pk users
    → is_staff_id (users ++ u ∷ []) u.pk ≡ u.is_staff
staff_new [] u h = ground arith
staff_new (v ∷ vs) u h = ground (arith, h.0, staff_new vs u h.1)

-- A grant list that the form allows, for the account of key `id`.
abbrev SpecsFit : List User → Option (List UserInstanceAccess) → Type 0
SpecsFit users none = Unit {0}
SpecsFit users (some gs) = All (GrantFits users) gs

module _ (users : List User) (id : ℕ) (form : GrantForm) where
  add_spec-fits :
      (b : Bool) (pk : ℕ) (role : Option Role) (rest : Option (List UserInstanceAccess))
      → is_staff_id users id ≡ b
      → SpecsFit users rest
      → SpecsFit users (add_spec id b form pk role rest)
  unfolding add_spec
  add_spec-fits b pk none rest staff h = h
  add_spec-fits b pk (some role) none staff h = tt
  add_spec-fits b pk (some readonly) (some gs) staff h = (refl, h)
  add_spec-fits true pk (some operator) (some gs) staff h = (staff, h)
  add_spec-fits false pk (some operator) (some gs) staff h = tt

  grant_specs-fit :
      (b : Bool) (rs : List RdsInstance)
      → is_staff_id users id ≡ b
      → SpecsFit users (grant_specs id b form rs)
  unfolding grant_specs
  grant_specs-fit b [] staff = tt
  grant_specs-fit b (r ∷ rs) staff =
      add_spec-fits b r.pk (posted_role form r.pk) (grant_specs id b form rs) staff
        (grant_specs-fit b rs staff)

module _ (form : UserForm) (user : User) (t : AccessTables) (fresh : AllBelow user.pk t.users) where
  with_scope-IsFit : IsFit t → IsFit (with_scope form user t)
  with_scope-IsFit h = record {
    grants =
        All-imp (λ g fits. ground (arith, fits, staff_append t.users user g.user_id)) t.grants
          h.grants;
    slots =
        All-imp (λ a fits. ground (arith, fits, staff_append t.users user a.user_id)) t.slot_access
          h.slots;
  }

  with_slots-IsFit :
      (b : Bool)
      → (b ≡ true → user.is_staff ≡ true)
      → IsFit t
      → IsFit (with_slots form user b (with_scope form user t))
  with_slots-IsFit true staff h =
      save_slot_access-IsFit user.pk form.can_drop form.can_terminate (with_scope form user t)
        (ground (arith, staff_new t.users user fresh, staff refl)) (with_scope-IsFit h)
  with_slots-IsFit false staff h = with_scope-IsFit h

  with_slots-users :
      (b : Bool) → (with_slots form user b (with_scope form user t)).users ≡ t.users ++ user ∷ []
  unfolding save_slot_access
  with_slots-users true = refl
  with_slots-users false = refl

  pub with_user-IsFit :
      (instances : List RdsInstance) (specs : List UserInstanceAccess)
      → grant_specs user.pk user.is_staff form.new_grants instances ≡ some specs
      → IsFit t
      → IsFit (with_user form user specs t)
  unfolding with_user
  with_user-IsFit instances specs read h = record {
    grants = All-append (GrantFits granted.users) granted.grants specs fit.grants (
        subst (λ us. All (GrantFits us) specs) (sym (with_slots-users b))
          (subst (SpecsFit (t.users ++ user ∷ [])) read (
            grant_specs-fit (t.users ++ user ∷ []) user.pk form.new_grants user.is_staff instances
              (staff_new t.users user fresh))));
    slots = fit.slots;
  }
    where
      b : Bool
      b = user.is_staff && (form.can_drop || form.can_terminate)

      granted : AccessTables
      granted = with_slots form user b (with_scope form user t)

      fit : IsFit granted
      fit = with_slots-IsFit b (λ yes_. ground (arith, yes_)) h

  pub with_user-AllBelow :
      (specs : List UserInstanceAccess) → AllBelow (user.pk + 1) (with_user form user specs t).users
  unfolding with_user
  with_user-AllBelow specs =
      subst (AllBelow (user.pk + 1))
        (sym (with_slots-users (user.is_staff && (form.can_drop || form.can_terminate))))
        (All-append (λ u. u.pk < user.pk + 1) t.users _ (AllBelow-suc user.pk t.users fresh)
          (omega arith, tt))
