-- ===== src/Access/Fits.antt =====
-- Grants of an operator belong to operators: the invariant of the actions of `user_management`.
pub mod Actions
pub mod ReadOnly
use healthgrid.Prelude.{
  ℕ, Bool, true, false, not, ◌&&◌, ◌||◌, Option, none, some, List, [], ◌∷◌, ◌++◌, All, any, nat_eq,
  nat_beq_iff, ◌==◌, ◌≡◌, refl, arith, ap, ◌∙◌, Bool-cases, inl, inr, if◌then◌else◌, ◌<◌,
}
use healthgrid.Prelude.Tables.{select, update_where, delete_where, All-append}
use healthgrid.Prelude.Tables.Rows.{All-select, All-update_where, All-update_by, All-imp}
use healthgrid.Results.{Result, ok, raise, permission_denied, not_found}
use healthgrid.Models.Accounts.{
  User, Role, readonly, operator, UserInstanceAccess, ReplicationSlotAccess, AccessTables,
}
use healthgrid.Models.Instances.{RdsInstance}
use healthgrid.Access.{first, is_operator, of_user}
use healthgrid.Access.Accounts.{
  GrantForm, change_role, find_user, save_user_role, update_user_role, save_slot_access,
  update_slot_access, posted_role, role_fits, grant_on, posted_grants, update_instance_access,
}

-- Whether the account of a key is there and is staff.
abbrev pub is_staff_id : List User → ℕ → Bool
is_staff_id [] id = false
is_staff_id (u ∷ us) id = if u.pk == id then u.is_staff else is_staff_id us id

abbrev pub GrantFits : List User → UserInstanceAccess → Type 0
GrantFits users g = (not (is_operator g.role) || is_staff_id users g.user_id) ≡ true

abbrev pub SlotFits : List User → ReplicationSlotAccess → Type 0
SlotFits users a = (not (a.can_drop || a.can_terminate) || is_staff_id users a.user_id) ≡ true

pub record IsFit (t : AccessTables) : Type 0 where
  pub grants : All (GrantFits t.users) t.grants
  pub slots : All (SlotFits t.users) t.slot_access

abbrev pub by_id : ℕ → User → Bool
by_id id u = u.pk == id

pub is_staff-found :
    (users : List User) (id : ℕ) (u : User)
    → first (select (by_id id) users) ≡ some u
    → is_staff_id users id ≡ u.is_staff
is_staff-found [] id u e = cc
is_staff-found (v ∷ vs) id u e = ground (arith, is_staff-found vs id u)

pub pk-found :
    (users : List User) (id : ℕ) (u : User) → first (select (by_id id) users) ≡ some u → u.pk ≡ id
pk-found [] id u e = cc
pk-found (v ∷ vs) id u e = ground (arith, pk-found vs id u)

abbrev with_staff : Bool → User → User
with_staff b u = record u { is_staff = b }

staff_own :
    (users : List User) (id : ℕ) (b : Bool) (u : User)
    → first (select (by_id id) users) ≡ some u
    → is_staff_id (update_where (by_id id) (with_staff b) users) id ≡ b
staff_own [] id b u e = cc
staff_own (v ∷ vs) id b u e = ground (arith, staff_own vs id b u)

staff_other :
    (users : List User) (id other : ℕ) (b : Bool)
    → (other == id) ≡ false
    → is_staff_id (update_where (by_id id) (with_staff b) users) other ≡ is_staff_id users other
staff_other [] id other b e = refl
staff_other (v ∷ vs) id other b e = ground (arith, staff_other vs id other b)

pub find_user-found :
    (id : ℕ) (t : AccessTables) (u : User)
    → find_user (some id) t ≡ ok u
    → first (select (by_id id) t.users) ≡ some u
find_user-found id t u e = go (first (select (by_id id) t.users)) e
  where
    go :
        (o : Option User)
        → elim o as (λ x. Result User) [ none ↦ raise not_found | some v ↦ ok v ] ≡ ok u
        → o ≡ some u
    go none e = cc
    go (some v) e = cc

module _ (target : User) (role : Role) (manages : Bool) (t : AccessTables)
    (found : first (select (by_id target.pk) t.users) ≡ some target) where
  -- The table of users after the role change.
  abbrev changed : List User
  changed = update_where (by_id target.pk) (with_staff (is_operator role)) t.users

  -- Of the account itself, and of any other.
  own_staff : (id : ℕ) → (id == target.pk) ≡ true → is_staff_id changed id ≡ is_operator role
  own_staff id own =
      ap (is_staff_id changed) ((nat_beq_iff id target.pk).0 own)
      ∙ staff_own t.users target.pk (is_operator role) target found

  other_staff :
      (id : ℕ) → (id == target.pk) ≡ false → is_staff_id changed id ≡ is_staff_id t.users id
  other_staff id other = staff_other t.users target.pk id (is_operator role) other

  abbrev revoke : ReplicationSlotAccess → ReplicationSlotAccess
  revoke a = record a { can_drop = false; can_terminate = false }

  slots_after :
      (b : Bool)
      → is_operator role ≡ b
      → All (SlotFits t.users) t.slot_access
      → All (SlotFits changed) (
          if b
          then t.slot_access
          else update_where (λ a. a.user_id == target.pk) revoke t.slot_access)
  slots_after true staff h =
      All-imp
        (λ a fits. elim (Bool-cases (a.user_id == target.pk)) [
          | inl own ↦ ground (arith, own_staff a.user_id own, staff)
          | inr other ↦ ground (arith, other_staff a.user_id other, fits)
        ])
        t.slot_access h
  slots_after false plain h =
      All-update_by (SlotFits changed) (λ a. a.user_id == target.pk) revoke t.slot_access
        (All-imp
          (λ a fits. ((λ own. refl), (λ other. ground (arith, other_staff a.user_id other, fits))))
          t.slot_access h)

  pub save_user_role-IsFit : IsFit t → IsFit (save_user_role target role manages t)
  unfolding save_user_role
  save_user_role-IsFit h = record {
    grants = All-update_by (GrantFits changed) (of_user target) (change_role role) t.grants (
        All-imp
          (λ g fits. (
            (λ own. ground (arith, own_staff g.user_id own)),
            (λ other. ground (arith, other_staff g.user_id other, fits)),
          ))
          t.grants h.grants);
    slots = slots_after (is_operator role) refl h.slots;
  }
