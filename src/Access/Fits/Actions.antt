-- ===== src/Access/Fits/Actions.antt =====
-- The three actions on an account keep operator grants with operators.
use mathlib.Core.Path.{subst}
use healthgrid.Prelude.{
  ℕ, String, Bool, true, false, not, ◌||◌, Option, none, some, List, [], ◌∷◌, ◌++◌, All, any,
  nat_eq, ◌==◌, ◌≡◌, refl, sym, arith, if◌then◌else◌,
}
use healthgrid.Prelude.Tables.{select, update_where, delete_where, All-append}
use healthgrid.Prelude.Tables.Rows.{All-select, All-update_by, All-imp}
use healthgrid.Results.{Result, ok, raise, permission_denied, ◌>>=◌, require, Post, bind-Post}
use healthgrid.Models.Accounts.{
  User, Role, readonly, operator, UserInstanceAccess, ReplicationSlotAccess, AccessTables,
}
use healthgrid.Models.Instances.{RdsInstance}
use healthgrid.Access.{first, of_user}
use healthgrid.Access.Accounts.{
  GrantForm, find_user, role_or_denied, role_of, update_user_role, save_slot_access,
  update_slot_access, posted_role, role_fits, add_grant, posted_grants, update_instance_access,
}
use healthgrid.Access.Fits.{
  is_staff_id, GrantFits, SlotFits, IsFit, by_id, is_staff-found, pk-found, find_user-found,
  save_user_role-IsFit,
}

-- The row that `find_user` gives is the first of its own key.
pub find_user-first :
    (user_id : Option ℕ) (t : AccessTables) (target : User)
    → find_user user_id t ≡ ok target
    → first (select (by_id target.pk) t.users) ≡ some target
find_user-first none t target e = cc
find_user-first (some id) t target e =
    subst (λ k. first (select (by_id k) t.users) ≡ some target)
      (sym (pk-found t.users id target (find_user-found id t target e)))
      (find_user-found id t target e)

pub update_user_role-IsFit :
    (user_id : Option ℕ) (role : String) (manages : Bool) (t : AccessTables)
    → IsFit t
    → Post IsFit (update_user_role user_id role manages t)
unfolding update_user_role
update_user_role-IsFit user_id role manages t h =
    bind-Post IsFit (find_user user_id t) _ (λ target found.
      bind-Post IsFit (require (not target.is_superuser) permission_denied) _ (λ _ _.
        bind-Post IsFit (role_or_denied (role_of role)) _ (λ new_role _.
          save_user_role-IsFit target new_role manages t (find_user-first user_id t target found)
            h)))

pub save_slot_access-IsFit :
    (id : ℕ) (drop terminate : Bool) (t : AccessTables)
    → (not (drop || terminate) || is_staff_id t.users id) ≡ true
    → IsFit t
    → IsFit (save_slot_access id drop terminate t)
unfolding save_slot_access
save_slot_access-IsFit id drop terminate t fits h = record {
  grants = h.grants;
  slots = slots_after (any (λ a. a.user_id == id) t.slot_access);
}
  where
    new : ReplicationSlotAccess → ReplicationSlotAccess
    new a = record a { can_drop = drop; can_terminate = terminate }

    slots_after :
        (b : Bool)
        → All (SlotFits t.users) (
            if b
            then update_where (λ a. a.user_id == id) new t.slot_access
            else t.slot_access
              ++ record { user_id = id; can_drop = drop; can_terminate = terminate } ∷ [])
    slots_after true =
        All-update_by (SlotFits t.users) (λ a. a.user_id == id) new t.slot_access
          (All-imp (λ a old. ((λ own. ground (arith, own, fits)), (λ _. old))) t.slot_access
            h.slots)
    slots_after false = All-append (SlotFits t.users) t.slot_access _ h.slots (fits, tt)

pub update_slot_access-IsFit :
    (user_id : Option ℕ) (drop terminate : Bool) (t : AccessTables)
    → IsFit t
    → Post IsFit (update_slot_access user_id drop terminate t)
unfolding update_slot_access
update_slot_access-IsFit user_id drop terminate t h =
    bind-Post IsFit (find_user user_id t) _ (λ target found.
      bind-Post IsFit (require (not (target.is_superuser || not target.is_staff)) permission_denied)
        _
        (λ _ passed.
          save_slot_access-IsFit target.pk drop terminate t
            (ground (
              arith,
              passed,
              is_staff-found t.users target.pk target (find_user-first user_id t target found),
            ))
            h))

module _ (users : List User) (id : ℕ) (form : GrantForm) where
  add_grant-fits :
      (b : Bool) (pk : ℕ) (role : Option Role) (rest : Result (List UserInstanceAccess))
      → is_staff_id users id ≡ b
      → Post (All (GrantFits users)) rest
      → Post (All (GrantFits users)) (
          require (role_fits b role) permission_denied
          >>= (λ _. rest >>= add_grant id b form pk role))
  unfolding add_grant
  add_grant-fits b pk none (ok gs) staff h = h
  add_grant-fits b pk none (raise e) staff h = tt
  add_grant-fits b pk (some readonly) (ok gs) staff h = (refl, h)
  add_grant-fits b pk (some readonly) (raise e) staff h = tt
  add_grant-fits true pk (some operator) (ok gs) staff h = (staff, h)
  add_grant-fits true pk (some operator) (raise e) staff h = tt
  add_grant-fits false pk (some operator) rest staff h = tt

  posted_grants-fit :
      (b : Bool) (rs : List RdsInstance)
      → is_staff_id users id ≡ b
      → Post (All (GrantFits users)) (posted_grants id b form rs)
  unfolding posted_grants
  posted_grants-fit b [] staff = tt
  posted_grants-fit b (r ∷ rs) staff =
      add_grant-fits b r.pk (posted_role form r.pk) (posted_grants id b form rs) staff
        (posted_grants-fit b rs staff)

pub update_instance_access-IsFit :
    (user_id : Option ℕ) (form : GrantForm) (instances : List RdsInstance) (t : AccessTables)
    → IsFit t
    → Post IsFit (update_instance_access user_id form instances t)
unfolding update_instance_access
update_instance_access-IsFit user_id form instances t h =
    bind-Post IsFit (find_user user_id t) _ (λ target found.
      bind-Post IsFit (require (not target.is_superuser) permission_denied) _ (λ _ _.
        bind-Post IsFit (posted_grants target.pk target.is_staff form instances) _ (λ grants posted.
          record {
            grants =
                All-append (GrantFits t.users) (delete_where (of_user target) t.grants) grants
                  (kept (of_user target) t.grants h.grants)
                  (subst (Post (All (GrantFits t.users))) posted (
                    posted_grants-fit t.users target.pk form target.is_staff instances (
                      is_staff-found t.users target.pk target
                        (find_user-first user_id t target found))));
            slots = h.slots;
          })))
  where
    kept :
        (p : UserInstanceAccess → Bool) (gs : List UserInstanceAccess)
        → All (GrantFits t.users) gs
        → All (GrantFits t.users) (delete_where p gs)
    kept p gs = All-select (GrantFits t.users) (λ g. not (p g)) gs
