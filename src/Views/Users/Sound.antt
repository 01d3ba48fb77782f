-- ===== src/Views/Users/Sound.antt =====
-- The invariant of `user_management`: operator grants and slot grants belong to operators.
use healthgrid.Prelude.{ℕ, String, Bool, not, ◌||◌, Option, List, given, string_eq, nat_eq, ◌==◌}
use healthgrid.Prelude.Tables.Rows.{All-update_where}
use healthgrid.Results.{Result, ok, raise, Post, bind-Post, require, permission_denied}
use healthgrid.Effects.{Exec, gets, ◌>>=◌}
use healthgrid.Models.Accounts.{User, AccessTables}
use healthgrid.Models.Instances.{RdsInstance}
use healthgrid.Access.{is_operator}
use healthgrid.Access.Accounts.{
  GrantForm, find_user, save_user_role, role_or_denied, role_of, posted_grants, save_slot_access,
  update_user_role, update_slot_access, update_instance_access,
}
use healthgrid.Access.Fits.{IsFit}
use healthgrid.Access.Fits.Actions.{
  update_user_role-IsFit, update_slot_access-IsFit, update_instance_access-IsFit,
}
use healthgrid.Views.{Request, flash}
use healthgrid.Views.Keeps.{Keeps, Any, Keeps-bind}
use healthgrid.Views.Users.{
  Directory, State, UserForm, save_tables, save_result, get_target, post_user_role,
  post_slot_access, post_instance_access, access_updated, save_access, active_instances,
}
use healthgrid.Views.Users.Created.{AllBelow}

pub record IsSound (d : Directory) : Type 0 where
  pub fit : IsFit d.tables
  pub fresh : AllBelow d.next_user d.tables.users

abbrev UsersBelow : ℕ → AccessTables → Type 0
UsersBelow n t = AllBelow n t.users

module _ (n : ℕ) (t : AccessTables) (h : AllBelow n t.users) where
  update_user_role-below :
      (id : Option ℕ) (role : String) (manages : Bool)
      → Post (UsersBelow n) (update_user_role id role manages t)
  unfolding update_user_role save_user_role
  update_user_role-below id role manages = bind-Post (UsersBelow n) (find_user id t) _ (λ target _.
      bind-Post (UsersBelow n) (require (not target.is_superuser) permission_denied) _ (λ _ _.
        bind-Post (UsersBelow n) (role_or_denied (role_of role)) _ (λ new_role _.
          All-update_where (λ u. u.pk == target.pk)
            (λ u. record u { is_staff = is_operator new_role }) (λ u below. below) t.users h)))

  update_slot_access-below :
      (id : Option ℕ) (drop terminate : Bool)
      → Post (UsersBelow n) (update_slot_access id drop terminate t)
  unfolding update_slot_access save_slot_access
  update_slot_access-below id drop terminate =
      bind-Post (UsersBelow n) (find_user id t) _ (λ target _.
        bind-Post (UsersBelow n)
          (require (not (target.is_superuser || not target.is_staff)) permission_denied) _
          (λ _ _. h))

  update_instance_access-below :
      (id : Option ℕ) (form : GrantForm) (instances : List RdsInstance)
      → Post (UsersBelow n) (update_instance_access id form instances t)
  unfolding update_instance_access
  update_instance_access-below id form instances =
      bind-Post (UsersBelow n) (find_user id t) _ (λ target _.
        bind-Post (UsersBelow n) (require (not target.is_superuser) permission_denied) _ (λ _ _.
          bind-Post (UsersBelow n) (posted_grants target.pk target.is_staff form instances) _
            (λ grants _. h)))

abbrev pub Quiet : Exec State (Unit {0}) → Type 0
Quiet m = Keeps IsSound Any m

-- A transaction on the tables that keeps both parts of the invariant.
save_tables-Quiet :
    (change : AccessTables → Result AccessTables)
    → ((t : AccessTables) → IsFit t → Post IsFit (change t))
    → ((n : ℕ) (t : AccessTables) → AllBelow n t.users → Post (UsersBelow n) (change t))
    → Quiet (save_tables change)
save_tables-Quiet change fits below s h =
    go (change s.target.tables) (fits s.target.tables h.fit)
      (below (s.target).next_user s.target.tables h.fresh)
  where
    go :
        (r : Result AccessTables)
        → Post IsFit r
        → Post (UsersBelow (s.target).next_user) r
        → IsSound (save_result r s).1.target × Post Any (save_result r s).0
    go (raise e) f b = (h, tt)
    go (ok t) f b = (record { fit = f; fresh = b }, tt)

pub then_Quiet :
    {A : Type 0} (m : Exec State A) (f : A → Exec State (Unit {0}))
    → Keeps IsSound Any m
    → ((a : A) → Quiet (f a))
    → Quiet (m >>= f)
then_Quiet m f hm hf = Keeps-bind IsSound Any Any m f hm (λ a _. hf a)

pub Any-Post : {A : Type 0} (r : Result A) → Post Any r
Any-Post (ok a) = tt
Any-Post (raise e) = tt

get_target-Keeps : (form : UserForm) → Keeps IsSound Any (get_target form)
get_target-Keeps form s h = (h, Any-Post (find_user form.user_id s.target.tables))

pub post_user_role-Quiet : (form : UserForm) → Quiet (post_user_role form)
post_user_role-Quiet form = then_Quiet (get_target form) _ (get_target-Keeps form) (λ target.
    then_Quiet (save_tables _) _
      (save_tables-Quiet _
        (λ t h.
          update_user_role-IsFit form.user_id (given form.role "")
            form.can_manage_global_notifications t h)
        (λ n t h.
          update_user_role-below n t h form.user_id (given form.role "")
            form.can_manage_global_notifications))
      (λ _ s h. (h, tt)))

pub post_slot_access-Quiet : (q : Request) (form : UserForm) → Quiet (post_slot_access q form)
post_slot_access-Quiet q form = then_Quiet (get_target form) _ (get_target-Keeps form) (λ target.
    then_Quiet (save_tables _) _
      (save_tables-Quiet _
        (λ t h. update_slot_access-IsFit form.user_id form.can_drop form.can_terminate t h)
        (λ n t h. update_slot_access-below n t h form.user_id form.can_drop form.can_terminate))
      (λ _ s h. (h, tt)))

save_access-Quiet :
    (form : UserForm) (target : User) (instances : List RdsInstance)
    → Quiet (save_access form target instances)
save_access-Quiet form target instances =
    then_Quiet (save_tables (update_instance_access form.user_id form.grants instances))
      (λ _. flash (access_updated target))
      (save_tables-Quiet (update_instance_access form.user_id form.grants instances)
        (λ t h. update_instance_access-IsFit form.user_id form.grants instances t h)
        (λ n t h. update_instance_access-below n t h form.user_id form.grants instances))
      (λ _ s h. (h, tt))

pub post_instance_access-Quiet : (form : UserForm) → Quiet (post_instance_access form)
post_instance_access-Quiet form =
    then_Quiet (get_target form) (λ target. gets active_instances >>= save_access form target)
      (get_target-Keeps form)
      (λ target.
        then_Quiet (gets active_instances) (save_access form target) (λ s h. (h, tt))
          (save_access-Quiet form target))
