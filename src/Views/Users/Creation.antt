-- ===== src/Views/Users/Creation.antt =====
-- `create_user` keeps the invariant of `user_management`.
use healthgrid.Prelude.{
  ◌+◌, String, Bool, true, false, not, ◌&&◌, ◌||◌, Option, none, some, List, [], ◌∷◌, any, is_blank,
  is_some, string_eq, nat_eq, ◌==◌, ◌≡◌, refl, if◌then◌else◌,
}
use healthgrid.Results.{integrity_error}
use healthgrid.Effects.{Exec, pure, modify, guard, ◌>>◌}
use healthgrid.Models.Accounts.{User, UserInstanceAccess}
use healthgrid.Access.Accounts.{role_of}
use healthgrid.Views.{Flash, Request, flash, log_audit}
use healthgrid.Views.Keeps.{Any, Keeps-if}
use healthgrid.Views.Users.{State, UserForm, slot_entry, active_instances}
use healthgrid.Views.Users.NewAccount.{
  grant_specs, new_user, with_user, insert_user, insert_if, create_valid, create_named, create_user,
}
use healthgrid.Views.Users.Created.{with_user-IsFit, with_user-AllBelow}
use healthgrid.Views.Users.Sound.{IsSound, Quiet, then_Quiet, Any-Post}

module _ (password_problems : String → List String) (normalize : String → String)
    (q : Request) where
  insert_user-Sound :
      (form : UserForm) (username role : String) (b : Bool) (specs : List UserInstanceAccess)
      (s : State)
      → grant_specs (s.target).next_user b form.new_grants (active_instances s) ≡ some specs
      → IsSound s.target
      → IsSound (insert_user password_problems normalize q form username role b specs s).1.target
  unfolding insert_user
  insert_user-Sound form username role b specs s read h =
      go (not (any (λ u. u.username == normalize username) s.target.tables.users)) _
    where
      user : User
      user = new_user (s.target).next_user (normalize username) b

      insert : Exec State (Unit {0})
      insert = modify (λ s. record s {
        target = record (s.target) {
          tables = with_user form user specs (s.target).tables;
          next_user = (s.target).next_user + 1;
        };
      })

      log : Exec State (Unit {0})
      log =
          if b && (form.can_drop || form.can_terminate)
          then log_audit (slot_entry q user form.can_drop form.can_terminate)
          else pure tt

      log-Quiet : Quiet log
      log-Quiet =
          Keeps-if IsSound Any (b && (form.can_drop || form.can_terminate)) _ _ (λ _ s h. (h, tt))
            (λ _ s h. (h, tt))

      after : IsSound (insert s).1.target
      after = record {
        fit =
            with_user-IsFit form user s.target.tables h.fresh (active_instances s) specs read h.fit;
        fresh = with_user-AllBelow form user s.target.tables h.fresh specs;
      }

      go :
          (fine : Bool) (m : Flash)
          → IsSound ((guard fine integrity_error >> (insert >> (log >> flash m))) s).1.target
      go false m = h
      go true m = (then_Quiet log _ log-Quiet (λ _ s h. (h, tt)) (insert s).1 after).0

  insert_if-Sound :
      (form : UserForm) (username role : String) (b : Bool) (s : State)
      → IsSound s.target
      → (specs : Option (List UserInstanceAccess))
      → grant_specs (s.target).next_user b form.new_grants (active_instances s) ≡ specs
      → IsSound (insert_if password_problems normalize q form username role b specs s).1.target
  insert_if-Sound form username role b s h none read = h
  insert_if-Sound form username role b s h (some specs) read =
      insert_user-Sound form username role b specs s read h

  create_valid-Sound :
      (form : UserForm) (username role : String) (problems : List String) (s : State)
      → IsSound s.target
      → IsSound (create_valid password_problems normalize q form username role problems s).1.target
  create_valid-Sound form username role [] s h =
      insert_if-Sound form username role (role == "operator") s h _ refl
  create_valid-Sound form username role (p ∷ ps) s h = h

  create_named-Quiet :
      (form : UserForm) (username role : String)
      → Quiet (create_named password_problems normalize q form username role)
  create_named-Quiet form username role s h =
      Keeps-if IsSound Any (any (λ u. u.username == username) s.target.tables.users) _ _
        (λ _ s h. (h, tt))
        (λ _ s h. (
          create_valid-Sound form username role (password_problems form.password) s h,
          Any-Post
              (create_valid password_problems normalize q form username role
                (password_problems form.password) s).0,
        ))
        s h

  pub create_user-Quiet :
      (form : UserForm) (username role : String)
      → Quiet (create_user password_problems normalize q form username role)
  unfolding create_user
  create_user-Quiet form username role =
      Keeps-if IsSound Any
        (is_blank username || (is_blank form.password || not (is_some (role_of role)))) _ _
        (λ _ s h. (h, tt))
        (λ _.
          Keeps-if IsSound Any (not (role == "operator") && (form.can_drop || form.can_terminate)) _
            _ (λ _ s h. (h, tt)) (λ _. create_named-Quiet form username role))
