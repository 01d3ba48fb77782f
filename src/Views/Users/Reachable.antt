-- ===== src/Views/Users/Reachable.antt =====
-- The accounts and grants that posts to `user_management` can build up.
use mathlib.Core.Path.{subst}
use healthgrid.Prelude.Tables.{select}
use healthgrid.Access.{first}
use healthgrid.Access.Demotion.{MayNothing}
use healthgrid.Access.Fits.{by_id}
use healthgrid.Access.Fits.ReadOnly.{IsFit-MayNothing}
use healthgrid.Prelude.{
  String, false, ◌&&◌, ◌||◌, some, List, given, strip, string_eq, nat_eq, ◌==◌, ◌≡◌, sym,
}
use healthgrid.Results.{permission_denied}
use healthgrid.Models.Accounts.{User}
use healthgrid.Views.{Request}
use healthgrid.Views.Keeps.{Any, Keeps-if, Keeps-guard}
use healthgrid.Views.Users.{State, UserForm}
use healthgrid.Views.Users.Handler.{dispatch, user_management}
use healthgrid.Views.Users.Sound.{
  IsSound, Quiet, post_user_role-Quiet, post_slot_access-Quiet, post_instance_access-Quiet,
}
use healthgrid.Views.Users.Creation.{create_user-Quiet}

module _ (password_problems : String → List String) (normalize : String → String) where
  dispatch-Quiet :
      (q : Request) (form : UserForm) (action : String)
      → Quiet (dispatch password_problems normalize q form action)
  dispatch-Quiet q form action =
      Keeps-if IsSound Any (action == "update_user_role") _ _ (λ _. post_user_role-Quiet form)
        (λ _.
          Keeps-if IsSound Any (action == "update_slot_access") _ _
            (λ _. post_slot_access-Quiet q form)
            (λ _.
              Keeps-if IsSound Any (action == "update_instance_access") _ _
                (λ _. post_instance_access-Quiet form)
                (λ _.
                  Keeps-if IsSound Any (action == "create_user") _ _
                    (λ _.
                      create_user-Quiet password_problems normalize q form (strip form.username)
                        (given form.role "readonly"))
                    (λ _ s h. (h, tt)))))

  user_management-Quiet :
      (q : Request) (form : UserForm) → Quiet (user_management password_problems normalize q form)
  unfolding user_management
  user_management-Quiet q form =
      Keeps-guard IsSound Any (q.user.is_active && (q.user.is_staff && q.user.is_superuser))
        permission_denied
        (dispatch password_problems normalize q form (given form.action "create_user"))
        (dispatch-Quiet q form (given form.action "create_user"))

  -- Any number of posts, each by its own account.
  pub data Reach (s : State) : State → Type 0 where
    here : Reach s s
    next :
        {u v : State}
        → Reach s u
        → (q : Request) (form : UserForm)
        → v ≡ (user_management password_problems normalize q form u).1
        → Reach s v

  -- From accounts and grants that are sound, such as a first Administrator's, no sequence of posts to
  -- the user management, by whatever accounts, leads to an operator grant or a slot grant of an
  -- account that is no operator, or to an account that has the key of the next one.
  pub Reach-IsSound : {s u : State} → IsSound s.target → Reach s u → IsSound u.target
  Reach-IsSound h here = h
  Reach-IsSound h (next {u} {v} r q form e) =
      subst (λ w. IsSound w.target) (sym e) (user_management-Quiet q form u (Reach-IsSound h r)).0

  -- After any such sequence, an account of the table that is neither an operator nor an
  -- Administrator may operate no instance, manage no notifications and touch no replication slot.
  pub Reach-MayNothing :
      {s u : State} (a : User)
      → IsSound s.target
      → Reach s u
      → first (select (by_id a.pk) u.target.tables.users) ≡ some a
      → (a.is_staff || a.is_superuser) ≡ false
      → MayNothing u.target.tables a
  Reach-MayNothing {s} {u} a h r found plain =
      IsFit-MayNothing u.target.tables a (Reach-IsSound h r).fit found plain
