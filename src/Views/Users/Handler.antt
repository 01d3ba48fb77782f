-- ===== src/Views/Users/Handler.antt =====
-- The dispatch of `user_management` on the posted action.
use healthgrid.Prelude.{String, List, given, strip, string_eq, nat_eq, ◌==◌, if◌then◌else◌}
use healthgrid.Results.{permission_denied}
use healthgrid.Effects.{Exec, throw, ◌>>◌}
use healthgrid.Views.{Request, require_administrator}
use healthgrid.Views.Users.{State, UserForm, post_user_role, post_slot_access, post_instance_access}
use healthgrid.Views.Users.NewAccount.{create_user}

-- The parameters are those of `create_user`.
module _ (password_problems : String → List String) (normalize : String → String)
    (q : Request) where
  abbrev pub dispatch : UserForm → String → Exec State (Unit {0})
  dispatch form action =
      if action == "update_user_role"
      then post_user_role form
      else if action == "update_slot_access"
      then post_slot_access q form
      else if action == "update_instance_access"
      then post_instance_access form
      else if action == "create_user"
      then create_user password_problems normalize q form (strip form.username)
          (given form.role "readonly")
      else throw permission_denied

  -- A POST.
  unfoldable pub user_management : UserForm → Exec State (Unit {0})
  unfolding create_user
  user_management form = do
    require_administrator q.user
    dispatch form (given form.action "create_user")
