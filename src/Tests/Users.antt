-- ===== src/Tests/Users.antt =====
-- The user management: an operator is created, and made read-only.
use healthgrid.Prelude.{true, false, none, some, [], ◌∷◌, ◌≡◌, refl, arith, string_eq}
use healthgrid.Access.Accounts.{GrantForm, save_user_role, update_user_role}
use healthgrid.Models.Accounts.{User}
use healthgrid.Access.{first}
use healthgrid.Access.Fits.{by_id}
use healthgrid.Prelude.Tables.{select}
use healthgrid.Mfa.{empty_session}
use healthgrid.Access.Accounts.{save_slot_access, posted_role}
use healthgrid.Access.Demotion.{MayNothing}
use healthgrid.Views.Users.{State, UserForm, slot_entry}
use healthgrid.Views.Users.NewAccount.{grant_specs, add_spec, with_user, insert_user, create_user}
use healthgrid.Views.Users.Handler.{user_management}
use healthgrid.Views.Users.Sound.{IsSound}
use healthgrid.Views.Users.Reachable.{Reach, here, next, Reach-IsSound, Reach-MayNothing}
use healthgrid.Tests.Data.{orders, account}
use healthgrid.Tests.Registry.{administrator}

abbrev before : State
before = record {
  target = record {
    tables = record {
      users = account 1 true true ∷ [];
      grants = [];
      scopes = [];
      slot_access = [];
      query_grants = [];
    };
    next_user = 2;
    instances = orders ∷ [];
  };
  locks = record { rows = []; next_pk = 1 };
  audit_logs = [];
  executions = [];
  next_execution = 1;
  session = empty_session;
  profile = none;
  messages = [];
}

abbrev operates : GrantForm
operates = record {
  all_instance_role = "operator";
  instance_role_of = λ _. "";
  instance_notifications = λ _. true;
}

-- An operator with a slot grant, on every instance.
abbrev creation : UserForm
creation = record {
  action = none;
  user_id = none;
  role = some "operator";
  can_drop = true;
  can_terminate = false;
  can_manage_global_notifications = false;
  grants = operates;
  username = " ann ";
  password = "long enough";
  new_grants = operates;
  new_can_manage_global_notifications = true;
}

abbrev demotion : UserForm
demotion = record creation {
  action = some "update_user_role";
  user_id = some 2;
  role = some "readonly";
}

abbrev created : State
created = (user_management (λ _. []) (λ s. s) administrator creation before).1

abbrev demoted : State
demoted = (user_management (λ _. []) (λ s. s) administrator demotion created).1

before-IsSound : IsSound (before.target)
before-IsSound = record { fit = record { grants = tt; slots = tt }; fresh = (omega arith, tt) }

two_posts : Reach (λ _. []) (λ s. s) before demoted
two_posts = next (next here administrator creation refl) administrator demotion refl

Reach-IsSound_example : IsSound (demoted.target)
Reach-IsSound_example = Reach-IsSound (λ _. []) (λ s. s) before-IsSound two_posts

-- The account after both posts.
abbrev ann : User
ann = record {
  pk = 2;
  username = "ann";
  is_authenticated = true;
  is_active = true;
  is_staff = false;
  is_superuser = false;
}

abbrev new_ann : User
new_ann = record ann { is_staff = true }

ann_found : first (select (by_id 2) ((demoted.target).tables).users) ≡ some ann
unfolding user_management create_user insert_user with_user save_slot_access update_user_role
    save_user_role grant_specs add_spec posted_role
ann_found = refl

ann_logged : created.audit_logs ≡ slot_entry administrator new_ann true false ∷ []
unfolding user_management create_user insert_user grant_specs add_spec posted_role
ann_logged = refl

Reach-MayNothing_example : MayNothing ((demoted.target).tables) ann
Reach-MayNothing_example =
    Reach-MayNothing (λ _. []) (λ s. s) ann before-IsSound two_posts ann_found refl
