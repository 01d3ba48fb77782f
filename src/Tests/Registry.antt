-- ===== src/Tests/Registry.antt =====
-- The registry of instances: the API and the forms.
use healthgrid.Prelude.{true, false, none, some, List, [], ◌∷◌, ◌≡◌, refl}
use healthgrid.Results.{ok}
use healthgrid.Models.Instances.{RdsInstance}
use healthgrid.Mfa.{empty_session}
use healthgrid.Access.{can_manage_instance_notifications, is_scoped}
use healthgrid.Serializers.{ValidatedData, connection_changed, updated, update, may_write_webhook}
use healthgrid.Serializers.Restricted.{SameEndpoint, update-SameEndpoint}
use healthgrid.Serializers.Repointed.{updated_repointed}
use healthgrid.Views.{Request}
use healthgrid.Views.Unchanged.{Same}
use healthgrid.Views.Registry.{State}
use healthgrid.Views.Registry.Credentials.{CredentialForm, update_control_credentials}
use healthgrid.Views.Registry.Instances.{remove_instance, remove_instance_group}
use healthgrid.Views.Registry.Api.{perform_create, perform_destroy}
use healthgrid.Views.Registry.Reachable.{
  Reach, here, next, create, control, AllComplete, Reach-AllComplete,
}
use healthgrid.Views.Registry.Removal.{may_remove, removals_refused}
use healthgrid.Tests.Data.{orders, account}
use healthgrid.Tests.Servers.{crypto, no_grants, request}

abbrev no_data : ValidatedData
no_data = record {
  name = none;
  engine = none;
  db_identifier = none;
  region = none;
  host = none;
  port = none;
  db_name = none;
  username = none;
  password = none;
  lock_control_enabled = none;
  control_username = none;
  control_password = none;
  owner_teams_webhook_url = none;
  exclude_from_global_notifications = none;
  ssl_required = none;
  is_active = none;
}

-- A new name and webhook, by a staff account that may operate every instance.
abbrev renamed : ValidatedData
renamed = record no_data { name = some "sales"; owner_teams_webhook_url = some "https://other" }

abbrev renamed_orders : RdsInstance
renamed_orders = record orders {
  name = "sales";
  owner_teams_webhook_url = "https://other";
  control_username = "";
  control_password_encrypted = "";
}

is_renamed :
    update crypto no_grants (some (account 7 true false)) orders renamed ≡ ok renamed_orders
unfolding update can_manage_instance_notifications is_scoped
is_renamed = refl

update-SameEndpoint_example :
    SameEndpoint (some "https://other") orders renamed_orders
    × (may_write_webhook no_grants (some (account 7 true false)) orders ≡ false
        → renamed_orders.owner_teams_webhook_url ≡ orders.owner_teams_webhook_url)
update-SameEndpoint_example =
    update-SameEndpoint crypto no_grants (some (account 7 true false)) orders renamed_orders renamed
      refl is_renamed

-- An Administrator moves the host, and gives the lock-control role anew.
abbrev moved : ValidatedData
moved = record no_data {
  host = some "new.internal";
  lock_control_enabled = some true;
  control_username = some "killer";
  control_password = some "secret";
}

abbrev moved_orders : RdsInstance
moved_orders = record orders {
  host = "new.internal";
  lock_control_enabled = false;
  control_username = "";
  control_password_encrypted = "secret";
}

is_moved : updated crypto orders moved ≡ ok moved_orders
unfolding updated
is_moved = refl

host_changed : connection_changed orders moved ≡ true
unfolding connection_changed
host_changed = refl

updated_repointed_example :
    (moved_orders.lock_control_enabled ≡ false) × (moved_orders.control_username ≡ "")
updated_repointed_example = updated_repointed crypto orders moved_orders moved host_changed is_moved

abbrev state_with : List RdsInstance → State
state_with rows = record {
  target = record { rows = rows; next_pk = 2 };
  locks = record { rows = []; next_pk = 1 };
  audit_logs = [];
  executions = [];
  next_execution = 1;
  session = empty_session;
  profile = none;
  messages = [];
}

abbrev pub administrator : Request
administrator = record request { user = account 1 true true }

abbrev new_data : ValidatedData
new_data = record no_data {
  name = some "orders";
  host = some "orders.internal";
  password = some "p";
}

abbrev killer_form : CredentialForm
killer_form = record { enabled = true; username = "killer"; password = "secret" }

-- An instance is created by the API, and gets its lock-control role by the form.
abbrev created : State
created = (perform_create crypto no_grants administrator 5 new_data (state_with [])).1

abbrev controlled : State
controlled = (update_control_credentials crypto no_grants administrator 2 killer_form created).1

two_requests : Reach crypto (state_with []) controlled
two_requests =
    next (next here no_grants administrator (create 5 new_data refl)) no_grants administrator
      (control 2 killer_form refl)

Reach-AllComplete_example : AllComplete crypto controlled
Reach-AllComplete_example = Reach-AllComplete crypto (λ p filled. filled) tt two_requests

-- The account is staff, and no Administrator.
no_administrator : may_remove crypto no_grants request (state_with (orders ∷ [])) ≡ false
no_administrator = refl

removals_refused_example :
    Same (remove_instance no_grants request crypto 1) (state_with (orders ∷ []))
    × Same (remove_instance_group no_grants request crypto 1) (state_with (orders ∷ []))
    × Same (perform_destroy crypto no_grants request 1) (state_with (orders ∷ []))
removals_refused_example =
    removals_refused crypto no_grants request (state_with (orders ∷ [])) no_administrator 1 1
