-- ===== src/Tests/Grants.antt =====
-- Query-runner access: an Administrator grants it on one instance.
use healthgrid.Prelude.{true, false, none, [], ◌∷◌, ◌≡◌, refl, string_eq}
use healthgrid.Models.Accounts.{AccessTables}
use healthgrid.Mfa.{empty_session}
use healthgrid.Access.{can_run_queries, can_view_instance, can_operate_instance, instance_role}
use healthgrid.Views.Grants.{State, QueryGrantForm, with_grant, grant_access, query_runner_grant}
use healthgrid.Views.Grants.Scope.{query_runner_grant_others}
use healthgrid.Models.Instances.{RdsInstance}
use healthgrid.Tests.Data.{orders, account}
use healthgrid.Tests.Registry.{administrator}

abbrev billing : RdsInstance
billing = record orders { pk = 2; name = "billing" }

abbrev tables : AccessTables
tables = record {
  users = account 7 true false ∷ [];
  grants = [];
  scopes = [];
  slot_access = [];
  query_grants = [];
}

abbrev before : State
before = record {
  target = record { tables = tables; next_grant = 1; instances = orders ∷ billing ∷ [] };
  locks = record { rows = []; next_pk = 1 };
  audit_logs = [];
  executions = [];
  next_execution = 1;
  session = empty_session;
  profile = none;
  messages = [];
}

abbrev form : QueryGrantForm
form = record { action = none; grant_id = none; username = "ada" }

abbrev after : State
after = (query_runner_grant administrator 1 form before).1

query_runner_grant_others_example :
    can_run_queries ((after.target).tables) (account 7 true false) billing
    ≡ can_run_queries tables (account 7 true false) billing
query_runner_grant_others_example =
    query_runner_grant_others administrator 1 form (account 7 true false) billing before refl

-- On the instance itself the account may now run queries.
granted : can_run_queries ((after.target).tables) (account 7 true false) orders ≡ true
unfolding can_run_queries query_runner_grant grant_access with_grant can_view_instance
    can_operate_instance instance_role
granted = refl
