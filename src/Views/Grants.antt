-- ===== src/Views/Grants.antt =====
-- `query_runner_grant` of monitor/views.py: who may run queries on an instance.
pub mod Scope
use healthgrid.Prelude.{
  ℕ, ◌+◌, String, Bool, true, false, not, ◌&&◌, Option, none, some, List, [], ◌∷◌, ◌++◌, ◌<>◌, any,
  given, strip, is_blank, nat_eq, string_eq, ◌==◌, if◌then◌else◌,
}
use healthgrid.Prelude.Tables.{select, delete_where}
use healthgrid.Results.{not_found}
use healthgrid.Effects.{Exec, pure, gets, modify, or_raise, ◌>>=◌, ◌>>◌}
use healthgrid.Models.Accounts.{User, QueryRunnerGrant, AccessTables}
use healthgrid.Models.Instances.{RdsInstance}
use healthgrid.Access.{first}
use healthgrid.Views.{
  Flash, ViewState, Request, flash, require_administrator, require_instance_access,
}

-- The accounts and grants, the key of the next grant, and the instances.
pub record GrantTables : Type 0 where
  pub tables : AccessTables
  pub next_grant : ℕ
  pub instances : List RdsInstance

abbrev pub State : Type 0
State = ViewState GrantTables

-- `grant_id` is none where it is no number.
pub record QueryGrantForm : Type 0 where
  pub action : Option String
  pub grant_id : Option ℕ
  pub username : String

abbrev pub set_grants : (List QueryRunnerGrant → List QueryRunnerGrant) → GrantTables → GrantTables
set_grants change d = record d {
  tables = record (d.tables) { query_grants = change d.tables.query_grants };
}

abbrev pub is_grant_of : ℕ → ℕ → QueryRunnerGrant → Bool
is_grant_of user_id instance_id g = g.user_id == user_id && g.instance_id == instance_id

-- `get_or_create(user=target, instance=instance, defaults=…)`
abbrev pub with_new_grant : ℕ → ℕ → ℕ → GrantTables → GrantTables
with_new_grant user_id instance_id granted_by d = record d {
  tables = record (d.tables) {
    query_grants =
        d.tables.query_grants
        ++ record {
          pk = d.next_grant;
          user_id = user_id;
          instance_id = instance_id;
          granted_by = some granted_by;
        }
          ∷ [];
  };
  next_grant = d.next_grant + 1;
}

unfoldable pub with_grant : ℕ → ℕ → ℕ → GrantTables → GrantTables
with_grant user_id instance_id granted_by d =
    if any (is_grant_of user_id instance_id) d.tables.query_grants
    then d
    else with_new_grant user_id instance_id granted_by d

-- The action `revoke`.
unfoldable pub revoke_grant : RdsInstance → Option ℕ → Exec State (Unit {0})
revoke_grant r none = flash (Flash.error "A valid grant is required.")
revoke_grant r (some id) = do
  deleted ←
      gets (λ s. any (λ g. g.pk == id && g.instance_id == r.pk) ((s.target).tables).query_grants)
  modify (λ s. record s {
    target = set_grants (delete_where (λ g. g.pk == id && g.instance_id == r.pk)) s.target;
  })
  (if deleted then flash (Flash.success "Query-runner access revoked.") else pure tt)

abbrev pub granted_message : User → RdsInstance → String
granted_message target r =
    "Granted '" <> (target.username <> ("' query-runner access on " <> (r.name <> ".")))

abbrev pub give_grant : Request → RdsInstance → User → Exec State (Unit {0})
give_grant q r target = do
  modify (λ s. record s { target = with_grant target.pk r.pk q.user.pk s.target })
  flash (Flash.success (granted_message target r))

abbrev pub give_to : Request → RdsInstance → String → Option User → Exec State (Unit {0})
give_to q r username none = flash (Flash.error ("No user named '" <> (username <> "'.")))
give_to q r username (some target) =
    if target.is_superuser
    then flash (Flash.error "Administrators already have query-runner access.")
    else give_grant q r target

abbrev pub give_named : Request → RdsInstance → String → Exec State (Unit {0})
give_named q r username = do
  found ← gets (λ s. first (select (λ u. u.username == username) ((s.target).tables).users))
  give_to q r username found

-- The action `grant`, and any other.
unfoldable pub grant_access : Request → RdsInstance → String → Exec State (Unit {0})
unfolding with_grant
grant_access q r username =
    if is_blank username
    then flash (Flash.error "Enter a username to grant query-runner access.")
    else give_named q r username

abbrev pub change_grants : Request → QueryGrantForm → RdsInstance → Exec State (Unit {0})
change_grants q form r =
    if given form.action "grant" == "revoke"
    then revoke_grant r form.grant_id
    else grant_access q r (strip form.username)

abbrev pub on_instance : Request → QueryGrantForm → RdsInstance → Exec State (Unit {0})
on_instance q form r = do
  t ← gets (λ s. (s.target).tables)
  require_instance_access t q.user r true
  change_grants q form r

unfoldable pub query_runner_grant : Request → ℕ → QueryGrantForm → Exec State (Unit {0})
unfolding revoke_grant grant_access strip
query_runner_grant q pk form = do
  require_administrator q.user
  found ← gets (λ s. first (select (λ r. r.pk == pk) (s.target).instances))
  r ← or_raise found not_found
  on_instance q form r
