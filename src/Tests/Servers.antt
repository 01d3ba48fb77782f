-- ===== src/Tests/Servers.antt =====
-- Monitored servers: kills and the query runner.
use healthgrid.Prelude.{
  ℕ, ◌+◌, String, true, false, none, some, [], ◌∷◌, ◌≡◌, refl, All, ◌||◌, ◌⊎◌, nat_eq, ◌==◌,
  if◌then◌else◌,
}
use healthgrid.Results.{Result, ok, raise, ◌>>=◌, database_error, key_error, columns_without_names}
use healthgrid.Models.Accounts.{AccessTables}
use healthgrid.Models.Instances.{mysql, is_mysql, is_mssql}
use healthgrid.Mfa.{MfaLibrary, new_profile, empty_session}
use healthgrid.Access.{
  can_view_instance, can_operate_instance, can_run_queries, instance_role, is_scoped,
}
use healthgrid.Db.Connections.{
  Connection, Network, get_connection, mysql_connection, postgres_connection,
}
use healthgrid.Db.Queries.{
  Statements, ServerData, prepared, preview_write_query, commit_write_query,
}
use healthgrid.Db.Previews.{preview_write_query-unchanged, preview_write_query-changes}
use healthgrid.Db.Kills.{Server, kill_pid, kill_pids}
use healthgrid.Db.Kills.Guarded.{MayKill, kill_pids-MayKill, kill_pid-never}
use healthgrid.Views.{ViewState, Request, check_mfa, require_action_mfa}
use healthgrid.Views.Runner.{Slices, commit_query}
use healthgrid.Views.Runner.Once.{commit_query-once}
use healthgrid.Models.Audit.{pending}
use healthgrid.Views.Killing.{Upstream, current_lock_pids, kill_session_impl, kill_chain_impl}
use healthgrid.Views.Killing.Chains.{may_kill_chain, kill_chain_impl-refused}
use healthgrid.Views.Killing.Sessions.{may_kill_session, kill_session_impl-refused}
use healthgrid.Tests.Data.{instance_on, orders, blocking_row, account}

abbrev pub crypto : MfaLibrary
crypto = record {
  totp_verify = λ secret code now. true;
  encrypt = λ s. s;
  decrypt = λ s. s;
  make_password = λ s. s;
  check_password = λ s hashed. false;
  compact = λ s. s;
  upper = λ s. s;
  is_six_digits = λ s. true;
  strip = λ s. s;
  join_lines = λ lines. "";
  split_lines = λ s. [];
}

abbrev pub net : Network
net = record { ssl_mode = "verify-full"; ssl_root_cert = "/ca.pem"; connect = λ c. ok tt }

-- The data is a number, and each statement adds to it and takes a value of a sequence.
abbrev run : String → ℕ → ℕ → Result (ℕ × ℕ) × ℕ
run statement d n = (ok (1, d + 1), n + 1)

abbrev statements : Statements
statements = record { strip = λ s. s; is_write_statement = λ s. true }

abbrev data_at : ℕ → ℕ → ServerData ℕ ℕ
data_at d n = record { committed = d; working = d; sequences = n }

is_postgresql : is_mysql orders ≡ false
unfolding is_mysql
is_postgresql = refl

is_no_mssql : is_mssql orders ≡ false
unfolding is_mssql
is_no_mssql = refl

is_other : (is_mysql (instance_on mysql) || is_mssql (instance_on mysql)) ≡ true
unfolding is_mysql is_mssql
is_other = refl

preview_write_query-unchanged_example :
    (preview_write_query run statements crypto net orders "UPDATE t SET a = 1;"
      (data_at 5 1)).1.committed
    ≡ 5
preview_write_query-unchanged_example =
    preview_write_query-unchanged run statements crypto net orders "UPDATE t SET a = 1;"
      (data_at 5 1) is_postgresql is_no_mssql

abbrev mysql_writer : Connection
mysql_writer = mysql_connection net (instance_on mysql) "writer" "w" "healthgrid-query-runner"

is_prepared :
    prepared run statements crypto net (instance_on mysql) "UPDATE t SET a = 1;"
    ≡ ok ("UPDATE t SET a = 1", mysql_writer)
unfolding prepared is_mysql
is_prepared = refl

preview_write_query-changes_example :
    preview_write_query run statements crypto net
      (instance_on mysql)
      "UPDATE t SET a = 1;"
      (data_at 5 1)
    ≡ (ok ("UPDATE t SET a = 1", 1), data_at 6 2)
preview_write_query-changes_example =
    preview_write_query-changes run statements crypto net (instance_on mysql) "UPDATE t SET a = 1;"
      "UPDATE t SET a = 1" mysql_writer 1 6 2 (data_at 5 1) is_other is_prepared refl

-- Pid 30 is of another database of the server, and pid 40 is one that may not be signalled.
abbrev server : Server
server = record {
  runs = λ pid. ok tt;
  terminate_backend = λ pid. if pid == 40 then raise database_error else ok true;
  sessions =
      record { pid = 10; database = "orders" }
      ∷ record { pid = 20; database = "orders" }
      ∷ record { pid = 30; database = "billing" }
      ∷ record { pid = 40; database = "orders" }
      ∷ [];
  slot_pids = 20 ∷ [];
  terminated = [];
}

abbrev control : Connection
control = postgres_connection net orders "monitor" "p" "healthgrid-control"

is_controlled : get_connection crypto net orders ≡ ok control
unfolding get_connection is_mysql is_mssql
is_controlled = refl

kill_pids-MayKill_example :
    All
      (MayKill orders.db_name false server)
      (kill_pids orders control false (10 ∷ 20 ∷ 30 ∷ 40 ∷ 10 ∷ []) server).1.terminated
kill_pids-MayKill_example =
    kill_pids-MayKill crypto net orders control false (10 ∷ 20 ∷ 30 ∷ 40 ∷ 10 ∷ []) server
      is_postgresql is_no_mssql is_controlled refl

-- One pid is terminated before the error of pid 40.
kills_one :
    ((kill_pids orders control false (10 ∷ 20 ∷ 30 ∷ 40 ∷ 10 ∷ []) server).0 ≡ raise database_error)
    × ((kill_pids orders control false (10 ∷ 20 ∷ 30 ∷ 40 ∷ 10 ∷ []) server).1.terminated ≡ 10 ∷ [])
unfolding kill_pids is_mysql is_mssql
kills_one = (refl, refl)

abbrev mysql_control : Connection
mysql_control = mysql_connection net (instance_on mysql) "monitor" "p" "healthgrid-control"

is_connected : get_connection crypto net (instance_on mysql) ≡ ok mysql_control
unfolding get_connection is_mysql
is_connected = refl

kill_pid-never_example :
    (kill_pid (instance_on mysql) mysql_control true 10 server ≡ (
      server.runs 10 >>= (λ _.
          raise (if is_mysql (instance_on mysql) then key_error else columns_without_names)),
      server,
    ))
    × ((kill_pids (instance_on mysql) mysql_control true (10 ∷ 20 ∷ []) server).1 ≡ server)
kill_pid-never_example =
    kill_pid-never crypto net (instance_on mysql) mysql_control true 10 (10 ∷ 20 ∷ []) server
      is_other is_connected

-- No grants, so a staff account operates every instance; its second factor is not set up.
abbrev pub no_grants : AccessTables
no_grants = record { users = []; grants = []; scopes = []; slot_access = []; query_grants = [] }

abbrev pub request : Request
request = record { user = account 7 true false; now = 0; mfa_code = "123456" }

abbrev upstream : Upstream
upstream = record { fetched = ok ([], blocking_row 10 20 ∷ []); connection = ok control }

abbrev view_state : ViewState Server
view_state = record {
  target = server;
  locks = record { rows = []; next_pk = 1 };
  audit_logs = [];
  executions = [];
  next_execution = 1;
  session = empty_session;
  profile = none;
  messages = [];
}

is_refused :
    may_kill_chain crypto no_grants request upstream orders (10 ∷ []) true true view_state ≡ false
unfolding can_view_instance can_operate_instance check_mfa instance_role is_scoped
is_refused = refl

kill_chain_impl-refused_example :
    (kill_chain_impl crypto no_grants request upstream
      (some orders)
      (some (10 ∷ []))
      ""
      true
      true
      true
      view_state).1.target
    ≡ server
kill_chain_impl-refused_example =
    kill_chain_impl-refused crypto no_grants request upstream orders (10 ∷ []) "" true true true
      view_state is_refused

session_is_refused :
    may_kill_session crypto no_grants request upstream orders 30 true view_state ≡ false
unfolding can_view_instance can_operate_instance instance_role is_scoped current_lock_pids
session_is_refused = refl

-- The account may operate the instance, but pid 30 is in no lock.
kill_session_impl-refused_example :
    (kill_session_impl crypto no_grants request upstream
      (some orders)
      (some 30)
      ""
      true
      view_state).1.target
    ≡ server
kill_session_impl-refused_example =
    kill_session_impl-refused crypto no_grants request upstream orders 30 "" true view_state
      session_is_refused

-- A preview of the account that waits for its commit, in a session with a second factor.
abbrev runner_grants : AccessTables
runner_grants = record no_grants {
  query_grants = record { pk = 1; user_id = 7; instance_id = 1; granted_by = none } ∷ [];
}

abbrev runner_state : ViewState (ServerData ℕ ℕ)
runner_state = record {
  target = data_at 5 1;
  locks = record { rows = []; next_pk = 1 };
  audit_logs = [];
  executions =
      record {
        pk = 1;
        instance_id = 1;
        user_id = some 7;
        sql = "UPDATE t SET a = 1";
        status = pending;
        rows_affected = none;
        error = "";
        resolved_at = none;
      }
      ∷ [];
  next_execution = 2;
  session = empty_session;
  profile = some (record (new_profile 7) { enabled = true; secret_encrypted = "s" });
  messages = [];
}

abbrev slices : Slices
slices = record { first_chars = λ n s. s }

abbrev commit_one : ViewState (ServerData ℕ ℕ) → ViewState (ServerData ℕ ℕ)
commit_one s =
    (commit_query run statements crypto net slices runner_grants request (some orders) 1 s).1

-- The first commit does write.
commits : (commit_one runner_state).target ≡ data_at 6 2
unfolding commit_query can_view_instance instance_role is_scoped can_run_queries require_action_mfa
    commit_write_query is_mysql is_mssql
commits = refl

commit_query-once_example :
    ((commit_one runner_state).target ≡ data_at 5 1)
    ⊎ ((commit_one (commit_one runner_state)).target ≡ (commit_one runner_state).target)
commit_query-once_example =
    commit_query-once run statements crypto net slices runner_grants orders request request 1
      runner_state
