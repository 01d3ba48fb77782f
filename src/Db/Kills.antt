-- ===== src/Db/Kills.antt =====
-- `kill_pid` and `kill_pids` of monitor/db.py.
pub mod Guarded
use healthgrid.Prelude.{
  ℕ, zero, suc, String, Bool, true, false, not, ◌&&◌, ◌||◌, Option, none, some, List, [], ◌∷◌, any,
  contains, nat_eq, string_eq, ◌==◌, if◌then◌else◌,
}
use healthgrid.Prelude.Dict.{Dict, put}
use healthgrid.Prelude.Tables.{count_where}
use healthgrid.Results.{Exn, Result, ok, raise, ◌>>=◌, key_error, columns_without_names}
use healthgrid.Models.Instances.{RdsInstance, is_mysql, is_mssql}
use healthgrid.Db.Connections.{Connection}

-- A row of a driver's cursor: a tuple, or a mapping from column names. The counts have one column.
pub data Row : Type 0 where
  tuple_row : ℕ → Row
  dict_row : String → ℕ → Row

-- `row[0]`: a mapping has no key 0.
abbrev pub first_column : Row → Result ℕ
first_column (tuple_row n) = ok n
first_column (dict_row name n) = raise key_error

pub record ServerSession : Type 0 where
  pub pid : ℕ
  pub database : String

-- What a monitored server holds for a kill: its sessions, the backends of active replication slots,
-- and the pids it terminated so far; and what it answers on a pid: whether the statement that asks for
-- it runs at all, and what `pg_terminate_backend` returns where it is reached: true if the signal was
-- sent, false if not, or an error such as a missing permission.
pub record Server : Type 0 where
  pub runs : ℕ → Result (Unit {0})
  pub terminate_backend : ℕ → Result Bool
  pub sessions : List ServerSession
  pub slot_pids : List ℕ
  pub terminated : List ℕ

abbrev pub is_session : ℕ → String → ServerSession → Bool
is_session pid database s = s.pid == pid && s.database == database

-- The name that the engine gives the column of `SELECT COUNT(*) …`: none on SQL Server.
abbrev pub count_column : RdsInstance → Option String
count_column r = if is_mysql r then some "COUNT(*)" else none

-- `SELECT COUNT(*) …` in the shape that the connection gives rows; pymssql's `execute` refuses a
-- column without a name where rows are mappings.
abbrev pub count_row : Connection → Option String → ℕ → Result Row
count_row conn column n =
    if not conn.dict_rows
    then ok (tuple_row n)
    else elim column [ none ↦ raise columns_without_names | some name ↦ ok (dict_row name n) ]

-- `_mysql_pid_in_db` and `_mssql_pid_in_db`: the database is that of the connection.
unfoldable pub pid_in_db : RdsInstance → Connection → ℕ → Server → Result Bool
pid_in_db r conn pid s = do
  _ ← s.runs pid
  row ← count_row conn (count_column r) (count_where (is_session pid conn.database) s.sessions)
  n ← first_column row
  ok (not (n == 0))

-- `KILL`, of a session that is there
abbrev pub kill : ℕ → Server → Server
kill pid s = record s { terminated = pid ∷ s.terminated }

-- What an answer does: only `true` goes with a session that was terminated.
abbrev pub kill_if : ℕ → Result Bool → Server → Result Bool × Server
kill_if pid (raise e) s = (raise e, s)
kill_if pid (ok false) s = (ok false, s)
kill_if pid (ok true) s = (ok true, kill pid s)

-- The `WHEN` of `GUARDED_TERMINATE_QUERY`
abbrev pub is_permitted : Connection → Bool → ℕ → Server → Bool
is_permitted conn allow_replication pid s =
    (allow_replication || not (contains pid s.slot_pids))
    && any (is_session pid conn.database) s.sessions

-- `GUARDED_TERMINATE_QUERY`: what it returns, or the error that it raises
unfoldable pub guarded_terminate : Connection → Bool → ℕ → Server → Result Bool
guarded_terminate conn allow_replication pid s = do
  _ ← s.runs pid
  if is_permitted conn allow_replication pid s then s.terminate_backend pid else ok false

-- `kill_pid`, on the connection that `get_connection` returned
unfoldable pub kill_pid : RdsInstance → Connection → Bool → ℕ → Server → Result Bool × Server
unfolding pid_in_db guarded_terminate
kill_pid r conn allow_replication pid s =
    if is_mysql r || is_mssql r
    then kill_if pid (pid_in_db r conn pid s) s
    else kill_if pid (guarded_terminate conn allow_replication pid s) s

-- `except Exception: results[pid] = False`, in the loops of MySQL and SQL Server only
abbrev pub caught_in_loop : Bool → Result Bool → Result Bool
caught_in_loop true (raise e) = ok false
caught_in_loop false (raise e) = raise e
caught_in_loop b (ok outcome) = ok outcome

-- The loops of `kill_pids`.
unfoldable pub kill_each :
    RdsInstance → Connection → Bool → List ℕ → Dict ℕ Bool → Server → Result (Dict ℕ Bool) × Server
unfolding kill_pid
kill_each r conn allow_replication [] results s = (ok results, s)
kill_each r conn allow_replication (pid ∷ pids) results s =
    let (outcome, s') = kill_pid r conn allow_replication pid s in
    elim (caught_in_loop (is_mysql r || is_mssql r) outcome) [
      | raise e ↦ (raise e, s')
      | ok b ↦ kill_each r conn allow_replication pids (put pid b results) s'
    ]

unfoldable pub kill_pids :
    RdsInstance → Connection → Bool → List ℕ → Server → Result (Dict ℕ Bool) × Server
unfolding kill_each
kill_pids r conn allow_replication pids s = kill_each r conn allow_replication pids [] s
