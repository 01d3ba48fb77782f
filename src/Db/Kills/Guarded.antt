-- ===== src/Db/Kills/Guarded.antt =====
-- Which sessions a kill can reach.
use mathlib.Core.Path.{subst}
use healthgrid.Prelude.{
  ℕ, Bool, true, false, not, ◌||◌, String, List, [], ◌∷◌, any, contains, All, nat_eq, string_eq,
  ◌≡◌, refl, ap, ◌∙◌, Bool-cases, inl, inr, arith, if◌then◌else◌,
}
use healthgrid.Prelude.Dict.{Dict, put}
use healthgrid.Results.{Result, ok, raise, ◌>>=◌, key_error, columns_without_names}
use healthgrid.Models.Instances.{RdsInstance, is_mysql, is_mssql}
use healthgrid.Mfa.{MfaLibrary}
use healthgrid.Db.Connections.{Connection, Network, get_connection}
use healthgrid.Db.Shapes.{control-IsShaped}
use healthgrid.Db.Registered.{get_connection-database}
use healthgrid.Db.Kills.{
  Server, is_session, is_permitted, kill_if, pid_in_db, guarded_terminate, kill_pid, caught_in_loop,
  kill_each, kill_pids,
}

-- A pid that the account may have terminated: a session of the database, and no backend of a
-- replication slot unless these are allowed, for which the server sent the signal.
pub record MayKill (database : String) (allow_replication : Bool) (s : Server) (pid : ℕ)
    : Type 0 where
  pub session : any (is_session pid database) s.sessions ≡ true
  pub unprotected : (allow_replication || not (contains pid s.slot_pids)) ≡ true
  pub signalled : s.terminate_backend pid ≡ ok true

module _ (r : RdsInstance) (conn : Connection) (allow_replication : Bool) (s0 : Server) where
  -- The server answers as at first, and terminated what the account may have terminated.
  record Guards (s : Server) : Type 0 where
    same_sessions : s.sessions ≡ s0.sessions
    same_slots : s.slot_pids ≡ s0.slot_pids
    same_answers : s.terminate_backend ≡ s0.terminate_backend
    permitted : All (MayKill conn.database allow_replication s0) s.terminated

  -- `true` is returned only where the guard of the query held and the signal was sent.
  guarded-true :
      (pid : ℕ) (s : Server)
      → guarded_terminate conn allow_replication pid s ≡ ok true
      → (is_permitted conn allow_replication pid s ≡ true) × (s.terminate_backend pid ≡ ok true)
  unfolding guarded_terminate
  guarded-true pid s e =
      go (s.runs pid) (is_permitted conn allow_replication pid s) (s.terminate_backend pid) e
    where
      go :
          (ran : Result (Unit {0})) (permitted : Bool) (answer : Result Bool)
          → (ran >>= (λ _. if permitted then answer else ok false)) ≡ ok true
          → (permitted ≡ true) × (answer ≡ ok true)
      go (raise x) permitted answer e = cc
      go (ok _) false answer e = cc
      go (ok _) true answer e = (refl, e)

  kill_if-Guards :
      (pid : ℕ) (answer : Result Bool) (s : Server)
      → Guards s
      → (answer ≡ ok true → MayKill conn.database allow_replication s0 pid)
      → Guards (kill_if pid answer s).1
  kill_if-Guards pid (raise e) s h may = h
  kill_if-Guards pid (ok false) s h may = h
  kill_if-Guards pid (ok true) s h may = record {
    same_sessions = h.same_sessions;
    same_slots = h.same_slots;
    same_answers = h.same_answers;
    permitted = (may refl, h.permitted);
  }

  module _ (my : is_mysql r ≡ false) (ms : is_mssql r ≡ false) where
    kill_pid-Guards :
        (pid : ℕ) (s : Server) → Guards s → Guards (kill_pid r conn allow_replication pid s).1
    unfolding kill_pid
    kill_pid-Guards pid s h =
        rw (my, ms)
          (kill_if-Guards pid (guarded_terminate conn allow_replication pid s) s h (λ e.
            let (may, sent) = guarded-true pid s e in
            record {
              session = rw⁻¹ h.same_sessions (ground arith);
              unprotected = rw⁻¹ h.same_slots (ground arith);
              signalled = rw⁻¹ h.same_answers sent;
            }))

    kill_each-Guards :
        (pids : List ℕ) (results : Dict ℕ Bool) (s : Server)
        → Guards s
        → Guards (kill_each r conn allow_replication pids results s).1
    unfolding kill_each
    kill_each-Guards [] results s h = h
    kill_each-Guards (pid ∷ pids) results s h =
        let after = kill_pid r conn allow_replication pid s in
        go (caught_in_loop (is_mysql r || is_mssql r) after.0) after.1 (kill_pid-Guards pid s h)
          (λ b s' h'. kill_each-Guards pids (put pid b results) s' h')
      where
        go :
            (outcome : Result Bool) (s' : Server)
            → Guards s'
            → ((b : Bool) (s' : Server)
                → Guards s'
                → Guards (kill_each r conn allow_replication pids (put pid b results) s').1)
            → Guards
                (elim outcome as (λ _. Result (Dict ℕ Bool) × Server) [
                  | raise e ↦ (raise e, s')
                  | ok b ↦ kill_each r conn allow_replication pids (put pid b results) s'
                ]).1
        go (raise e) s' h later = h
        go (ok b) s' h later = later b s' h

-- On PostgreSQL, on the connection that `get_connection` returns for the instance, every pid that
-- `kill_pids` terminates, whatever was posted and whether or not a statement fails on the way, is a
-- session of the database registered for the instance, is no backend of a replication slot unless
-- the account may terminate these, and is one for which the server sent the signal.
pub kill_pids-MayKill :
    (crypto : MfaLibrary) (net : Network) (r : RdsInstance) (conn : Connection)
    (allow_replication : Bool) (pids : List ℕ) (s : Server)
    → is_mysql r ≡ false
    → is_mssql r ≡ false
    → get_connection crypto net r ≡ ok conn
    → s.terminated ≡ []
    → All
        (MayKill r.db_name allow_replication s)
        (kill_pids r conn allow_replication pids s).1.terminated
unfolding kill_pids
kill_pids-MayKill crypto net r conn allow_replication pids s my ms opened none_yet =
    let start : Guards r conn allow_replication s s = record {
      same_sessions = refl;
      same_slots = refl;
      same_answers = refl;
      permitted = rw none_yet tt;
    } in
    subst
      (λ d.
        All (MayKill d allow_replication s)
          (kill_pids r conn allow_replication pids s).1.terminated)
      (get_connection-database crypto net r conn opened)
      (kill_each-Guards r conn allow_replication s my ms pids [] s start).permitted

-- What a kill gives on MySQL, MariaDB and SQL Server.
abbrev pub no_count : RdsInstance → ℕ → Server → Result Bool
no_count r pid s = do
  _ ← s.runs pid
  raise (if is_mysql r then key_error else columns_without_names)

module _ (r : RdsInstance) (conn : Connection) (allow_replication : Bool)
    (other : (is_mysql r || is_mssql r) ≡ true) (rows : conn.dict_rows ≡ true) where
  pid_in_db-no_count : (pid : ℕ) (s : Server) → pid_in_db r conn pid s ≡ no_count r pid s
  unfolding pid_in_db
  pid_in_db-no_count pid s = elim (Bool-cases (is_mysql r)) [
    | inl my ↦ rw (rows, my) refl
    | inr ms ↦ rw (rows, ms) refl
  ]

  kill_pid-no_count :
      (pid : ℕ) (s : Server) → kill_pid r conn allow_replication pid s ≡ (no_count r pid s, s)
  unfolding kill_pid
  kill_pid-no_count pid s = rw other (rw (pid_in_db-no_count pid s) (go (s.runs pid)))
    where
      go :
          (ran : Result (Unit {0}))
          → let answer : Result Bool =
              ran >>= (λ _. raise (if is_mysql r then key_error else columns_without_names)) in
            kill_if pid answer s ≡ (answer, s)
      go (raise e) = refl
      go (ok _) = refl

  kill_each-unchanged :
      (pids : List ℕ) (results : Dict ℕ Bool) (s : Server)
      → (kill_each r conn allow_replication pids results s).1 ≡ s
  unfolding kill_each
  kill_each-unchanged [] results s = refl
  kill_each-unchanged (pid ∷ pids) results s =
      go (is_mysql r || is_mssql r) (s.runs pid) (kill_pid r conn allow_replication pid s) other
        (kill_pid-no_count pid s) (kill_each-unchanged pids (put pid false results) s)
    where
      go :
          (b : Bool) (ran : Result (Unit {0})) (after : Result Bool × Server)
          → b ≡ true
          → Path
              (Result Bool × Server)
              after
              (ran >>= (λ _. raise (if is_mysql r then key_error else columns_without_names)), s)
          → (kill_each r conn allow_replication pids (put pid false results) s).1 ≡ s
          → (elim (caught_in_loop b after.0) as (λ _. Result (Dict ℕ Bool) × Server) [
            | raise e ↦ (raise e, after.1)
            | ok b ↦ kill_each r conn allow_replication pids (put pid b results) after.1
          ]).1
            ≡ s
      go false ran after off e later = cc
      go true (raise x) (ok b, s') on e later = cc
      go true (ok _) (ok b, s') on e later = cc
      go true ran (raise x, s') on e later =
          ap (λ p. (kill_each r conn allow_replication pids (put pid false results) p.1).1) e
          ∙ later

-- On MySQL, MariaDB and SQL Server nothing is ever terminated. On each connection that
-- `get_connection` returns, the count before the KILL fails: `kill_pid` raises the error of the
-- statement or, where it runs, KeyError on MySQL and MariaDB and ColumnsWithoutNamesError on SQL
-- Server; and `kill_pids` leaves the server as it was.
pub kill_pid-never :
    (crypto : MfaLibrary) (net : Network) (r : RdsInstance) (conn : Connection)
    (allow_replication : Bool) (pid : ℕ) (pids : List ℕ) (s : Server)
    → (is_mysql r || is_mssql r) ≡ true
    → get_connection crypto net r ≡ ok conn
    → (kill_pid r conn allow_replication pid s ≡ (
      s.runs pid >>= (λ _. raise (if is_mysql r then key_error else columns_without_names)),
      s,
    ))
      × ((kill_pids r conn allow_replication pids s).1 ≡ s)
unfolding kill_pids
kill_pid-never crypto net r conn allow_replication pid pids s other opened =
    let rows : conn.dict_rows ≡ true =
      ground (arith, other, (control-IsShaped crypto net r conn opened).1) in
    (
      kill_pid-no_count r conn allow_replication other rows pid s,
      kill_each-unchanged r conn allow_replication other rows pids [] s,
    )
