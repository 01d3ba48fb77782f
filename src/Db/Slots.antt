-- ===== src/Db/Slots.antt =====
-- The replication slots of monitor/db.py. What PostgreSQL keeps of them is the state `S`.
use healthgrid.Prelude.{
  ℕ, zero, suc, String, Bool, false, ◌||◌, Option, none, some, List, [], if◌then◌else◌,
}
use healthgrid.Results.{Exn, Result, ok, raise, connection_message}
use healthgrid.Models.Instances.{RdsInstance, is_mysql, is_mssql}
use healthgrid.Db.Connections.{Connection}

-- What the statements do on a connection: the rows of the slots, the column `active_pid` of one slot
-- (`none` without a row or with a null), `pg_terminate_backend` and `pg_drop_replication_slot`.
pub record SlotServer (S : Type 0) (Row : Type 0) : Type 0 where
  pub slot_rows : Connection → S → Result (List Row)
  pub active_pid : Connection → String → S → Result (Option ℕ)
  pub terminate_backend : Connection → ℕ → S → Result Bool × S
  pub drop_slot : Connection → String → S → Result (Unit {0}) × S

module _ {S Row : Type 0} (server : SlotServer S Row) where
  abbrev pub on_connection : {A : Type 0} → Result Connection → (Connection → Result A) → Result A
  on_connection (raise e) k = raise e
  on_connection (ok conn) k = k conn

  -- `fetch_replication_slots`, on what `get_connection` gives
  unfoldable pub fetch_replication_slots : RdsInstance → Result Connection → S → Result (List Row)
  fetch_replication_slots r connection s =
      if is_mysql r || is_mssql r
      then ok []
      else on_connection connection (λ conn. server.slot_rows conn s)

  -- `if not row or not row[0]`
  abbrev pub terminate_found : Connection → Result (Option ℕ) → S → Result Bool × S
  terminate_found conn (raise e) s = (raise e, s)
  terminate_found conn (ok none) s = (ok false, s)
  terminate_found conn (ok (some zero)) s = (ok false, s)
  terminate_found conn (ok (some (suc pid))) s = server.terminate_backend conn (suc pid) s

  abbrev pub terminate_on : String → Result Connection → S → Result Bool × S
  terminate_on slot_name (raise e) s = (raise e, s)
  terminate_on slot_name (ok conn) s = terminate_found conn (server.active_pid conn slot_name s) s

  unfoldable pub terminate_replication_slot_backend :
      RdsInstance → Result Connection → String → S → Result Bool × S
  terminate_replication_slot_backend r connection slot_name s =
      if is_mysql r || is_mssql r then (ok false, s) else terminate_on slot_name connection s

  -- The `try`: `except ConnectionError: raise`, and `except Exception as exc`.
  abbrev pub caught : (Exn → String) → Exn → Option String → Result (Option String)
  caught exn_text e none = ok (some (exn_text e))
  caught exn_text e (some message) = raise e

  abbrev pub dropped : (Exn → String) → Result (Unit {0}) → Result (Option String)
  dropped exn_text (ok _) = ok none
  dropped exn_text (raise e) = caught exn_text e (connection_message e)

  abbrev pub drop_on : (Exn → String) → String → Result Connection → S → Result (Option String) × S
  drop_on exn_text slot_name (raise e) s = (raise e, s)
  drop_on exn_text slot_name (ok conn) s =
      let (r, s') = server.drop_slot conn slot_name s in (dropped exn_text r, s')

  -- `drop_replication_slot`: none is success, some is the error; `exn_text` is `str(exc)`.
  unfoldable pub drop_replication_slot :
      (Exn → String) → RdsInstance → Result Connection → String → S → Result (Option String) × S
  drop_replication_slot exn_text r connection slot_name s =
      if is_mysql r || is_mssql r
      then (ok (some "Replication slots are only supported for PostgreSQL."), s)
      else drop_on exn_text slot_name connection s
