-- ===== src/Db/Queries.antt =====
-- The query runner of monitor/db.py: one INSERT or UPDATE is tried, or run for good.
use healthgrid.Prelude.{ℕ, String, Bool, not, is_blank, has_char, without_final, if◌then◌else◌}
use healthgrid.Results.{Result, ok, raise, ◌>>=◌, query_validation}
use healthgrid.Models.Instances.{RdsInstance}
use healthgrid.Mfa.{MfaLibrary}
use healthgrid.Db.Connections.{
  as_connection_error, Connection, Network, get_query_runner_connection,
}

-- `str.strip` and the match of `_WRITE_STATEMENT_RE`.
pub record Statements : Type 0 where
  pub strip : String → String
  pub is_write_statement : String → Bool

unfoldable pub validate_write_statement : Statements → String → Result String
validate_write_statement lib sql =
    let statement = lib.strip sql in
    let body = without_final b';' statement in
    if is_blank statement
    then raise (query_validation "Enter a query to run.")
    else if not (lib.is_write_statement statement)
    then raise (query_validation "Only INSERT or UPDATE statements are allowed.")
    else if has_char b';' body
    then raise (query_validation "Only a single statement is allowed — remove the extra ';'.")
    else ok body

-- What the server holds: the committed data, the data as the transaction of the connection sees it,
-- and what no transaction undoes: the sequences and auto-increment counters.
pub record ServerData (D Seq : Type 0) : Type 0 where
  pub committed : D
  pub working : D
  pub sequences : Seq

module _ {D Seq : Type 0} (run : String → D → Seq → Result (ℕ × D) × Seq) where
  -- A statement on a connection that commits by itself is committed at once. The values that it took
  -- from sequences are used up in any case, even if it fails.
  abbrev pub executed : Bool → ServerData D Seq → Result (ℕ × D) × Seq → Result ℕ × ServerData D Seq
  executed autocommit s (raise e, sequences) = (raise e, record s { sequences = sequences })
  executed autocommit s (ok (rowcount, d), sequences) = (
    ok rowcount,
    record {
      committed = if autocommit then d else s.committed;
      working = d;
      sequences = sequences;
    },
  )

  abbrev pub execute : Connection → String → ServerData D Seq → Result ℕ × ServerData D Seq
  execute conn statement s = executed conn.autocommit s (run statement s.working s.sequences)

  -- `conn.rollback()`: the sequences are not set back.
  abbrev pub rollback : ServerData D Seq → ServerData D Seq
  rollback s = record s { working = s.committed }

  abbrev pub commit : ServerData D Seq → ServerData D Seq
  commit s = record s { committed = s.working }

  -- The `try` of `preview_write_query`, by the outcome of the statement.
  abbrev pub previewed :
      String → Result ℕ × ServerData D Seq → Result (String × ℕ) × ServerData D Seq
  previewed statement (ok rowcount, s) = (ok (statement, rowcount), rollback s)
  previewed statement (raise e, s) = (raise (as_connection_error e), rollback s)

  -- The `try` of `commit_write_query`; the commit itself is taken to succeed.
  abbrev pub committed_or_back : Result ℕ × ServerData D Seq → Result ℕ × ServerData D Seq
  committed_or_back (ok rowcount, s) = (ok rowcount, commit s)
  committed_or_back (raise e, s) = (raise (as_connection_error e), rollback s)

  -- A statement that was validated, on a connection that was opened.
  abbrev pub preview_on :
      Result (String × Connection) → ServerData D Seq → Result (String × ℕ) × ServerData D Seq
  preview_on (raise e) s = (raise e, s)
  preview_on (ok (statement, conn)) s = previewed statement (execute conn statement s)

  abbrev pub commit_on :
      Result (String × Connection) → ServerData D Seq → Result ℕ × ServerData D Seq
  commit_on (raise e) s = (raise e, s)
  commit_on (ok (statement, conn)) s = committed_or_back (execute conn statement s)

  module _ (lib : Statements) (crypto : MfaLibrary) (net : Network) (r : RdsInstance) where
    unfoldable pub prepared : String → Result (String × Connection)
    unfolding validate_write_statement get_query_runner_connection
    prepared sql = do
      statement ← validate_write_statement lib sql
      conn ← get_query_runner_connection crypto net r
      ok (statement, conn)

    unfoldable pub preview_write_query :
        String → ServerData D Seq → Result (String × ℕ) × ServerData D Seq
    unfolding prepared
    preview_write_query sql s = preview_on (prepared sql) s

    unfoldable pub commit_write_query : String → ServerData D Seq → Result ℕ × ServerData D Seq
    unfolding prepared
    commit_write_query sql s = commit_on (prepared sql) s
