-- ===== src/Db/Previews.antt =====
-- What a preview changes, and what it predicts.
use healthgrid.Prelude.{ℕ, String, true, false, ◌||◌, ◌≡◌, refl, sym, ap, ◌∙◌, arith}
use healthgrid.Results.{Result, ok, raise, bind-eq-ok}
use healthgrid.Models.Instances.{RdsInstance, is_mysql, is_mssql}
use healthgrid.Mfa.{MfaLibrary}
use healthgrid.Db.Connections.{Connection, Network, get_query_runner_connection}
use healthgrid.Db.Shapes.{query_runner-IsShaped}
use healthgrid.Db.Queries.{
  Statements, validate_write_statement, ServerData, executed, previewed, preview_on, prepared,
  preview_write_query,
}

module _ {D Seq : Type 0} (run : String → D → Seq → Result (ℕ × D) × Seq) (lib : Statements)
    (crypto : MfaLibrary) (net : Network) (r : RdsInstance) where
  -- What `prepared` returns is a validated statement and a query-runner connection.
  prepared-Autocommits :
      (sql statement : String) (conn : Connection)
      → prepared run lib crypto net r sql ≡ ok (statement, conn)
      → conn.autocommit ≡ (is_mysql r || (is_mssql r || false))
  unfolding prepared
  prepared-Autocommits sql statement conn e =
      let (stmt, _, rest) = bind-eq-ok _ _ (validate_write_statement lib sql) e in
      let (c, opened, last) = bind-eq-ok _ _ (get_query_runner_connection crypto net r) rest in
      ap (λ x. x.autocommit) (sym (pair_of c last))
      ∙ (query_runner-IsShaped crypto net r c opened).0
    where
      second : Connection → Result (String × Connection) → Connection
      second default (ok (_, x)) = x
      second default (raise _) = default

      pair_of :
          {stmt : String} (c : Connection)
          → Path (Result (String × Connection)) (ok (stmt, c)) (ok (statement, conn))
          → c ≡ conn
      pair_of c last = ap (second c) last

  -- A preview on a connection that does not commit by itself.
  preview_on-unchanged :
      (p : Result (String × Connection)) (s : ServerData D Seq)
      → ((statement : String) (conn : Connection)
          → p ≡ ok (statement, conn)
          → conn.autocommit ≡ false)
      → (preview_on run p s).1.committed ≡ s.committed
  preview_on-unchanged (raise e) s h = refl
  preview_on-unchanged (ok (statement, conn)) s h =
      after (run statement s.working s.sequences) (h statement conn refl)
    where
      after :
          (res : Result (ℕ × D) × Seq)
          → conn.autocommit ≡ false
          → (previewed run statement (executed run conn.autocommit s res)).1.committed ≡ s.committed
      after (raise e, sequences) off = refl
      after (ok (n, d), sequences) off = rw off refl

  -- On PostgreSQL a preview changes no committed data, sequences apart, whatever the statement does
  -- and whether or not it, its validation or the connection fails.
  pub preview_write_query-unchanged :
      (sql : String) (s : ServerData D Seq)
      → is_mysql r ≡ false
      → is_mssql r ≡ false
      → (preview_write_query run lib crypto net r sql s).1.committed ≡ s.committed
  unfolding preview_write_query
  preview_write_query-unchanged sql s my ms =
      preview_on-unchanged (prepared run lib crypto net r sql) s
        (λ statement conn e. ground (arith, my, ms, prepared-Autocommits sql statement conn e))

  -- On MySQL, MariaDB and SQL Server the connection of a preview commits by itself, so a preview that
  -- reports its rows has changed the committed data just as the statement does: nothing is rolled
  -- back.
  pub preview_write_query-changes :
      (sql statement : String) (conn : Connection) (rowcount : ℕ) (d : D) (sequences : Seq)
      (s : ServerData D Seq)
      → (is_mysql r || is_mssql r) ≡ true
      → prepared run lib crypto net r sql ≡ ok (statement, conn)
      → run statement s.working s.sequences ≡ (ok (rowcount, d), sequences)
      → preview_write_query run lib crypto net r sql s
        ≡ (ok (statement, rowcount), record { committed = d; working = d; sequences = sequences })
  unfolding preview_write_query
  preview_write_query-changes sql statement conn rowcount d sequences s other p ran =
      let on : conn.autocommit ≡ true =
        ground (arith, other, prepared-Autocommits sql statement conn p) in
      rw p (rw ran (rw on refl))

  abbrev pub rowcount_of : Result (String × ℕ) → Result ℕ
  rowcount_of (ok (statement, rowcount)) = ok rowcount
  rowcount_of (raise e) = raise e

  -- The row count or the error of a statement.
  abbrev pub outcome_of : Result (ℕ × D) × Seq → Result ℕ
  outcome_of (ok (rowcount, d), sequences) = ok rowcount
  outcome_of (raise e, sequences) = raise e
