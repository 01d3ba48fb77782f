-- ===== src/Views/Runner.antt =====
-- The query runner of monitor/views.py: `preview_query`, `commit_query` and `discard_query`.
pub mod Once
use healthgrid.Prelude.{
  ℕ, suc, String, Bool, true, false, not, ◌&&◌, ◌||◌, Option, none, some, List, [], ◌∷◌, ◌++◌, ◌<>◌,
  pos, show, nat_eq, ◌==◌, if◌then◌else◌,
}
use healthgrid.Prelude.Tables.{select, update_where}
use healthgrid.Results.{
  Exn, Result, ok, raise, connection_message, query_validation, permission_denied, not_found,
}
use healthgrid.Effects.{Exec, pure, throw, gets, modify, guard, or_raise, continue, ◌>>=◌, ◌>>◌}
use healthgrid.Models.Accounts.{AccessTables}
use healthgrid.Models.Audit.{
  AuditAction, run_query, AuditResult, AuditLog, ExecutionStatus, pending, committed, discarded,
  QueryRunnerExecution,
}
use healthgrid.Models.Instances.{RdsInstance}
use healthgrid.Access.{first, can_run_queries}
use healthgrid.Mfa.{MfaLibrary, same_user}
use healthgrid.Db.Connections.{Network}
use healthgrid.Db.Queries.{Statements, ServerData, preview_write_query, commit_write_query}
use healthgrid.Views.{
  Flash, ViewState, Request, flash, require_instance_access, log_audit, require_action_mfa,
}

abbrev pub is_pending : ExecutionStatus → Bool
is_pending pending = true
is_pending status = false

-- `pk=execution_id, instance=instance, status="pending"`
abbrev pub is_open : RdsInstance → ℕ → QueryRunnerExecution → Bool
is_open r id e = e.pk == id && (e.instance_id == r.pk && is_pending e.status)

-- `except db.QueryValidationError as exc`: its text
abbrev pub validation_message : Exn → Option String
validation_message (query_validation message) = some message
validation_message e = none

-- `sql[:2000]`, `sql[:200]`: a slice of the text, by Python
pub record Slices : Type 0 where
  pub first_chars : ℕ → String → String

abbrev pub query_entry : Request → RdsInstance → String → AuditResult → String → AuditLog
query_entry q r query result detail = record {
  instance_id = some r.pk;
  action = run_query;
  target_pid = none;
  target_query = query;
  performed_by = q.user.pk;
  result = result;
  detail = detail;
}

module _ {D Seq : Type 0} (run : String → D → Seq → Result (ℕ × D) × Seq) (lib : Statements)
    (crypto : MfaLibrary) (net : Network) (slices : Slices) (t : AccessTables) (q : Request) where
  abbrev pub State : Type 0
  State = ViewState (ServerData D Seq)

  -- A call of monitor/db.py, whose outcome the caller looks at.
  abbrev pub on_target :
      {A B : Type 0}
      → (ServerData D Seq → Result A × ServerData D Seq)
      → (Result A → Exec State B)
      → Exec State B
  on_target call rest s =
      let (res, target) = call s.target in rest res (record s { target = target })

  -- The two tests that the three handlers begin with.
  abbrev pub require_runner : {A : Type 0} → RdsInstance → Exec State A → Exec State A
  require_runner r rest =
      require_instance_access t q.user r false
      >> (guard (can_run_queries t q.user r) permission_denied >> rest)

  -- The row of the preview, with its key.
  unfoldable pub create_execution : RdsInstance → String → ℕ → Exec State ℕ
  create_execution r sql rowcount s = (
    ok s.next_execution,
    record s {
      executions =
          s.executions
          ++ record {
            pk = s.next_execution;
            instance_id = r.pk;
            user_id = some q.user.pk;
            sql = sql;
            status = pending;
            rows_affected = some (pos rowcount);
            error = "";
            resolved_at = none;
          }
            ∷ [];
      next_execution = suc s.next_execution;
    },
  )

  -- The handlers of `preview_query`, by the text of the exception.
  abbrev pub preview_raised :
      RdsInstance → String → Exn → Option String → Option String → Exec State (Unit {0})
  preview_raised r sql e (some invalid) connection = flash (Flash.error invalid)
  preview_raised r sql e none (some message) = do
    log_audit
        (query_entry q r (slices.first_chars 2000 sql) AuditResult.failed ("[preview] " <> message))
    flash (Flash.error ("Preview failed: " <> message))
  preview_raised r sql e none none = throw e

  unfoldable pub after_preview : RdsInstance → String → Result (String × ℕ) → Exec State (Unit {0})
  unfolding create_execution
  after_preview r sql (ok (statement, rowcount)) = do
    pk ← create_execution r statement rowcount
    log_audit (
        query_entry q r statement AuditResult.success
          ("[preview] rows_affected=" <> (show rowcount <> (" execution_id=" <> show pk))))
    flash (
        Flash.success (
          "Preview: "
          <> (show rowcount
              <> " row(s) would be affected. Nothing was changed — review below, then Commit to apply or Discard to cancel.")))
  after_preview r sql (raise e) =
      preview_raised r sql e (validation_message e) (connection_message e)

  unfoldable pub preview_query : Option RdsInstance → String → Exec State (Unit {0})
  unfolding after_preview
  preview_query found sql = do
    r ← or_raise found not_found
    require_runner r (do
      passed ← require_action_mfa crypto q r run_query ("[preview] " <> slices.first_chars 200 sql)
      (if passed
          then on_target (preview_write_query run lib crypto net r sql) (after_preview r sql)
          else pure tt))

  -- `_get_own_pending_execution`
  unfoldable pub get_own_pending_execution : RdsInstance → ℕ → Exec State QueryRunnerExecution
  get_own_pending_execution r id = do
    found ← gets (λ s. first (select (is_open r id) s.executions))
    e ← or_raise found not_found
    guard (same_user e.user_id (some q.user.pk) || q.user.is_superuser) permission_denied
    pure e

  -- `execution.save(update_fields=[…])`
  abbrev pub save_execution :
      ℕ → (QueryRunnerExecution → QueryRunnerExecution) → Exec State (Unit {0})
  save_execution id f =
      modify (λ s. record s { executions = update_where (λ e. e.pk == id) f s.executions })

  abbrev pub commit_raised :
      RdsInstance → QueryRunnerExecution → Exn → Option String → Exec State (Unit {0})
  commit_raised r e x none = throw x
  commit_raised r e x (some message) = do
    save_execution e.pk (λ row. record row {
      status = ExecutionStatus.failed;
      error = message;
      resolved_at = some q.now;
    })
    log_audit (query_entry q r e.sql AuditResult.failed ("[commit] " <> message))
    flash (Flash.error ("Commit failed: " <> message))

  unfoldable pub after_commit :
      RdsInstance → QueryRunnerExecution → Result ℕ → Exec State (Unit {0})
  after_commit r e (ok rowcount) = do
    save_execution e.pk (λ row. record row {
      status = committed;
      rows_affected = some (pos rowcount);
      resolved_at = some q.now;
    })
    log_audit (
        query_entry q r e.sql AuditResult.success
          ("[commit] rows_affected=" <> (show rowcount <> (" execution_id=" <> show e.pk))))
    flash (Flash.success ("Committed. " <> (show rowcount <> " row(s) affected.")))
  after_commit r e (raise x) = commit_raised r e x (connection_message x)

  abbrev pub commit_if : RdsInstance → QueryRunnerExecution → Bool → Exec State (Unit {0})
  commit_if r e passed =
      if passed
      then on_target (commit_write_query run lib crypto net r e.sql) (after_commit r e)
      else pure tt

  unfoldable pub commit_execution : RdsInstance → QueryRunnerExecution → Exec State (Unit {0})
  unfolding after_commit
  commit_execution r e =
      require_action_mfa crypto q r run_query ("[commit] execution_id=" <> show e.pk)
      >>= commit_if r e

  unfoldable pub commit_query : Option RdsInstance → ℕ → Exec State (Unit {0})
  unfolding get_own_pending_execution commit_execution
  commit_query found id = do
    r ← or_raise found not_found
    require_runner r (get_own_pending_execution r id >>= commit_execution r)

  unfoldable pub discard_execution : RdsInstance → QueryRunnerExecution → Exec State (Unit {0})
  discard_execution r e = do
    save_execution e.pk (λ row. record row { status = discarded; resolved_at = some q.now })
    log_audit (query_entry q r e.sql AuditResult.success ("[discard] execution_id=" <> show e.pk))
    flash (Flash.success "Preview discarded. No changes were made.")

  unfoldable pub discard_query : Option RdsInstance → ℕ → Exec State (Unit {0})
  unfolding get_own_pending_execution discard_execution
  discard_query found id = do
    r ← or_raise found not_found
    require_runner r (get_own_pending_execution r id >>= discard_execution r)
