-- ===== src/Models/Audit.antt =====
-- The audit history and the query-runner records of monitor/models.py.
use healthgrid.Prelude.{ℕ, ℤ, String, Option}

-- `AuditLog.ACTION_CHOICES`
pub data AuditAction : Type 0 where
  kill_session kill_chain bulk_kill kill_replication_slot drop_replication_slot : AuditAction
  add_instance remove_instance rename_instance update_slot_permissions run_query : AuditAction

pub data AuditResult : Type 0 where
  success failed : AuditResult

pub record AuditLog : Type 0 where
  pub instance_id : Option ℕ
  pub action : AuditAction
  pub target_pid : Option ℕ
  pub target_query : String
  pub performed_by : ℕ
  pub result : AuditResult
  pub detail : String

-- `QueryRunnerExecution.STATUS_CHOICES`
pub data ExecutionStatus : Type 0 where
  pending committed discarded failed : ExecutionStatus

pub record QueryRunnerExecution : Type 0 where
  pub pk : ℕ
  pub instance_id : ℕ
  pub user_id : Option ℕ
  pub sql : String
  pub status : ExecutionStatus
  pub rows_affected : Option ℤ
  pub error : String
  pub resolved_at : Option ℕ
