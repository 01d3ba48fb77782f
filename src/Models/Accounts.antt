-- ===== src/Models/Accounts.antt =====
-- Accounts and the grants of access of monitor/models.py. `User` has the fields of Django's user
-- model that the program reads.
use healthgrid.Prelude.{ℕ, String, Bool, Option, List}

pub record User : Type 0 where
  pub pk : ℕ
  pub username : String
  pub is_authenticated : Bool
  pub is_active : Bool
  pub is_staff : Bool
  pub is_superuser : Bool

-- `UserInstanceAccess.ROLE_CHOICES`
pub data Role : Type 0 where
  readonly operator : Role

pub record UserInstanceAccess : Type 0 where
  pub user_id : ℕ
  pub instance_id : ℕ
  pub role : Role
  pub can_manage_notifications : Bool

pub record UserInstanceAccessScope : Type 0 where
  pub user_id : ℕ
  pub can_manage_global_notifications : Bool

pub record ReplicationSlotAccess : Type 0 where
  pub user_id : ℕ
  pub can_drop : Bool
  pub can_terminate : Bool

pub record QueryRunnerGrant : Type 0 where
  pub pk : ℕ
  pub user_id : ℕ
  pub instance_id : ℕ
  pub granted_by : Option ℕ

-- The tables that decide what an account may do.
pub record AccessTables : Type 0 where
  pub users : List User
  pub grants : List UserInstanceAccess
  pub scopes : List UserInstanceAccessScope
  pub slot_access : List ReplicationSlotAccess
  pub query_grants : List QueryRunnerGrant
