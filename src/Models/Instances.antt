-- ===== src/Models/Instances.antt =====
-- `RDSInstance` of monitor/models.py, with the tests of the engine from monitor/db.py.
use healthgrid.Prelude.{ℕ, String, Bool, true, false, Option, ◌<>◌}

pub data Engine : Type 0 where
  postgresql mysql mariadb mssql : Engine

pub record RdsInstance : Type 0 where
  pub pk : ℕ
  pub name : String
  pub connection_group : ℕ
  pub engine : Engine
  pub db_identifier : String
  pub region : String
  pub host : String
  pub port : ℕ
  pub db_name : String
  pub username : String
  pub lock_control_enabled : Bool
  pub control_username : String
  pub owner_teams_webhook_url : String
  pub exclude_from_global_notifications : Bool
  pub password_encrypted : String
  pub control_password_encrypted : String
  pub query_runner_enabled : Bool
  pub query_runner_username : String
  pub query_runner_password_encrypted : String
  pub ssl_required : Bool
  pub is_active : Bool
  pub added_by : Option ℕ

-- `_is_mysql`
unfoldable pub is_mysql : RdsInstance → Bool
is_mysql r = elim r.engine [ mysql ↦ true | mariadb ↦ true | _ ↦ false ]

-- `_is_mssql`
unfoldable pub is_mssql : RdsInstance → Bool
is_mssql r = elim r.engine [ mssql ↦ true | _ ↦ false ]

-- `__str__`
unfoldable pub instance_label : RdsInstance → String
instance_label r = r.name <> (" (" <> (r.db_identifier <> ")"))
