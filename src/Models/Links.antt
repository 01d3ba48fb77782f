-- ===== src/Models/Links.antt =====
-- Links to other dashboards, of monitor/models.py.
use healthgrid.Prelude.{ℕ, String, Bool, Option}

pub record DashboardLink : Type 0 where
  pub pk : ℕ
  pub name : String
  pub url : String
  pub description : String
  pub category : String
  pub sort_order : ℕ
  pub is_active : Bool
  pub created_by : Option ℕ
