-- ===== src/Models/Reports.antt =====
-- Weekly reports and the lease of the monitor, of monitor/models.py.
use healthgrid.Prelude.{ℕ, String, Option}

pub record LockReport : Type 0 where
  pub pk : ℕ
  pub file_name : String
  pub csv_content : String
  pub expires_at : ℕ

-- A blank `owner_id` is no owner.
pub record MonitorLease : Type 0 where
  pub owner_id : String
  pub lease_until : Option ℕ
