-- ===== src/Views/Reports/Download.antt =====
-- The link of a weekly report leads to the report.
use healthgrid.Prelude.{nat_eq}
