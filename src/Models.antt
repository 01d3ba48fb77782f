-- ===== src/Models.antt =====
-- The database models of monitor/models.py. A foreign key is the number of the row that it names,
-- a time is a number of seconds since the epoch, and a time of day a number of seconds.
pub mod Settings
pub mod Links
pub mod Credentials
pub mod Instances
pub mod Alerts
pub mod Accounts
pub mod Audit
pub mod Reports
