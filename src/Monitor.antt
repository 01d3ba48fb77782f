-- ===== src/Monitor.antt =====
-- The lock monitor, monitor/management/commands/monitor_locks.py: how one snapshot of a database's
-- catalog becomes incidents, and incidents become notifications.
pub mod Keys
pub mod Alerts
pub mod State
pub mod LongQueries
pub mod Notify
pub mod Cycle
