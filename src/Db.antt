-- ===== src/Db.antt =====
-- monitor/db.py: connections to the monitored servers, the query runner, and the termination of
-- sessions.
pub mod Connections
pub mod Shapes
pub mod Registered
pub mod Queries
pub mod Previews
pub mod Kills
pub mod Slots
