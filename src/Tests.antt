-- ===== src/Tests.antt =====
-- The theorems at concrete inputs.
mod Data
mod Monitoring
mod Summaries
mod Permissions
mod Servers
mod Registry
mod Settings
mod Users
mod Slots
mod Reports
mod Grants
mod Links
mod Factors
mod Background
