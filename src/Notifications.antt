-- ===== src/Notifications.antt =====
-- monitor/notifications.py: when an alert may be sent, to which webhooks, and what is refused.
pub mod Schedule
pub mod Cards
pub mod Webhooks
pub mod Delivery
pub mod Csv
pub mod Weekly
