-- ===== src/Models/Settings.antt =====
-- `NotificationSettings` of monitor/models.py, the singleton configuration.
use healthgrid.Prelude.{ℕ, String, Bool, false, Option, none}

pub record NotificationSettings : Type 0 where
  pub channel_webhook_url : String
  pub threshold_seconds : ℕ
  pub interval_seconds : ℕ
  pub lock_storm_threshold : ℕ
  pub notification_schedule_enabled : Bool
  pub notification_start_time : ℕ
  pub notification_end_time : ℕ
  pub manual_query_alert_enabled : Bool
  pub manual_query_threshold_seconds : ℕ
  pub manual_query_excluded_users : String
  pub weekly_report_enabled : Bool
  pub weekly_report_day : ℕ
  pub weekly_report_hour : ℕ
  pub report_base_url : String
  pub report_retention_days : ℕ
  pub resolved_alert_retention_days : ℕ
  pub last_cleanup_at : Option ℕ
  pub last_weekly_report_at : Option ℕ

-- The row that `load` creates where there is none: the defaults of the fields.
abbrev pub default_settings : NotificationSettings
default_settings = record {
  channel_webhook_url = "";
  threshold_seconds = 120;
  interval_seconds = 30;
  lock_storm_threshold = 100;
  notification_schedule_enabled = false;
  notification_start_time = 32400;
  notification_end_time = 75600;
  manual_query_alert_enabled = false;
  manual_query_threshold_seconds = 60;
  manual_query_excluded_users = "applms,applos";
  weekly_report_enabled = false;
  weekly_report_day = 0;
  weekly_report_hour = 9;
  report_base_url = "";
  report_retention_days = 7;
  resolved_alert_retention_days = 30;
  last_cleanup_at = none;
  last_weekly_report_at = none;
}
