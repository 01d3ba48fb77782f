-- ===== src/Tests/Settings.antt =====
-- The form of the notification settings.
use healthgrid.Prelude.{pos, true, none, some, [], ◌∷◌, ◌≡◌, refl, arith, inr, text_length}
use healthgrid.Models.Settings.{default_settings}
use healthgrid.Mfa.{empty_session}
use healthgrid.Access.{can_manage_global_notifications}
use healthgrid.Views.Settings.{
  State, SettingsForm, read_values, is_refused, with_values, save_settings, notification_settings,
}
use healthgrid.Views.Settings.Ranges.{InRange, notification_settings-InRange}
use healthgrid.Tests.Data.{orders}
use healthgrid.Tests.Servers.{no_grants}
use healthgrid.Tests.Registry.{administrator}

abbrev before : State
before = record {
  target = record { config = default_settings; instances = orders ∷ [] };
  locks = record { rows = []; next_pk = 1 };
  audit_logs = [];
  executions = [];
  next_execution = 1;
  session = empty_session;
  profile = none;
  messages = [];
}

abbrev form : SettingsForm
form = record {
  channel_webhook_url = " https://channel ";
  report_base_url = "https://grid/";
  threshold_seconds = some (pos 60);
  interval_seconds = some (pos 15);
  lock_storm_threshold = some (pos 0);
  weekly_report_day = some (pos 6);
  weekly_report_hour = some (pos 23);
  report_retention_days = some (pos 3);
  resolved_alert_retention_days = some (pos 3650);
  notification_schedule_enabled = true;
  notification_start_time = some 0;
  notification_end_time = some 60;
  manual_query_alert_enabled = true;
  manual_query_threshold_seconds = some (pos 1);
  manual_query_excluded_users = "b, a,,b";
  weekly_report_enabled = true;
  global_scope_submitted = true;
  excluded_instance_ids = 1 ∷ [];
}

default-InRange : InRange default_settings
unfolding text_length
default-InRange = record {
  threshold = omega arith;
  interval = omega arith;
  storm = omega arith;
  day = omega arith;
  hour = omega arith;
  report_retention = inr (inr refl);
  retention_low = omega arith;
  retention_high = omega arith;
  window = refl;
  manual = omega arith;
  users = omega arith;
  webhook = omega arith;
  base_url = omega arith;
}

abbrev after : State
after = (notification_settings (λ _. true) (λ s. s) no_grants administrator form before).1

notification_settings-InRange_example : InRange (after.target).config
notification_settings-InRange_example =
    notification_settings-InRange (λ _. true) (λ s. s) no_grants administrator form before
      default-InRange

-- The fields that the post stores, and that it stores them.
stored : ((after.target).config).manual_query_excluded_users ≡ "a,b"
unfolding notification_settings save_settings read_values is_refused with_values
    can_manage_global_notifications
stored = refl

stored_url : ((after.target).config).channel_webhook_url ≡ "https://channel"
unfolding notification_settings save_settings read_values is_refused with_values
    can_manage_global_notifications
stored_url = refl
