-- ===== src/Views/Settings.antt =====
-- `notification_settings` of monitor/views.py: the form of the global notification settings.
pub mod Ranges
use healthgrid.Prelude.{
  ℕ, ℤ, pos, negsuc, max_zero, ltb_ℤ, String, Bool, true, false, not, ◌&&◌, ◌||◌, Option, none,
  some, List, [], ◌∷◌, map, contains, insert_key, sorted, leb_text, is_blank, strip, strip_right,
  split_at, join, text_length, ltb, nat_beq, nat_eq, string_eq, ◌==◌, if◌then◌else◌,
}
use healthgrid.Prelude.Tables.{select, update_where}
use healthgrid.Results.{Result, ok, raise, value_error, permission_denied, ◌>>=◌ as ◌>>>◌}
use healthgrid.Effects.{Exec, modify, guard, when, ◌>>=◌, ◌>>◌}
use healthgrid.Models.Accounts.{AccessTables}
use healthgrid.Models.Instances.{RdsInstance}
use healthgrid.Models.Settings.{NotificationSettings}
use healthgrid.Access.{can_manage_global_notifications}
use healthgrid.Views.{Flash, ViewState, Request, flash}

-- The singleton row, and the instances that it may exclude.
pub record SettingsTables : Type 0 where
  pub config : NotificationSettings
  pub instances : List RdsInstance

abbrev pub State : Type 0
State = ViewState SettingsTables

-- The posted fields. A number is what `int` makes of the text, a time what `strptime` does, in
-- seconds; `none` stands for their `ValueError`.
pub record SettingsForm : Type 0 where
  pub channel_webhook_url : String
  pub report_base_url : String
  pub threshold_seconds : Option ℤ
  pub interval_seconds : Option ℤ
  pub lock_storm_threshold : Option ℤ
  pub weekly_report_day : Option ℤ
  pub weekly_report_hour : Option ℤ
  pub report_retention_days : Option ℤ
  pub resolved_alert_retention_days : Option ℤ
  pub notification_schedule_enabled : Bool
  pub notification_start_time : Option ℕ
  pub notification_end_time : Option ℕ
  pub manual_query_alert_enabled : Bool
  pub manual_query_threshold_seconds : Option ℤ
  pub manual_query_excluded_users : String
  pub weekly_report_enabled : Bool
  pub global_scope_submitted : Bool
  pub excluded_instance_ids : List ℕ

-- The values once they are read.
pub record Values : Type 0 where
  pub threshold : ℤ
  pub interval : ℤ
  pub lock_storm_threshold : ℤ
  pub report_day : ℤ
  pub report_hour : ℤ
  pub report_retention_days : ℤ
  pub retention_days : ℤ
  pub schedule_start : ℕ
  pub schedule_end : ℕ
  pub manual_query_threshold : ℤ
  pub excluded_users : String

abbrev read {ℓ} : {A : Type ℓ} → Option A → Result A
read none = raise value_error
read (some a) = ok a

-- `{username.strip() for … if username.strip()}`, in the order of the form
abbrev distinct : List String → List String → List String
distinct seen [] = seen
distinct seen (x ∷ xs) = distinct (insert_key x seen) xs

-- `",".join(sorted(…, key=str.casefold))`
unfoldable pub user_list : (String → String) → String → String
unfolding strip sorted
user_list casefold text = join "," (
    sorted (λ a b. leb_text (casefold a) (casefold b))
      (distinct [] (select (λ s. not (is_blank s)) (map strip (split_at 44 text)))))

-- The `try` that reads the fields.
unfoldable pub read_values : (String → String) → SettingsForm → Result Values
unfolding user_list
read_values casefold form = read form.threshold_seconds >>> λ threshold.
    read form.interval_seconds >>> λ interval. read form.lock_storm_threshold >>> λ storm.
    read form.weekly_report_day >>> λ day. read form.weekly_report_hour >>> λ hour.
    read form.report_retention_days >>> λ report_days.
    read form.resolved_alert_retention_days >>> λ days.
    read form.notification_start_time >>> λ start. read form.notification_end_time >>> λ end.
    read form.manual_query_threshold_seconds >>> λ manual. ok (record {
      threshold = threshold;
      interval = interval;
      lock_storm_threshold = storm;
      report_day = day;
      report_hour = hour;
      report_retention_days = report_days;
      retention_days = days;
      schedule_start = start;
      schedule_end = end;
      manual_query_threshold = manual;
      excluded_users = user_list casefold form.manual_query_excluded_users;
    })

-- `n not in range(k)` and `n not in {…}`
abbrev pub out_of_range : ℕ → ℤ → Bool
out_of_range k n = ltb_ℤ n (pos 0) || not (ltb_ℤ n (pos k))

abbrev pub is_none_of : List ℕ → ℤ → Bool
is_none_of choices (pos n) = not (contains n choices)
is_none_of choices (negsuc n) = true

-- The test of the values.
unfoldable pub is_refused : Bool → Values → Bool
is_refused schedule_enabled v =
    ltb_ℤ v.threshold (pos 1)
    || (ltb_ℤ v.interval (pos 1)
        || (ltb_ℤ v.lock_storm_threshold (pos 0)
            || (ltb_ℤ (pos 100000) v.lock_storm_threshold
                || (out_of_range 7 v.report_day
                    || (out_of_range 24 v.report_hour
                        || (is_none_of (2 ∷ 3 ∷ 7 ∷ []) v.report_retention_days
                            || (ltb_ℤ v.retention_days (pos 7)
                                || (ltb_ℤ (pos 3650) v.retention_days
                                    || ((schedule_enabled && v.schedule_start == v.schedule_end)
                                        || (ltb_ℤ v.manual_query_threshold (pos 1)
                                            || ltb 4000 (text_length v.excluded_users)))))))))))

-- The fields that are saved.
unfoldable pub with_values :
    SettingsForm → String → String → Values → NotificationSettings → NotificationSettings
with_values form webhook_url report_base_url v config = record config {
  channel_webhook_url = webhook_url;
  threshold_seconds = max_zero v.threshold;
  interval_seconds = max_zero v.interval;
  lock_storm_threshold = max_zero v.lock_storm_threshold;
  notification_schedule_enabled = form.notification_schedule_enabled;
  notification_start_time = v.schedule_start;
  notification_end_time = v.schedule_end;
  manual_query_alert_enabled = form.manual_query_alert_enabled;
  manual_query_threshold_seconds = max_zero v.manual_query_threshold;
  manual_query_excluded_users = v.excluded_users;
  weekly_report_enabled = form.weekly_report_enabled;
  weekly_report_day = max_zero v.report_day;
  weekly_report_hour = max_zero v.report_hour;
  report_base_url = report_base_url;
  report_retention_days = max_zero v.report_retention_days;
  resolved_alert_retention_days = max_zero v.retention_days;
}

-- The two updates of the excluded instances.
unfoldable pub exclude_instances : List ℕ → List RdsInstance → List RdsInstance
exclude_instances excluded_ids instances =
    update_where (λ r. r.is_active && contains r.pk excluded_ids)
      (λ r. record r { exclude_from_global_notifications = true })
      (update_where (λ r. r.is_active) (λ r. record r { exclude_from_global_notifications = false })
        instances)

-- `URLValidator` is `valid_url`, and `casefold` that of Python's texts.
module _ (valid_url : String → Bool) (casefold : String → String) (t : AccessTables)
    (q : Request) where
  abbrev pub save_values : SettingsForm → String → String → Values → Exec State (Unit {0})
  save_values form webhook_url report_base_url v = do
    modify (λ s. record s {
      target = record (s.target) {
        config = with_values form webhook_url report_base_url v (s.target).config;
      };
    })
    when (form.global_scope_submitted && q.user.is_superuser) (
        modify (λ s. record s {
          target = record (s.target) {
            instances = exclude_instances form.excluded_instance_ids (s.target).instances;
          };
        }))
    flash (Flash.success "Notification settings saved.")

  abbrev pub range_message : String
  range_message =
      "Use valid thresholds, a lock-storm threshold from 0 to 100000, different notification start/end times, report retention of 2, 3, or 7 days, resolved retention from 7 to 3650 days, and a valid excluded-user list."

  abbrev pub save_read : SettingsForm → String → String → Result Values → Exec State (Unit {0})
  save_read form webhook_url report_base_url (raise e) =
      flash (Flash.error "Enter valid numeric values and notification times in HH:MM format.")
  save_read form webhook_url report_base_url (ok v) =
      if is_refused form.notification_schedule_enabled v
      then flash (Flash.error range_message)
      else save_values form webhook_url report_base_url v

  -- The tests of the two URLs.
  unfoldable pub save_settings : SettingsForm → String → String → Exec State (Unit {0})
  unfolding read_values is_refused with_values exclude_instances text_length
  save_settings form webhook_url report_base_url =
      if ltb 2048 (text_length webhook_url)
      then flash (Flash.error "The Teams webhook URL must be 2048 characters or fewer.")
      else if not (is_blank webhook_url) && not (valid_url webhook_url)
      then flash (Flash.error "Enter a valid Teams webhook URL or leave the field blank.")
      else if ltb 2048 (text_length report_base_url)
      then flash (Flash.error "The public dashboard URL must be 2048 characters or fewer.")
      else if not (is_blank report_base_url) && not (valid_url report_base_url)
      then flash (Flash.error "Enter a valid public dashboard URL or leave the field blank.")
      else save_read form webhook_url report_base_url (read_values casefold form)

  -- A POST; `rstrip("/")` takes off the code 47.
  unfoldable pub notification_settings : SettingsForm → Exec State (Unit {0})
  unfolding save_settings strip
  notification_settings form = do
    guard (can_manage_global_notifications t q.user) permission_denied
    save_settings form (strip form.channel_webhook_url)
        (strip_right (λ c. nat_beq c 47) (strip form.report_base_url))
