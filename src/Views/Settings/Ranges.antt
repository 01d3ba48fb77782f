-- ===== src/Views/Settings/Ranges.antt =====
-- The ranges of the stored notification settings.
use healthgrid.Prelude.{
  ℕ, ℤ, pos, negsuc, max_zero, ◌≤◌, ◌<◌, String, Bool, true, false, not, ◌&&◌, ◌||◌, [], ◌∷◌,
  is_blank, text_length, strip, strip_right, nat_beq, ltb, nat_eq, ◌==◌, ◌≡◌, ◌⊎◌, arith,
}
use healthgrid.Results.{Post, Result, ok, raise, permission_denied}
use healthgrid.Effects.{Exec, modify, when, ◌>>◌}
use healthgrid.Models.Accounts.{AccessTables}
use healthgrid.Models.Settings.{NotificationSettings}
use healthgrid.Access.{can_manage_global_notifications}
use healthgrid.Views.{Flash, Request, flash}
use healthgrid.Views.Keeps.{Keeps, Any, Keeps-if, Keeps-guard}
use healthgrid.Views.Settings.{
  SettingsTables, State, SettingsForm, Values, is_refused, is_none_of, out_of_range, with_values,
  save_values, save_read, save_settings, read_values, notification_settings, exclude_instances,
  range_message,
}

-- What the monitor and the reports rely on.
pub record InRange (c : NotificationSettings) : Type 0 where
  pub threshold : 1 ≤ c.threshold_seconds
  pub interval : 1 ≤ c.interval_seconds
  pub storm : c.lock_storm_threshold ≤ 100000
  pub day : c.weekly_report_day < 7
  pub hour : c.weekly_report_hour < 24
  pub report_retention :
      (c.report_retention_days ≡ 2)
      ⊎ ((c.report_retention_days ≡ 3) ⊎ (c.report_retention_days ≡ 7))
  pub retention_low : 7 ≤ c.resolved_alert_retention_days
  pub retention_high : c.resolved_alert_retention_days ≤ 3650
  pub window :
      (not c.notification_schedule_enabled
        || not (c.notification_start_time == c.notification_end_time))
      ≡ true
  pub manual : 1 ≤ c.manual_query_threshold_seconds
  pub users : text_length c.manual_query_excluded_users ≤ 4000
  pub webhook : text_length c.channel_webhook_url ≤ 2048
  pub base_url : text_length c.report_base_url ≤ 2048

one_of :
    (n : ℤ)
    → is_none_of (2 ∷ 3 ∷ 7 ∷ []) n ≡ false
    → (max_zero n ≡ 2) ⊎ ((max_zero n ≡ 3) ⊎ (max_zero n ≡ 7))
one_of (pos n) h = ground arith
one_of (negsuc n) h = cc

in_range : (k : ℕ) (n : ℤ) → out_of_range k n ≡ false → max_zero n < k
in_range k n h = ground arith

with_values-InRange :
    (form : SettingsForm) (webhook base : String) (v : Values) (c : NotificationSettings)
    → is_refused form.notification_schedule_enabled v ≡ false
    → ltb 2048 (text_length webhook) ≡ false
    → ltb 2048 (text_length base) ≡ false
    → InRange (with_values form webhook base v c)
unfolding with_values is_refused
with_values-InRange form webhook base v c h hw hb = record {
  threshold = ground (arith, h);
  interval = ground (arith, h);
  storm = ground (arith, h);
  day = in_range 7 v.report_day (ground (arith, h));
  hour = in_range 24 v.report_hour (ground (arith, h));
  report_retention = one_of v.report_retention_days (ground (arith, h));
  retention_low = ground (arith, h);
  retention_high = ground (arith, h);
  window = ground (arith, h);
  manual = ground (arith, h);
  users = ground (arith, h);
  webhook = ground (arith, hw);
  base_url = ground (arith, hb);
}

abbrev AllInRange : SettingsTables → Type 0
AllInRange t = InRange t.config

abbrev Quiet : Exec State (Unit {0}) → Type 0
Quiet m = Keeps AllInRange Any m

module _ (valid_url : String → Bool) (casefold : String → String) (t : AccessTables)
    (q : Request) where
  save_values-Quiet :
      (form : SettingsForm) (webhook base : String) (v : Values)
      → ((c : NotificationSettings) → InRange (with_values form webhook base v c))
      → Quiet (save_values valid_url casefold t q form webhook base v)
  save_values-Quiet form webhook base v fits s h =
      go (form.global_scope_submitted && q.user.is_superuser)
    where
      saved : State
      saved = record s {
        target = record (s.target) { config = with_values form webhook base v (s.target).config };
      }

      update : Exec State (Unit {0})
      update = modify (λ s. record s {
        target = record (s.target) {
          instances = exclude_instances form.excluded_instance_ids (s.target).instances;
        };
      })

      done : Exec State (Unit {0})
      done = flash (Flash.success "Notification settings saved.")

      go :
          (b : Bool)
          → InRange ((when b update >> done) saved).1.target.config
            × Post Any ((when b update >> done) saved).0
      go true = (fits (s.target).config, tt)
      go false = (fits (s.target).config, tt)

  save_read-Quiet :
      (form : SettingsForm) (webhook base : String) (r : Result Values)
      → ltb 2048 (text_length webhook) ≡ false
      → ltb 2048 (text_length base) ≡ false
      → Quiet (save_read valid_url casefold t q form webhook base r)
  save_read-Quiet form webhook base (raise e) hw hb = λ s h. (h, tt)
  save_read-Quiet form webhook base (ok v) hw hb =
      Keeps-if AllInRange Any (is_refused form.notification_schedule_enabled v)
        (flash (Flash.error (range_message valid_url casefold t q)))
        (save_values valid_url casefold t q form webhook base v) (λ _ s h. (h, tt))
        (λ fine.
          save_values-Quiet form webhook base v
            (λ c. with_values-InRange form webhook base v c fine hw hb))

  save_settings-Quiet :
      (form : SettingsForm) (webhook base : String)
      → Quiet (save_settings valid_url casefold t q form webhook base)
  unfolding save_settings
  save_settings-Quiet form webhook base =
      Keeps-if AllInRange Any (ltb 2048 (text_length webhook)) _ _ (λ _ s h. (h, tt))
        (λ hw.
          Keeps-if AllInRange Any (not (is_blank webhook) && not (valid_url webhook)) _ _
            (λ _ s h. (h, tt))
            (λ _.
              Keeps-if AllInRange Any (ltb 2048 (text_length base)) _ _ (λ _ s h. (h, tt))
                (λ hb.
                  Keeps-if AllInRange Any (not (is_blank base) && not (valid_url base)) _ _
                    (λ _ s h. (h, tt))
                    (λ _. save_read-Quiet form webhook base (read_values casefold form) hw hb))))

  -- No post of the settings form, by whomever and whatever it holds, takes the stored settings out
  -- of their ranges: positive thresholds and interval, a storm threshold of at most 100000, a day
  -- of the week and an hour, report links of 2, 3 or 7 days, incidents kept 7 to 3650 days, and a
  -- window that is not empty where the schedule is on.
  pub notification_settings-InRange :
      (form : SettingsForm) (s : State)
      → InRange (s.target).config
      → InRange (notification_settings valid_url casefold t q form s).1.target.config
  unfolding notification_settings
  notification_settings-InRange form s h =
      (Keeps-guard AllInRange Any (can_manage_global_notifications t q.user) permission_denied _
        (save_settings-Quiet form (strip form.channel_webhook_url)
          (strip_right (λ c. nat_beq c 47) (strip form.report_base_url)))
        s h).0
