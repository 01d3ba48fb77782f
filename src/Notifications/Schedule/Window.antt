-- ===== src/Notifications/Schedule/Window.antt =====
-- The window is a half-open interval of the day, also across midnight.
use healthgrid.Prelude.{ℕ, ◌+◌, ◌*◌, ◌≤◌, ◌<◌, ◌≡◌, ◌↔◌, ◌⊎◌, true, false, not, arith}
use healthgrid.Models.Settings.{NotificationSettings}
use healthgrid.Notifications.Schedule.{lock_notifications_open, ist_time}

-- The settings with the two ends of the window exchanged.
abbrev pub swap_window : NotificationSettings → NotificationSettings
swap_window config = record config {
  notification_start_time = config.notification_end_time;
  notification_end_time = config.notification_start_time;
}

-- At second `s` of any local day, which is 19,800 s ahead of UTC, the window is open exactly where
-- the schedule is off, where its two times are equal, where `s` is from the start on and before a
-- later end, or, with an end before the start, where `s` is from the start on or before the end. And
-- where neither of the first two holds, exchanging the two times opens exactly the hours that were
-- closed.
pub open_window :
    (config : NotificationSettings) (now day s : ℕ)
    → s < 86400
    → now + 19800 ≡ day * 86400 + s
    → let start = config.notification_start_time in
      let end = config.notification_end_time in
      ((lock_notifications_open config now ≡ true) ↔ (
        (config.notification_schedule_enabled ≡ false)
        ⊎ (start ≡ end)
        ⊎ ((start ≤ s) × (s < end))
        ⊎ ((end < start) × ((start ≤ s) ⊎ (s < end)))))
      × ((config.notification_schedule_enabled ≡ false)
          ⊎ (start ≡ end)
          ⊎ (lock_notifications_open (swap_window config) now
              ≡ not (lock_notifications_open config now)))
unfolding lock_notifications_open
open_window config now day s small local =
    let clock : ist_time now ≡ s = omega arith in
    rw clock ((λ o. ground arith, λ h. ground arith), ground arith)
