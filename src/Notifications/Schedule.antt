-- ===== src/Notifications/Schedule.antt =====
-- `lock_notifications_open`: the delivery window in the time zone of the cards.
pub mod Window
use healthgrid.Prelude.{
  ℕ, ◌+◌, ◌*◌, ◌%◌, Bool, true, not, ◌&&◌, ◌||◌, leb, ltb, nat_eq, ◌==◌, if◌then◌else◌,
}
use healthgrid.Models.Settings.{NotificationSettings}

-- Asia/Kolkata is 5:30 ahead of UTC all year.
abbrev pub ist_offset : ℕ
ist_offset = 19800

abbrev pub day_seconds : ℕ
day_seconds = 86400

-- `timezone.localtime(now, DISPLAY_TIMEZONE).time()`, in whole seconds
abbrev pub ist_time : ℕ → ℕ
ist_time now = (now + ist_offset) % day_seconds

unfoldable pub lock_notifications_open : NotificationSettings → ℕ → Bool
lock_notifications_open config now =
    let local_time = ist_time now in
    let start = config.notification_start_time in
    let end = config.notification_end_time in
    if not config.notification_schedule_enabled
    then true
    else if start == end
    then true
    else if ltb start end
    then leb start local_time && ltb local_time end
    else leb start local_time || ltb local_time end
