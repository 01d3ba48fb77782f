-- ===== src/Background.antt =====
-- monitor/background.py: the lease, the weekly report and the cleanup of the monitor's loop.
pub mod Lease
pub mod Weekly
pub mod Cleanup
use healthgrid.Prelude.{
  ℕ, ◌+◌, ◌*◌, ◌/◌, ◌%◌, String, Bool, true, false, not, ◌&&◌, ◌||◌, Option, none, some, List, [],
  ◌∷◌, ltb, leb, is_blank, is_none, nat_eq, string_eq, ◌==◌, if◌then◌else◌,
}
use healthgrid.Prelude.Tables.{count_where, delete_where}
use healthgrid.Results.{Result, ok, raise, type_error}
use healthgrid.Models.Alerts.{LockAlert, LongQueryAlert}
use healthgrid.Models.Reports.{LockReport, MonitorLease}
use healthgrid.Models.Settings.{NotificationSettings}
use healthgrid.Notifications.Schedule.{ist_offset, day_seconds, ist_time}

abbrev pub max : ℕ → ℕ → ℕ
max a b = if ltb a b then b else a

-- `timedelta(seconds=max(60, interval * 2))`
abbrev pub lease_seconds : ℕ → ℕ
lease_seconds interval = max 60 (interval * 2)

-- `lease.lease_until > now`, which raises on a lease without an end
abbrev pub is_running : Option ℕ → ℕ → Result Bool
is_running none now = raise type_error
is_running (some lease_until) now = ok (ltb now lease_until)

-- The test of the `if`, read from left to right.
unfoldable pub is_taken : String → ℕ → MonitorLease → Result Bool
is_taken owner_id now lease =
    if is_blank lease.owner_id
    then ok false
    else if lease.owner_id == owner_id
    then ok false
    else is_running lease.lease_until now

abbrev pub take_lease : String → ℕ → MonitorLease → Result Bool → Result (Bool × MonitorLease)
take_lease owner_id lease_until lease (raise e) = raise e
take_lease owner_id lease_until lease (ok true) = ok (false, lease)
take_lease owner_id lease_until lease (ok false) =
    ok (true, record { owner_id = owner_id; lease_until = some lease_until })

unfoldable pub acquire_monitor_lease : String → ℕ → ℕ → MonitorLease → Result (Bool × MonitorLease)
unfolding is_taken
acquire_monitor_lease owner_id now interval lease =
    take_lease owner_id (now + lease_seconds interval) lease (is_taken owner_id now lease)

abbrev pub ist_day : ℕ → ℕ
ist_day now = (now + ist_offset) / day_seconds

-- `weekday()`: day 0 of the epoch is a Thursday, and Monday is 0.
abbrev pub weekday : ℕ → ℕ
weekday now = (ist_day now + 3) % 7

-- `isocalendar()[:2]`, as the number of the week since the epoch, from Monday to Sunday
abbrev pub iso_week : ℕ → ℕ
iso_week now = (ist_day now + 3) / 7

abbrev pub ist_hour : ℕ → ℕ
ist_hour now = ist_time now / 3600

abbrev pub sent_this_week : ℕ → Option ℕ → Bool
sent_this_week now none = false
sent_this_week now (some last) = iso_week last == iso_week now

-- The tests before the report is sent.
unfoldable pub is_report_due : NotificationSettings → ℕ → Bool
is_report_due config now =
    if not config.weekly_report_enabled
    then false
    else if not (weekday now == config.weekly_report_day)
        || ltb (ist_hour now) config.weekly_report_hour
    then false
    else not (sent_this_week now config.last_weekly_report_at)

module _ {S : Type 0} (send_weekly_reports : ℕ → S → Bool × S) where
  -- `send_weekly_reports` works on the rest of the state; the configuration moves on only if it
  -- delivered.
  unfoldable pub maybe_send_weekly_report :
      ℕ → NotificationSettings → S → Bool × NotificationSettings × S
  unfolding is_report_due
  maybe_send_weekly_report now config s =
      if is_report_due config now
      then (let (delivered, s') = send_weekly_reports now s in
          (
            delivered,
            if delivered then record config { last_weekly_report_at = some now } else config,
            s',
          ))
      else (false, config, s)

-- The tables that the cleanup works on.
pub record History : Type 0 where
  pub config : NotificationSettings
  pub alerts : List LockAlert
  pub long_queries : List LongQueryAlert
  pub reports : List LockReport

-- `resolved_at < now - timedelta(days=…)`
abbrev pub resolved_before : ℕ → ℕ → Option ℕ → Bool
resolved_before now days none = false
resolved_before now days (some resolved_at) = ltb (resolved_at + days * day_seconds) now

abbrev pub cleaned_recently : ℕ → Option ℕ → Bool
cleaned_recently now none = false
cleaned_recently now (some last) = ltb now (last + 24 * 3600)

abbrev pub retention_days : NotificationSettings → ℕ
retention_days config = max 1 config.resolved_alert_retention_days

abbrev pub is_old_alert : ℕ → NotificationSettings → LockAlert → Bool
is_old_alert now config a = resolved_before now (retention_days config) a.resolved_at

abbrev pub is_old_query : ℕ → NotificationSettings → LongQueryAlert → Bool
is_old_query now config a = resolved_before now (retention_days config) a.resolved_at

abbrev pub is_expired : ℕ → LockReport → Bool
is_expired now r = ltb r.expires_at now

unfoldable pub cleanup_monitor_history : ℕ → History → (ℕ × ℕ) × History
cleanup_monitor_history now h =
    if cleaned_recently now h.config.last_cleanup_at then ((0, 0), h) else (
      (
        count_where (is_old_alert now h.config) h.alerts
            + count_where (is_old_query now h.config) h.long_queries,
        count_where (is_expired now) h.reports,
      ),
      record {
        config = record (h.config) { last_cleanup_at = some now };
        alerts = delete_where (is_old_alert now h.config) h.alerts;
        long_queries = delete_where (is_old_query now h.config) h.long_queries;
        reports = delete_where (is_expired now) h.reports;
      },
    )
