-- ===== src/Tests/Monitoring.antt =====
-- Cycles of the monitor.
use healthgrid.Prelude.{true, false, ◌<◌, ◌≤◌, ◌↔◌, ◌⊎◌, List, [], ◌∷◌, ◌≡◌, refl, arith, not}
use healthgrid.Results.{ok}
use healthgrid.Models.Alerts.{LockAlert, Table}
use healthgrid.Notifications.Schedule.{lock_notifications_open}
use healthgrid.Notifications.Schedule.Window.{swap_window, open_window}
use healthgrid.Monitor.State.{MonitorState}
use healthgrid.Monitor.Alerts.{sync_alerts}
use healthgrid.Monitor.Alerts.Steps.{IsValid}
use healthgrid.Monitor.Alerts.Synced.{Synced, sync_alerts-Synced}
use healthgrid.Monitor.Cycle.{process_instance}
use healthgrid.Monitor.Cycle.Outcome.{process_instance-Synced}
use healthgrid.Tests.Data.{orders, settings, morning, blocking_row, alerts, up, library, fresh}

alerts-IsValid : IsValid alerts
alerts-IsValid = record {
  distinct = (tt, tt);
  below = (omega arith, tt);
  unique = λ i key. ground arith;
}

sync_alerts-Synced_example :
    (t' : Table LockAlert) × (gone : List LockAlert) × (sync_alerts 1 120 morning
        (blocking_row 11 20 ∷ blocking_row 11 20 ∷ [])
        alerts
      ≡ ok (t', gone))
    × Synced 1 (blocking_row 11 20 ∷ blocking_row 11 20 ∷ []) alerts t'
sync_alerts-Synced_example =
    sync_alerts-Synced 1 120 morning (blocking_row 11 20 ∷ blocking_row 11 20 ∷ []) alerts
      alerts-IsValid
      (
        record { blocked = 11; blocking = 20; blocked_known = refl; blocking_known = refl },
        (record { blocked = 11; blocking = 20; blocked_known = refl; blocking_known = refl }, tt),
      )

abbrev monitor_state : MonitorState
monitor_state = record {
  locks = alerts;
  long_queries = record { rows = []; next_pk = 1 };
  states = fresh ∷ [];
  sent = [];
}

process_instance-Synced_example :
    Synced 1
      (blocking_row 11 20 ∷ [])
      alerts
      (process_instance library up [] settings orders morning
        (ok ([], blocking_row 11 20 ∷ []))
        monitor_state).1.locks
process_instance-Synced_example =
    process_instance-Synced library up [] settings orders morning [] (blocking_row 11 20 ∷ [])
      monitor_state alerts-IsValid
      (record { blocked = 11; blocking = 20; blocked_known = refl; blocking_known = refl }, tt)

-- 10:30 in IST
open_window_example :
    ((lock_notifications_open settings morning ≡ true) ↔ (
      (settings.notification_schedule_enabled ≡ false)
      ⊎ (settings.notification_start_time ≡ settings.notification_end_time)
      ⊎ ((settings.notification_start_time ≤ 37800) × (37800 < settings.notification_end_time))
      ⊎ ((settings.notification_end_time < settings.notification_start_time)
          × ((settings.notification_start_time ≤ 37800)
              ⊎ (37800 < settings.notification_end_time)))))
    × ((settings.notification_schedule_enabled ≡ false)
        ⊎ (settings.notification_start_time ≡ settings.notification_end_time)
        ⊎ (lock_notifications_open (swap_window settings) morning
            ≡ not (lock_notifications_open settings morning)))
open_window_example = open_window settings morning 0 37800 (omega arith) refl
