-- ===== src/Monitor/Cycle.antt =====
-- `process_instance` of monitor_locks.py: one cycle of the monitor over one instance.
pub mod Outcome
use healthgrid.Prelude.{
  ℕ, String, Bool, true, false, not, ◌&&◌, ◌||◌, none, some, List, [], ◌∷◌, ◌++◌, is_none, is_some,
  ltb, leb, sorted, nat_eq, ◌==◌, if◌then◌else◌,
}
use healthgrid.Prelude.Tables.{select, update_where}
use healthgrid.Results.{Result, ok, raise}
use healthgrid.Effects.{Exec, pure, lift, gets, modify, continue, ◌>>=◌, ◌>>◌}
use healthgrid.Models.Alerts.{
  ActivityRow, BlockingRow, LockAlert, LockNotificationState, Table, new_notification_state,
}
use healthgrid.Models.Instances.{RdsInstance}
use healthgrid.Models.Settings.{NotificationSettings}
use healthgrid.Notifications.Webhooks.{Web}
use healthgrid.Monitor.Alerts.{is_active, sync_alerts}
use healthgrid.Monitor.State.{MonitorState, Library}
use healthgrid.Monitor.LongQueries.{process_long_queries}
use healthgrid.Monitor.Notify.{update_notifications}

-- `order_by("blocked_pid", "blocking_pid")`
unfoldable pub leb_pids : LockAlert → LockAlert → Bool
leb_pids a b =
    ltb a.blocked_pid b.blocked_pid
    || (a.blocked_pid == b.blocked_pid && leb a.blocking_pid b.blocking_pid)

unfoldable pub all_active_alerts : ℕ → Table LockAlert → List LockAlert
unfolding leb_pids
all_active_alerts i t = sorted leb_pids (select (is_active i) t.rows)

unfoldable pub eligible_alerts : ℕ → Table LockAlert → List LockAlert
unfolding leb_pids
eligible_alerts i t = sorted leb_pids (select (λ a. is_active i a && is_some a.alerted_at) t.rows)

-- `LockNotificationState.objects.get_or_create(instance=instance)`
unfoldable pub notification_state : ℕ → List LockNotificationState → LockNotificationState
notification_state i [] = new_notification_state i
notification_state i (st ∷ rest) = if st.instance_id == i then st else notification_state i rest

-- The row of the instance, replaced, or added when it was just made.
unfoldable pub save_state :
    LockNotificationState → List LockNotificationState → List LockNotificationState
save_state st [] = st ∷ []
save_state st (row ∷ rest) =
    if row.instance_id == st.instance_id then st ∷ rest else row ∷ save_state st rest

abbrev pub save_locks : Table LockAlert → MonitorState → MonitorState
save_locks t s = record s { locks = t }

module _ (lib : Library) (web : Web) (allowed : List String) where
  -- The last transaction.
  unfoldable pub notify_changes :
      NotificationSettings → RdsInstance → ℕ → List LockAlert → MonitorState → MonitorState
  unfolding notification_state save_state
  notify_changes config r now gone s =
      let (st, sent) =
        update_notifications lib web allowed config r now (eligible_alerts r.pk s.locks)
          (all_active_alerts r.pk s.locks) gone (notification_state r.pk s.states) s.sent in
      record s { states = save_state st s.states; sent = sent }

  -- `fetched` is what `db.fetch_activity` returned or raised.
  unfoldable pub process_instance :
      NotificationSettings
      → RdsInstance
      → ℕ
      → Result (List ActivityRow × List BlockingRow)
      → Exec MonitorState (Unit {0})
  process_instance config r now fetched = do
    (activity, blocking) ← lift fetched
    table ← gets (λ s. s.locks)
    (t', gone) ← lift (sync_alerts r.pk config.threshold_seconds now blocking table)
    modify (save_locks t')
    process_long_queries lib web allowed r activity config now
    modify (notify_changes config r now gone)
