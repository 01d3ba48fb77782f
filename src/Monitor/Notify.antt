-- ===== src/Monitor/Notify.antt =====
-- The last transaction of `process_instance` in monitor_locks.py: which summary of the incidents is
-- sent, and what is remembered of it. The state is one row of `LockNotificationState`.
pub mod Announcements
pub mod Branches
pub mod Repeats
pub mod Storms
use healthgrid.Prelude.{
  ℕ, String, Bool, true, false, not, ◌&&◌, some, List, [], map, length, leb, is_empty, contains,
  sorted, leb_text, join, nat_eq, string_eq, ◌==◌, if◌then◌else◌,
}
use healthgrid.Prelude.Tables.{select}
use healthgrid.Models.Alerts.{LockAlert, LockNotificationState}
use healthgrid.Models.Instances.{RdsInstance}
use healthgrid.Models.Settings.{NotificationSettings}
use healthgrid.Notifications.Schedule.{lock_notifications_open}
use healthgrid.Notifications.Cards.{Event, LockCard, Request, initial, update, cleared, storm}
use healthgrid.Notifications.Webhooks.{Web}
use healthgrid.Notifications.Delivery.{from_keys, notify_lock_summary}
use healthgrid.Monitor.State.{Library}

-- `sorted(alert.alert_key for alert in alerts)`
unfoldable pub sorted_keys : List LockAlert → List String
sorted_keys alerts = sorted leb_text (map (λ a. a.alert_key) alerts)

-- `summary_fingerprint`
unfoldable pub summary_fingerprint : Library → List LockAlert → String
summary_fingerprint lib alerts = lib.sha256 (join "\0" (sorted_keys alerts))

-- `sorted(set(previous) - set(current))`
unfoldable pub cleared_keys_of : List String → List String → List String
cleared_keys_of previous current =
    sorted leb_text (from_keys [] (select (λ k. not (contains k current)) previous))

-- The three cases of `event`.
unfoldable pub event_of : List String → List String → Event
event_of previous current =
    if is_empty previous && not (is_empty current)
    then initial
    else if not (is_empty previous) && is_empty current
    then cleared
    else update

-- What the branch of a closed window saves.
abbrev pub remember : List String → LockNotificationState → LockNotificationState
remember current st = record st { last_fingerprint = ""; last_active_keys = current }

-- What a delivered summary saves.
abbrev pub delivered_state :
    String → List String → ℕ → LockNotificationState → LockNotificationState
delivered_state fingerprint current now st = record st {
  last_fingerprint = fingerprint;
  last_active_keys = current;
  last_sent_at = some now;
}

module _ (lib : Library) (web : Web) (allowed : List String) (config : NotificationSettings)
    (r : RdsInstance) where
  -- Sends a card; the state moves on only if it was delivered.
  unfoldable pub announce :
      LockCard
      → LockNotificationState
      → LockNotificationState
      → List Request
      → LockNotificationState × List Request
  announce card on_success st sent =
      let (delivered, sent') = notify_lock_summary web allowed config r card sent in
      (if delivered then on_success else st, sent')

  -- The branch of a storm.
  unfoldable pub announce_storm :
      ℕ
      → List LockAlert
      → LockNotificationState
      → List Request
      → LockNotificationState × List Request
  announce_storm now all_active st sent =
      if st.storm_active
      then (st, sent)
      else announce
          (record {
            instance_id = r.pk;
            alerts = all_active;
            event = storm;
            previous_active_keys = sorted leb_text st.last_active_keys;
            cleared_keys = [];
            sent_at = now;
            cleared_alerts = [];
          })
          (delivered_state (summary_fingerprint lib all_active) (sorted_keys all_active) now
            (record st { storm_active = true }))
          st sent

  -- What follows the storm branch: an ordinary summary, if anything changed.
  unfoldable pub announce_changes :
      ℕ
      → List LockAlert
      → List LockAlert
      → LockNotificationState
      → List Request
      → LockNotificationState × List Request
  announce_changes now eligible cleared_alerts st sent =
      let previous = sorted leb_text st.last_active_keys in
      let current = sorted_keys eligible in
      let fingerprint = summary_fingerprint lib eligible in
      if fingerprint == st.last_fingerprint
      then (st, sent)
      else if is_empty previous && is_empty current
      then (record st { last_fingerprint = fingerprint; last_active_keys = [] }, sent)
      else announce
          (record {
            instance_id = r.pk;
            alerts = eligible;
            event = event_of previous current;
            previous_active_keys = previous;
            cleared_keys = cleared_keys_of previous current;
            sent_at = now;
            cleared_alerts = cleared_alerts;
          })
          (delivered_state fingerprint current now st) st sent

  -- `storm_threshold and len(all_active_alerts) >= storm_threshold`
  abbrev pub is_storm : List LockAlert → Bool
  is_storm all_active =
      not (config.lock_storm_threshold == 0) && leb config.lock_storm_threshold (length all_active)

  unfoldable pub update_notifications :
      ℕ
      → List LockAlert
      → List LockAlert
      → List LockAlert
      → LockNotificationState
      → List Request
      → LockNotificationState × List Request
  update_notifications now eligible all_active cleared_alerts st sent =
      if not (lock_notifications_open config now)
      then (remember (sorted_keys eligible) st, sent)
      else if is_empty all_active
      then announce_changes now eligible cleared_alerts (record st { storm_active = false }) sent
      else if is_storm all_active
      then announce_storm now all_active st sent
      else if st.storm_active
      then (st, sent)
      else announce_changes now eligible cleared_alerts st sent
