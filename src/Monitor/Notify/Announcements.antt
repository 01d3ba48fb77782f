-- ===== src/Monitor/Notify/Announcements.antt =====
-- What is sent where every card is delivered: the card of a storm, and the summary of the incidents
-- that survived a closed window.
use healthgrid.Prelude.{
  ℕ, String, true, false, some, List, is_empty, sorted, leb_text, string_eq, ◌==◌, ◌≡◌, ◌≢◌, refl,
  ap, eq_iff, Bool-cases, inl, inr,
}
use healthgrid.Models.Alerts.{LockAlert, LockNotificationState}
use healthgrid.Models.Instances.{RdsInstance}
use healthgrid.Models.Settings.{NotificationSettings}
use healthgrid.Notifications.Schedule.{lock_notifications_open}
use healthgrid.Notifications.Cards.{LockCard, Request, storm}
use healthgrid.Notifications.Webhooks.{Web}
use healthgrid.Monitor.State.{Library}
use healthgrid.Monitor.Notify.Branches.{ordinary_branch, quiet_branch}
use healthgrid.Monitor.Notify.{
  delivered_state, sorted_keys, summary_fingerprint, announce, announce_storm, announce_changes,
  is_storm, update_notifications, remember,
}
use healthgrid.Notifications.Delivery.Announced.{Announced, notify_lock_summary-Announced}
use healthgrid.Monitor.Notify.Repeats.{Delivers, announce_delivered}

module _ (lib : Library) (web : Web) (allowed : List String) (config : NotificationSettings)
    (r : RdsInstance) (up : Delivers lib web allowed config r) where
  announce-Announced :
      (card : LockCard) (on_success st : LockNotificationState) (sent : List Request)
      → Announced config r card sent (announce lib web allowed config r card on_success st sent).1
  unfolding announce
  announce-Announced card on_success st sent =
      notify_lock_summary-Announced web allowed config r card sent (up card sent)

  pub announce_storm-Announced :
      (now : ℕ) (all_active : List LockAlert) (st : LockNotificationState) (sent : List Request)
      → st.storm_active ≡ false
      → (card : LockCard) × (card.event ≡ storm)
        × (card.alerts ≡ all_active)
        × (card.sent_at ≡ now)
        × Announced config r card sent
            (announce_storm lib web allowed config r now all_active st sent).1
  unfolding announce_storm
  announce_storm-Announced now all_active st sent off =
      rw off (_, refl, refl, refl, announce-Announced _ _ _ sent)

  -- A changed fingerprint over some incidents is delivered and recorded.
  changes_delivered :
      (now : ℕ) (eligible gone : List LockAlert) (st : LockNotificationState) (sent : List Request)
      → (summary_fingerprint lib eligible == st.last_fingerprint) ≡ false
      → is_empty (sorted_keys eligible) ≡ false
      → (announce_changes lib web allowed config r now eligible gone st sent).0
        ≡ delivered_state (summary_fingerprint lib eligible) (sorted_keys eligible) now st
  unfolding announce_changes
  changes_delivered now eligible gone st sent new busy =
      elim (Bool-cases (is_empty (sorted leb_text st.last_active_keys))) [
        | inl e ↦ rw (new, e, busy) (announce_delivered lib web allowed config r up _ _ st sent)
        | inr e ↦ rw (new, e) (announce_delivered lib web allowed config r up _ _ st sent)
      ]

  announce_changes-Announced :
      (now : ℕ) (eligible gone : List LockAlert) (st : LockNotificationState) (sent : List Request)
      → (summary_fingerprint lib eligible == st.last_fingerprint) ≡ false
      → is_empty (sorted_keys eligible) ≡ false
      → (card : LockCard) × (card.alerts ≡ eligible)
        × (card.sent_at ≡ now)
        × Announced config r card sent
            (announce_changes lib web allowed config r now eligible gone st sent).1
  unfolding announce_changes
  announce_changes-Announced now eligible gone st sent new busy =
      elim (Bool-cases (is_empty (sorted leb_text st.last_active_keys))) [
        | inl e ↦ rw (new, e, busy) (_, refl, refl, announce-Announced _ _ st sent)
        | inr e ↦ rw (new, e) (_, refl, refl, announce-Announced _ _ st sent)
      ]

  -- Where every card is delivered, a lock that survives a closed window is announced when the
  -- window opens. The round in the closed window sends nothing; the first ordinary round after it,
  -- with the storm flag down and the same incidents eligible, sends a lock summary of these
  -- incidents to at least one webhook of the instance, whatever had been sent before, and records
  -- their keys, their fingerprint and its time.
  pub update_notifications_survivor :
      (night morning : ℕ) (eligible all_active all_later gone gone' : List LockAlert)
      (st : LockNotificationState) (sent : List Request)
      → lock_notifications_open config night ≡ false
      → lock_notifications_open config morning ≡ true
      → summary_fingerprint lib eligible ≢ ""
      → is_empty (sorted_keys eligible) ≡ false
      → is_empty all_later ≡ false
      → is_storm lib web allowed config r all_later ≡ false
      → st.storm_active ≡ false
      → let quiet =
          update_notifications lib web allowed config r night eligible all_active gone st sent in
        let after =
          update_notifications lib web allowed config r morning eligible all_later gone' quiet.0
            quiet.1 in
        (quiet.1 ≡ sent)
        × ((card : LockCard) × (card.alerts ≡ eligible)
            × (card.sent_at ≡ morning)
            × Announced config r card sent after.1)
        × (after.0.last_sent_at ≡ some morning)
        × (after.0.last_fingerprint ≡ summary_fingerprint lib eligible)
        × (after.0.last_active_keys ≡ sorted_keys eligible)
  update_notifications_survivor night morning eligible all_active all_later gone gone' st sent shut
        o fp keys e s off =
      let quiet = remember (sorted_keys eligible) st in
      let new : (summary_fingerprint lib eligible == "") ≡ false =
        elim (Bool-cases (summary_fingerprint lib eligible == "")) [
          | inl same ↦ absurd (fp ((eq_iff (summary_fingerprint lib eligible) "").0 same))
          | inr other ↦ other
        ] in
      let done = changes_delivered morning eligible gone' quiet sent new keys in
      rw (quiet_branch lib web allowed config r night eligible all_active gone st sent shut) (
        rw
          (ordinary_branch lib web allowed config r morning eligible all_later gone' quiet sent o e
            s off)
          (
            refl,
            announce_changes-Announced morning eligible gone' quiet sent new keys,
            ap (λ t. t.last_sent_at) done,
            ap (λ t. t.last_fingerprint) done,
            ap (λ t. t.last_active_keys) done,
          ))
