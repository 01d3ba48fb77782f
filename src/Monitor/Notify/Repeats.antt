-- ===== src/Monitor/Notify/Repeats.antt =====
-- When a summary is repeated: never for the same incidents, and again after a failed delivery.
use healthgrid.Prelude.{
  ℕ, String, true, false, List, is_empty, sorted, leb_text, string_eq, ◌==◌, ◌≡◌, refl, sym, ◌&&◌,
  ◌∙◌, eq_iff, Bool-cases, inl, inr,
}
use healthgrid.Models.Alerts.{LockAlert, LockNotificationState}
use healthgrid.Models.Instances.{RdsInstance}
use healthgrid.Models.Settings.{NotificationSettings}
use healthgrid.Notifications.Schedule.{lock_notifications_open}
use healthgrid.Notifications.Cards.{LockCard, Request}
use healthgrid.Notifications.Webhooks.{Web}
use healthgrid.Notifications.Delivery.{notify_lock_summary}
use healthgrid.Monitor.State.{Library}
use healthgrid.Monitor.Notify.Branches.{
  clear_branch, storm_branch, waiting_branch, ordinary_branch, again_clear, again_storm,
  again_ordinary,
}
use healthgrid.Monitor.Notify.{
  sorted_keys, summary_fingerprint, announce, announce_storm, announce_changes, is_storm,
  update_notifications,
}

module _ (lib : Library) (web : Web) (allowed : List String) (config : NotificationSettings)
    (r : RdsInstance) where
  -- Every card reaches a webhook, whatever was sent before.
  abbrev pub Delivers : Type 0
  Delivers =
      (card : LockCard) (sent : List Request)
      → (notify_lock_summary web allowed config r card sent).0 ≡ true

  module _ (up : Delivers) where
    pub announce_delivered :
        (card : LockCard) (on_success st : LockNotificationState) (sent : List Request)
        → (announce lib web allowed config r card on_success st sent).0 ≡ on_success
    unfolding announce
    announce_delivered card on_success st sent = rw (up card sent)

    -- After an ordinary round that delivers, the fingerprint is that of the incidents.
    changes_fingerprint :
        (now : ℕ) (eligible gone : List LockAlert) (st : LockNotificationState)
        (sent : List Request)
        → let after = (announce_changes lib web allowed config r now eligible gone st sent).0 in
          (after.last_fingerprint ≡ summary_fingerprint lib eligible)
          × (after.storm_active ≡ st.storm_active)
    unfolding announce_changes
    changes_fingerprint now eligible gone st sent =
        elim (Bool-cases (summary_fingerprint lib eligible == st.last_fingerprint)) [
          | inl same ↦ rw same (sym ((eq_iff _ st.last_fingerprint).0 same), refl)
          | inr other ↦
              elim (Bool-cases (
                is_empty (sorted leb_text st.last_active_keys)
                && is_empty (sorted_keys eligible))) [
                  | inl quiet ↦ rw (other, quiet) (refl, refl)
                  | inr busy ↦ rw (other, busy, announce_delivered _ _ st sent) (refl, refl)
                ]
        ]

    pub storm_flag :
        (now : ℕ) (all_active : List LockAlert) (st : LockNotificationState) (sent : List Request)
        → (announce_storm lib web allowed config r now all_active st sent).0.storm_active ≡ true
    unfolding announce_storm
    storm_flag now all_active st sent = elim (Bool-cases st.storm_active) [
      | inl on ↦ rw (on, announce_storm)
      | inr off ↦ rw (off, announce_storm) (rw (announce_delivered _ _ _ sent))
    ]

    -- Where every card is delivered, a second round in the window over the same incidents sends
    -- nothing and remembers what the first one did, whatever the state was before.
    pub update_notifications_settles :
        (now later : ℕ) (eligible all_active gone gone' : List LockAlert)
        (st : LockNotificationState) (sent : List Request)
        → lock_notifications_open config now ≡ true
        → lock_notifications_open config later ≡ true
        → let first =
            update_notifications lib web allowed config r now eligible all_active gone st sent in
          update_notifications lib web allowed config r later eligible all_active gone' first.0
            first.1
          ≡ first
    unfolding update_notifications
    update_notifications_settles now later eligible all_active gone gone' st sent o o' =
        elim (Bool-cases (is_empty all_active)) [
          | inl e ↦
              let st0 = record st { storm_active = false } in
              let first = announce_changes lib web allowed config r now eligible gone st0 sent in
              let (fp, flag) = changes_fingerprint now eligible gone st0 sent in
              rw (clear_branch lib web allowed config r now eligible all_active gone st sent o e) (
                again_clear lib web allowed config r later eligible all_active gone' first.0 first.1
                  o' e fp flag)
          | inr e ↦ elim (Bool-cases (is_storm lib web allowed config r all_active)) [
            | inl s ↦
                let first = announce_storm lib web allowed config r now all_active st sent in
                rw
                  (storm_branch lib web allowed config r now eligible all_active gone st sent o e s)
                  (again_storm lib web allowed config r later eligible all_active gone' first.0
                    first.1 o' e s (storm_flag now all_active st sent))
            | inr s ↦ elim (Bool-cases st.storm_active) [
              | inl on ↦
                  rw
                    (waiting_branch lib web allowed config r now eligible all_active gone st sent o
                      e s on)
                    (waiting_branch lib web allowed config r later eligible all_active gone' st sent
                      o' e s on)
              | inr off ↦
                  let first = announce_changes lib web allowed config r now eligible gone st sent in
                  let (fp, flag) = changes_fingerprint now eligible gone st sent in
                  rw
                    (ordinary_branch lib web allowed config r now eligible all_active gone st sent o
                      e s off)
                    (again_ordinary lib web allowed config r later eligible all_active gone' first.0
                      first.1 o' e s fp (flag ∙ off))
            ]
          ]
        ]

  -- No card reaches any webhook.
  abbrev pub Drops : Type 0
  Drops =
      (card : LockCard) (sent : List Request)
      → (notify_lock_summary web allowed config r card sent).0 ≡ false
