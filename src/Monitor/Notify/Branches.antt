-- ===== src/Monitor/Notify/Branches.antt =====
-- The branches of `update_notifications`, each as an equation.
use healthgrid.Prelude.{
  ℕ, String, true, false, List, is_empty, string_eq, ◌≡◌, sym, ap, ◌∙◌, arith, eq_iff,
}
use healthgrid.Models.Alerts.{LockAlert, LockNotificationState}
use healthgrid.Models.Instances.{RdsInstance}
use healthgrid.Models.Settings.{NotificationSettings}
use healthgrid.Notifications.Schedule.{lock_notifications_open}
use healthgrid.Notifications.Cards.{Request}
use healthgrid.Notifications.Webhooks.{Web}
use healthgrid.Monitor.State.{Library}
use healthgrid.Monitor.Notify.{
  sorted_keys, summary_fingerprint, announce_storm, announce_changes, is_storm,
  update_notifications, remember,
}

module _ (lib : Library) (web : Web) (allowed : List String) (config : NotificationSettings)
    (r : RdsInstance) where
  pub quiet_branch :
      (now : ℕ) (eligible all_active gone : List LockAlert) (st : LockNotificationState)
      (sent : List Request)
      → lock_notifications_open config now ≡ false
      → update_notifications lib web allowed config r now eligible all_active gone st sent
        ≡ (remember (sorted_keys eligible) st, sent)
  unfolding update_notifications
  quiet_branch now eligible all_active gone st sent shut = rw shut

  pub changes_again :
      (now : ℕ) (eligible gone : List LockAlert) (st : LockNotificationState) (sent : List Request)
      → st.last_fingerprint ≡ summary_fingerprint lib eligible
      → announce_changes lib web allowed config r now eligible gone st sent ≡ (st, sent)
  unfolding announce_changes
  changes_again now eligible gone st sent e =
      rw ((eq_iff (summary_fingerprint lib eligible) st.last_fingerprint).1 (sym e))

  pub storm_again :
      (now : ℕ) (all_active : List LockAlert) (st : LockNotificationState) (sent : List Request)
      → st.storm_active ≡ true
      → announce_storm lib web allowed config r now all_active st sent ≡ (st, sent)
  unfolding announce_storm
  storm_again now all_active st sent on = ground arith

  -- A state whose storm flag is down is the state with its flag taken down.
  pub flag_down :
      (st : LockNotificationState)
      → st.storm_active ≡ false
      → record st { storm_active = false } ≡ st
  flag_down st off = ap (λ b. record st { storm_active = b }) (sym off)

  module _ (now : ℕ) (eligible all_active gone : List LockAlert) (st : LockNotificationState)
      (sent : List Request) (o : lock_notifications_open config now ≡ true) where
    pub clear_branch :
        is_empty all_active ≡ true
        → update_notifications lib web allowed config r now eligible all_active gone st sent
          ≡ announce_changes lib web allowed config r now eligible gone
              (record st { storm_active = false })
              sent
    unfolding update_notifications
    clear_branch e = rw (o, e)

    pub storm_branch :
        is_empty all_active ≡ false
        → is_storm lib web allowed config r all_active ≡ true
        → update_notifications lib web allowed config r now eligible all_active gone st sent
          ≡ announce_storm lib web allowed config r now all_active st sent
    unfolding update_notifications
    storm_branch e s = rw (o, e, s)

    pub waiting_branch :
        is_empty all_active ≡ false
        → is_storm lib web allowed config r all_active ≡ false
        → st.storm_active ≡ true
        → update_notifications lib web allowed config r now eligible all_active gone st sent
          ≡ (st, sent)
    unfolding update_notifications
    waiting_branch e s on = rw (o, e, s) (ground arith)

    pub ordinary_branch :
        is_empty all_active ≡ false
        → is_storm lib web allowed config r all_active ≡ false
        → st.storm_active ≡ false
        → update_notifications lib web allowed config r now eligible all_active gone st sent
          ≡ announce_changes lib web allowed config r now eligible gone st sent
    unfolding update_notifications
    ordinary_branch e s off = rw (o, e, s) (ground arith)

    pub again_clear :
        is_empty all_active ≡ true
        → st.last_fingerprint ≡ summary_fingerprint lib eligible
        → st.storm_active ≡ false
        → update_notifications lib web allowed config r now eligible all_active gone st sent
          ≡ (st, sent)
    again_clear e fp off =
        clear_branch e
        ∙ ap (λ t. announce_changes lib web allowed config r now eligible gone t sent)
            (flag_down st off)
        ∙ changes_again now eligible gone st sent fp

    pub again_storm :
        is_empty all_active ≡ false
        → is_storm lib web allowed config r all_active ≡ true
        → st.storm_active ≡ true
        → update_notifications lib web allowed config r now eligible all_active gone st sent
          ≡ (st, sent)
    again_storm e s on = storm_branch e s ∙ storm_again now all_active st sent on

    pub again_ordinary :
        is_empty all_active ≡ false
        → is_storm lib web allowed config r all_active ≡ false
        → st.last_fingerprint ≡ summary_fingerprint lib eligible
        → st.storm_active ≡ false
        → update_notifications lib web allowed config r now eligible all_active gone st sent
          ≡ (st, sent)
    again_ordinary e s fp off = ordinary_branch e s off ∙ changes_again now eligible gone st sent fp
