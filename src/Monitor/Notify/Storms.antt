-- ===== src/Monitor/Notify/Storms.antt =====
-- What the flag `storm_active` holds back, over any number of rounds.
use healthgrid.Prelude.{
  ℕ, String, true, false, List, [], ◌∷◌, is_empty, All, nat_eq, ◌≡◌, refl, sym, ap, ◌∙◌, Bool-cases,
  inl, inr,
}
use healthgrid.Models.Alerts.{LockAlert, LockNotificationState}
use healthgrid.Models.Instances.{RdsInstance}
use healthgrid.Models.Settings.{NotificationSettings}
use healthgrid.Notifications.Schedule.{lock_notifications_open}
use healthgrid.Notifications.Cards.{LockCard, Request, storm}
use healthgrid.Notifications.Delivery.Announced.{Announced}
use healthgrid.Notifications.Webhooks.{Web}
use healthgrid.Monitor.State.{Library}
use healthgrid.Monitor.Notify.{
  sorted_keys, announce_storm, is_storm, update_notifications, remember,
}
use healthgrid.Monitor.Notify.Repeats.{Delivers, storm_flag}
use healthgrid.Monitor.Notify.Announcements.{announce_storm-Announced}
use healthgrid.Monitor.Notify.Branches.{storm_branch, waiting_branch, quiet_branch, storm_again}

-- What one cycle hands to the notifications.
pub record Round : Type 0 where
  pub at : ℕ
  pub eligible : List LockAlert
  pub all_active : List LockAlert
  pub gone : List LockAlert

module _ (lib : Library) (web : Web) (allowed : List String) (config : NotificationSettings)
    (r : RdsInstance) where
  unfoldable pub rounds :
      List Round → LockNotificationState × List Request → LockNotificationState × List Request
  rounds [] (st, sent) = (st, sent)
  rounds (c ∷ cs) (st, sent) =
      rounds cs
        (update_notifications lib web allowed config r c.at c.eligible c.all_active c.gone st sent)

  -- One round during a storm.
  storm_round :
      (now : ℕ) (eligible all_active gone : List LockAlert) (st : LockNotificationState)
      (sent : List Request)
      → st.storm_active ≡ true
      → is_empty all_active ≡ false
      → let after =
          update_notifications lib web allowed config r now eligible all_active gone st sent in
        (after.0.storm_active ≡ true) × (after.1 ≡ sent)
  storm_round now eligible all_active gone st sent on e =
      elim (Bool-cases (lock_notifications_open config now)) [
        | inr shut ↦
            rw (quiet_branch lib web allowed config r now eligible all_active gone st sent shut)
              (on, refl)
        | inl o ↦ elim (Bool-cases (is_storm lib web allowed config r all_active)) [
          | inl s ↦
              rw (storm_branch lib web allowed config r now eligible all_active gone st sent o e s)
                (rw (storm_again lib web allowed config r now all_active st sent on) (on, refl))
          | inr s ↦
              rw
                (waiting_branch lib web allowed config r now eligible all_active gone st sent o e s
                  on)
                (on, refl)
        ]
      ]

  -- Rounds of a storm that has been announced.
  rounds_in_storm :
      (cs : List Round) (st : LockNotificationState) (sent : List Request)
      → st.storm_active ≡ true
      → All (λ c. is_empty c.all_active ≡ false) cs
      → ((rounds cs (st, sent)).0.storm_active ≡ true) × ((rounds cs (st, sent)).1 ≡ sent)
  unfolding rounds
  rounds_in_storm [] st sent on _ = (on, refl)
  rounds_in_storm (c ∷ cs) st sent on (e, es) =
      let after =
        update_notifications lib web allowed config r c.at c.eligible c.all_active c.gone st sent in
      let (on', same) = storm_round c.at c.eligible c.all_active c.gone st sent on e in
      let (still, sent') = rounds_in_storm cs after.0 after.1 on' es in (still, sent' ∙ same)

  -- Where every card is delivered, a storm is announced once. The first round of a storm with the
  -- window open and the flag down sends a storm card of all the incidents to at least one webhook of
  -- the instance; and after any further rounds in which locks remain, in whatever number and in or
  -- out of the window, the flag is up and no lock summary was sent but those of that first round.
  pub rounds-storm :
      Delivers lib web allowed config r
      → (first : Round) (cs : List Round) (st : LockNotificationState) (sent : List Request)
      → st.storm_active ≡ false
      → lock_notifications_open config first.at ≡ true
      → is_empty first.all_active ≡ false
      → is_storm lib web allowed config r first.all_active ≡ true
      → All (λ c. is_empty c.all_active ≡ false) cs
      → let one = rounds (first ∷ []) (st, sent) in
        let all = rounds (first ∷ cs) (st, sent) in
        ((card : LockCard) × (card.event ≡ storm)
          × (card.alerts ≡ first.all_active)
          × (card.sent_at ≡ first.at)
          × Announced config r card sent one.1)
        × (all.0.storm_active ≡ true)
        × (all.1 ≡ one.1)
  unfolding rounds
  rounds-storm up first cs st sent off o nonempty s es =
      let after = announce_storm lib web allowed config r first.at first.all_active st sent in
      let (on, same) =
        rounds_in_storm cs after.0 after.1
          (storm_flag lib web allowed config r up first.at first.all_active st sent) es in
      let e =
        storm_branch lib web allowed config r first.at first.eligible first.all_active first.gone st
          sent o nonempty s in
      (
        rw e (
            announce_storm-Announced lib web allowed config r up first.at first.all_active st sent
              off),
        ap (λ p. (rounds cs p).0.storm_active) e ∙ on,
        ap (λ p. (rounds cs p).1) e ∙ same ∙ sym (ap (λ p. p.1) e),
      )

  -- If the locks of an announced storm clear in a round outside the window, the flag stays up: over
  -- any number of later rounds, in or out of the window, in which locks are active, storms of new
  -- locks included, no lock summary is sent at all, and the flag is still up.
  pub storm_after_quiet_missed :
      (night : ℕ) (gone : List LockAlert) (cs : List Round) (st : LockNotificationState)
      (sent : List Request)
      → st.storm_active ≡ true
      → lock_notifications_open config night ≡ false
      → All (λ c. is_empty c.all_active ≡ false) cs
      → let clear : Round = record { at = night; eligible = []; all_active = []; gone = gone } in
        let after = rounds (clear ∷ cs) (st, sent) in
        (after.0.storm_active ≡ true) × (after.1 ≡ sent)
  unfolding rounds
  storm_after_quiet_missed night gone cs st sent on shut es =
      let e = quiet_branch lib web allowed config r night [] [] gone st sent shut in
      let (still, same) = rounds_in_storm cs (remember (sorted_keys []) st) sent on es in
      (ap (λ p. (rounds cs p).0.storm_active) e ∙ still, ap (λ p. (rounds cs p).1) e ∙ same)
