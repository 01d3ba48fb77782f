-- ===== src/Tests/Summaries.antt =====
-- Rounds of notifications.
use healthgrid.Prelude.{
  true, false, some, List, [], ◌∷◌, ◌++◌, ◌≡◌, ◌≢◌, refl, All, is_empty, sorted,
}
use healthgrid.Notifications.Schedule.{lock_notifications_open}
use healthgrid.Notifications.Cards.{LockCard, Request, storm}
use healthgrid.Notifications.Webhooks.{is_plain_https, is_allowed_host, is_public}
use healthgrid.Notifications.Delivery.{notify_lock_summary}
use healthgrid.Notifications.Delivery.Announced.{Announced}
use healthgrid.Notifications.Delivery.Sent.{IsSafe, IsWebhookOf, notify_lock_summary-IsSafe}
use healthgrid.Monitor.Notify.{summary_fingerprint, sorted_keys, update_notifications}
use healthgrid.Monitor.Notify.Repeats.{Delivers, update_notifications_settles}
use healthgrid.Monitor.Notify.Announcements.{update_notifications_survivor}
use healthgrid.Monitor.Notify.Storms.{Round, rounds, rounds-storm, storm_after_quiet_missed}
use healthgrid.Tests.Data.{
  orders, settings, night, morning, up, library, fresh, in_storm, one_lock, storm_locks, card,
}

delivers : Delivers library up [] settings orders
unfolding notify_lock_summary is_plain_https is_allowed_host is_public
delivers c sent = refl

is_open : lock_notifications_open settings morning ≡ true
unfolding lock_notifications_open
is_open = refl

is_shut : lock_notifications_open settings night ≡ false
unfolding lock_notifications_open
is_shut = refl

update_notifications_settles_example :
    update_notifications library up [] settings orders morning one_lock one_lock []
      (update_notifications library up [] settings orders morning one_lock one_lock [] fresh []).0
      (update_notifications library up [] settings orders morning one_lock one_lock [] fresh []).1
    ≡ update_notifications library up [] settings orders morning one_lock one_lock [] fresh []
update_notifications_settles_example =
    update_notifications_settles library up [] settings orders delivers morning morning one_lock
      one_lock [] [] fresh [] is_open is_open

fingerprint_filled : summary_fingerprint library one_lock ≢ ""
unfolding summary_fingerprint sorted_keys sorted
fingerprint_filled e = cc

one_key : is_empty (sorted_keys one_lock) ≡ false
unfolding sorted_keys sorted
one_key = refl

update_notifications_survivor_example :
    let quiet =
      update_notifications library up [] settings orders night one_lock one_lock [] fresh [] in
    let after =
      update_notifications library up [] settings orders morning one_lock one_lock [] quiet.0
        quiet.1 in
    (quiet.1 ≡ [])
    × ((card : LockCard) × (card.alerts ≡ one_lock)
        × (card.sent_at ≡ morning)
        × Announced settings orders card [] after.1)
    × (after.0.last_sent_at ≡ some morning)
    × (after.0.last_fingerprint ≡ summary_fingerprint library one_lock)
    × (after.0.last_active_keys ≡ sorted_keys one_lock)
update_notifications_survivor_example =
    update_notifications_survivor library up [] settings orders delivers night morning one_lock
      one_lock one_lock [] [] fresh [] is_shut is_open fingerprint_filled one_key refl refl refl

abbrev storm_starts : Round
storm_starts = record { at = morning; eligible = storm_locks; all_active = storm_locks; gone = [] }

abbrev storm_rounds : List Round
storm_rounds =
    record { at = morning; eligible = one_lock; all_active = one_lock; gone = [] }
    ∷ record { at = night; eligible = []; all_active = storm_locks; gone = one_lock }
    ∷ storm_starts
    ∷ []

rounds-storm_example :
    let one = rounds library up [] settings orders (storm_starts ∷ []) (fresh, []) in
    let all = rounds library up [] settings orders (storm_starts ∷ storm_rounds) (fresh, []) in
    ((card : LockCard) × (card.event ≡ storm)
      × (card.alerts ≡ storm_locks)
      × (card.sent_at ≡ morning)
      × Announced settings orders card [] one.1)
    × (all.0.storm_active ≡ true)
    × (all.1 ≡ one.1)
rounds-storm_example =
    rounds-storm library up [] settings orders delivers storm_starts storm_rounds fresh [] refl
      is_open refl refl (refl, (refl, (refl, tt)))

storm_after_quiet_missed_example :
    let clear : Round = record { at = night; eligible = []; all_active = []; gone = storm_locks } in
    let after = rounds library up [] settings orders (clear ∷ storm_rounds) (in_storm, []) in
    (after.0.storm_active ≡ true) × (after.1 ≡ [])
storm_after_quiet_missed_example =
    storm_after_quiet_missed library up [] settings orders night storm_locks storm_rounds in_storm
      [] refl is_shut (refl, (refl, (refl, tt)))

notify_lock_summary-IsSafe_example :
    (new : List Request) × ((notify_lock_summary up [] settings orders card []).1 ≡ [] ++ new)
    × All (λ q. IsSafe up [] q.url × IsWebhookOf settings orders q.url) new
notify_lock_summary-IsSafe_example = notify_lock_summary-IsSafe up [] settings orders card []
