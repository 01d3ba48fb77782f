-- ===== src/Notifications/Delivery.antt =====
-- `notify_lock_summary` and `notify_long_query` of notifications.py: the webhooks of an alert, and
-- the loop that posts one card to each. Their code after the card is the same.
pub mod Announced
pub mod Sent
use healthgrid.Prelude.{
  String, Bool, true, false, not, ◌||◌, List, [], ◌∷◌, is_blank, is_empty, insert_key, string_eq,
  if◌then◌else◌, ℕ,
}
use healthgrid.Prelude.Tables.{select}
use healthgrid.Results.{Result, ok, raise}
use healthgrid.Models.Alerts.{LockAlert, LongQueryAlert}
use healthgrid.Models.Instances.{RdsInstance}
use healthgrid.Models.Settings.{NotificationSettings}
use healthgrid.Notifications.Cards.{Payload, LockCard, Request, lock_summary, long_query}
use healthgrid.Notifications.Webhooks.{Web, post_webhook}

-- `dict.fromkeys`: the first occurrences, in order.
abbrev pub from_keys : List String → List String → List String
from_keys seen [] = seen
from_keys seen (x ∷ xs) = from_keys (insert_key x seen) xs

unfoldable pub webhook_urls : NotificationSettings → RdsInstance → List String
webhook_urls config r = from_keys [] (
    select (λ url. not (is_blank url))
      ((if r.exclude_from_global_notifications then "" else config.channel_webhook_url)
        ∷ r.owner_teams_webhook_url
        ∷ []))

-- `try: if _post_webhook(…): delivered = True`, `except Exception` logs.
abbrev pub succeeded : Result Bool → Bool
succeeded (ok b) = b
succeeded (raise e) = false

module _ (web : Web) (allowed : List String) where
  -- The loop over the webhooks: whether one accepted the card, and the requests sent so far.
  unfoldable pub deliver : Payload → List String → Bool → List Request → Bool × List Request
  unfolding post_webhook
  deliver payload [] delivered sent = (delivered, sent)
  deliver payload (url ∷ urls) delivered sent =
      let (r, sent') = post_webhook web allowed url payload sent in
      deliver payload urls (delivered || succeeded r) sent'

  unfoldable pub notify_lock_summary :
      NotificationSettings → RdsInstance → LockCard → List Request → Bool × List Request
  unfolding deliver webhook_urls
  notify_lock_summary config r card sent =
      deliver (lock_summary card) (webhook_urls config r) false sent

  unfoldable pub notify_long_query :
      NotificationSettings
      → RdsInstance
      → List LongQueryAlert
      → ℕ
      → List Request
      → Bool × List Request
  unfolding deliver webhook_urls
  notify_long_query config r alerts sent_at sent =
      if is_empty alerts
      then (false, sent)
      else deliver (long_query r.pk alerts sent_at) (webhook_urls config r) false sent
