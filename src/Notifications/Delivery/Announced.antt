-- ===== src/Notifications/Delivery/Announced.antt =====
-- What a successful delivery has sent: at least one request, all with the card, all to the webhooks
-- of the alert.
use mathlib.Core.List.{append-nil, append_assoc}
use healthgrid.Prelude.Tables.Rows.{All-imp}
use healthgrid.Prelude.{
  sym, ap, ◌∙◌, String, Bool, true, false, ◌||◌, List, [], ◌∷◌, ◌++◌, contains, is_empty, string_eq,
  ◌≡◌, inl, inr, refl, arith, eq_iff, All,
}
use healthgrid.Models.Instances.{RdsInstance}
use healthgrid.Models.Settings.{NotificationSettings}
use healthgrid.Notifications.Cards.{Payload, LockCard, Request, lock_summary}
use healthgrid.Notifications.Webhooks.{Web, post_webhook}
use healthgrid.Notifications.Delivery.{webhook_urls, deliver, succeeded, notify_lock_summary}
use healthgrid.Notifications.Delivery.Sent.{
  Posted, post_webhook-Posted, IsWebhookOf, contains-webhook_urls,
}

module _ (web : Web) (allowed : List String) (payload : Payload) where
  -- The requests that a loop adds; where there is none, nothing was delivered.
  abbrev AddsCards : List String → Bool → List Request → Bool × List Request → Type 0
  AddsCards urls delivered sent (result, after) =
      (new : List Request) × (after ≡ sent ++ new)
      × All (λ q. (q.payload ≡ payload) × (contains q.url urls ≡ true)) new
      × (is_empty new ≡ true → result ≡ delivered)

  deliver-AddsCards :
      (urls : List String) (delivered : Bool) (sent : List Request)
      → AddsCards urls delivered sent (deliver web allowed payload urls delivered sent)
  unfolding deliver Posted
  deliver-AddsCards [] delivered sent = ([], sym (append-nil sent), tt, λ _. refl)
  deliver-AddsCards (url ∷ urls) delivered sent =
      extend (post_webhook-Posted web allowed url payload sent) (
        deliver-AddsCards urls
          (delivered || succeeded (post_webhook web allowed url payload sent).0)
          (post_webhook web allowed url payload sent).1)
    where
      wider :
          (new : List Request)
          → All (λ q. (q.payload ≡ payload) × (contains q.url urls ≡ true)) new
          → All (λ q. (q.payload ≡ payload) × (contains q.url (url ∷ urls) ≡ true)) new
      wider new h = All-imp (λ q k. (k.0, ground (arith, k.1))) new h

      extend :
          Posted web allowed url payload sent (post_webhook web allowed url payload sent)
          → AddsCards urls
              (delivered || succeeded (post_webhook web allowed url payload sent).0)
              (post_webhook web allowed url payload sent).1
              (deliver web allowed payload (url ∷ urls) delivered sent)
          → AddsCards
              (url ∷ urls)
              delivered
              sent
              (deliver web allowed payload (url ∷ urls) delivered sent)
      extend (inl (safe, e)) (new, f, h, none_new) = (
        record { url = url; payload = payload } ∷ new,
        f ∙ ap (λ l. l ++ new) e ∙ append_assoc sent _ new,
        ((refl, ground (arith, eq_iff url url)), wider new h),
        λ no_. cc,
      )
      extend (inr (e, failed)) (new, f, h, none_new) =
          (new, f ∙ ap (λ l. l ++ new) e, wider new h, λ empty. ground (arith, none_new empty))

-- A lock summary with the card has left for at least one webhook of the instance.
pub record Announced (config : NotificationSettings) (r : RdsInstance) (card : LockCard)
    (sent after : List Request) : Type 0 where
  pub requests : List Request
  pub added : after ≡ sent ++ requests
  pub some_sent : is_empty requests ≡ false
  pub cards : All (λ q. (q.payload ≡ lock_summary card) × IsWebhookOf config r q.url) requests

pub notify_lock_summary-Announced :
    (web : Web) (allowed : List String) (config : NotificationSettings) (r : RdsInstance)
    (card : LockCard) (sent : List Request)
    → (notify_lock_summary web allowed config r card sent).0 ≡ true
    → Announced config r card sent (notify_lock_summary web allowed config r card sent).1
unfolding notify_lock_summary
notify_lock_summary-Announced web allowed config r card sent up =
    let (new, e, cards, none_new) =
      deliver-AddsCards web allowed (lock_summary card) (webhook_urls config r) false sent in
    record {
      requests = new;
      added = e;
      some_sent = ground (arith, none_new);
      cards = All-imp (λ q h. (h.0, (contains-webhook_urls config r q.url h.1).1)) new cards;
    }
