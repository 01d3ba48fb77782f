-- ===== src/Notifications/Delivery/Sent.antt =====
-- Which requests may leave: only to public HTTPS hosts on the list, only to the webhooks of the
-- alert, and never to the shared channel for an excluded instance.
use mathlib.Core.List.{append-nil, append_assoc}
use healthgrid.Prelude.Tables.Rows.{All-imp}
use healthgrid.Prelude.Tables.{select}
use healthgrid.Prelude.{
  insert_key, sym, ap, ◌∙◌, String, Bool, true, false, not, ◌||◌, ◌&&◌, List, [], ◌∷◌, ◌++◌,
  is_blank, all, contains, string_eq, ◌≡◌, ◌⊎◌, inl, inr, leb, ltb, Bool-cases, refl, arith, eq_iff,
  if◌then◌else◌, ◌==◌, ℕ, All,
}
use healthgrid.Effects.{continue, pure}
use healthgrid.Results.{Result, ok, raise}
use healthgrid.Models.Instances.{RdsInstance}
use healthgrid.Models.Settings.{NotificationSettings}
use healthgrid.Notifications.Cards.{Payload, LockCard, Request, lock_summary}
use healthgrid.Notifications.Webhooks.{
  Web, Address, post_webhook, is_plain_https, is_allowed_host, is_public, host_of,
}
use healthgrid.Notifications.Delivery.{
  webhook_urls, from_keys, deliver, succeeded, notify_lock_summary,
}

after_send :
    (r : Result ℕ) (k : ℕ → Bool) (sent : List Request)
    → (continue r (λ n. pure (k n)) sent).1 ≡ sent
after_send (ok n) k sent = refl
after_send (raise e) k sent = refl

module _ (web : Web) (allowed : List String) where
  -- A destination that the guard lets through.
  pub record IsSafe (url : String) : Type 0 where
    pub https : is_plain_https (web.urlsplit url) ≡ true
    pub listed : is_allowed_host allowed (host_of web (web.urlsplit url)) ≡ true
    pub addresses : List Address
    pub resolved : web.getaddrinfo (host_of web (web.urlsplit url)) ≡ ok addresses
    pub public : all is_public addresses ≡ true

  -- A post sends the one request to a safe destination, or raises and sends nothing.
  unfoldable pub Posted : String → Payload → List Request → Result Bool × List Request → Type 0
  Posted url payload sent (r, after) =
      (IsSafe url × (after ≡ sent ++ record { url = url; payload = payload } ∷ []))
      ⊎ ((after ≡ sent) × (succeeded r ≡ false))

  module _ (url : String) (payload : Payload) (sent : List Request) where
    post_resolved :
        (addresses : List Address)
        → is_plain_https (web.urlsplit url) ≡ true
        → is_allowed_host allowed (host_of web (web.urlsplit url)) ≡ true
        → web.getaddrinfo (host_of web (web.urlsplit url)) ≡ ok addresses
        → Posted url payload sent (post_webhook web allowed url payload sent)
    unfolding Posted post_webhook
    post_resolved addresses p q r = elim (Bool-cases (all is_public addresses)) [
      | inl ok_all ↦
          rw (p, q, r, ok_all)
            (inl (
              record {
                https = p;
                listed = q;
                addresses = addresses;
                resolved = r;
                public = ok_all;
              },
              after_send (web.send url payload) (λ n. leb 200 n && ltb n 300)
                  (sent ++ record { url = url; payload = payload } ∷ []),
            ))
      | inr bad ↦ rw (p, q, r, bad) (inr (refl, refl))
    ]

    pub post_webhook-Posted : Posted url payload sent (post_webhook web allowed url payload sent)
    unfolding Posted post_webhook
    post_webhook-Posted = elim (Bool-cases (is_plain_https (web.urlsplit url))) [
      | inl p ↦ elim (Bool-cases (is_allowed_host allowed (host_of web (web.urlsplit url)))) [
        | inl q ↦ by_answer (web.getaddrinfo (host_of web (web.urlsplit url))) refl p q
        | inr bad ↦ rw (p, bad) (inr (refl, refl))
      ]
      | inr bad ↦ rw bad (inr (refl, refl))
    ]
      where
        by_answer :
            (r : Result (List Address))
            → web.getaddrinfo (host_of web (web.urlsplit url)) ≡ r
            → is_plain_https (web.urlsplit url) ≡ true
            → is_allowed_host allowed (host_of web (web.urlsplit url)) ≡ true
            → Posted url payload sent (post_webhook web allowed url payload sent)
        by_answer (ok addresses) e p q = post_resolved addresses p q e
        by_answer (raise x) e p q = rw (p, q, e) (inr (refl, refl))

  -- The requests that a loop over webhooks adds all go to safe destinations among its webhooks.
  pub AddsSafe : List String → List Request → List Request → Type 0
  AddsSafe urls sent after =
      (new : List Request) × (after ≡ sent ++ new)
      × All (λ r. IsSafe r.url × (contains r.url urls ≡ true)) new

  pub deliver-AddsSafe :
      (payload : Payload) (urls : List String) (delivered : Bool) (sent : List Request)
      → AddsSafe urls sent (deliver web allowed payload urls delivered sent).1
  unfolding deliver AddsSafe Posted
  deliver-AddsSafe payload [] delivered sent = ([], sym (append-nil sent), tt)
  deliver-AddsSafe payload (url ∷ urls) delivered sent =
      extend (post_webhook-Posted url payload sent) (
        deliver-AddsSafe payload urls
          (delivered || succeeded (post_webhook web allowed url payload sent).0)
          (post_webhook web allowed url payload sent).1)
    where
      wider :
          (new : List Request)
          → All (λ r. IsSafe r.url × (contains r.url urls ≡ true)) new
          → All (λ r. IsSafe r.url × (contains r.url (url ∷ urls) ≡ true)) new
      wider new h = All-imp (λ r k. (k.0, ground (arith, k.1))) new h

      extend :
          Posted url payload sent (post_webhook web allowed url payload sent)
          → AddsSafe urls
              (post_webhook web allowed url payload sent).1
              (deliver web allowed payload (url ∷ urls) delivered sent).1
          → AddsSafe (url ∷ urls) sent (deliver web allowed payload (url ∷ urls) delivered sent).1
      extend (inl (safe, e)) (new, f, h) = (
        record { url = url; payload = payload } ∷ new,
        f ∙ ap (λ l. l ++ new) e ∙ append_assoc sent _ new,
        ((safe, ground (arith, eq_iff url url)), wider new h),
      )
      extend (inr (e, failed)) (new, f, h) = (new, f ∙ ap (λ l. l ++ new) e, wider new h)

contains-insert_key :
    (x y : String) (ys : List String) → contains x (insert_key y ys) ≡ (y == x || contains x ys)
contains-insert_key x y [] = refl
contains-insert_key x y (z ∷ ys) =
    ground (arith, eq_iff z y, eq_iff z x, eq_iff y x, contains-insert_key x y ys)

contains-from_keys :
    (x : String) (seen xs : List String)
    → contains x (from_keys seen xs) ≡ (contains x seen || contains x xs)
contains-from_keys x seen [] = ground arith
contains-from_keys x seen (y ∷ xs) =
    contains-from_keys x (insert_key y seen) xs ∙ ground (arith, contains-insert_key x y seen)

contains-filled :
    (x : String) (xs : List String)
    → contains x (select (λ url. not (is_blank url)) xs) ≡ true
    → (is_blank x ≡ false) × (contains x xs ≡ true)
contains-filled x [] h = cc
contains-filled x (y ∷ xs) h = elim (Bool-cases (y == x)) [
  | inl same ↦
      let e : y ≡ x = (eq_iff y x).0 same in ground (arith, contains-filled x xs, ap is_blank e)
  | inr other ↦ ground (arith, contains-filled x xs)
]

one_of :
    (excluded : Bool) (channel owner url : String)
    → is_blank url ≡ false
    → contains url ((if excluded then "" else channel) ∷ owner ∷ []) ≡ true
    → (url ≡ owner) ⊎ ((url ≡ channel) × (excluded ≡ false))
one_of true channel owner url filled h = elim (Bool-cases ("" == url)) [
  | inl blank ↦ let e : "" ≡ url = (eq_iff "" url).0 blank in cc (ap is_blank e)
  | inr other ↦ ground (arith, eq_iff owner url)
]
one_of false channel owner url filled h = ground (arith, eq_iff owner url, eq_iff channel url)

-- The webhooks of an alert: the owner's, and the shared channel's unless the instance is excluded.
pub contains-webhook_urls :
    (config : NotificationSettings) (r : RdsInstance) (url : String)
    → contains url (webhook_urls config r) ≡ true
    → (is_blank url ≡ false)
      × ((url ≡ r.owner_teams_webhook_url)
          ⊎ ((url ≡ config.channel_webhook_url) × (r.exclude_from_global_notifications ≡ false)))
unfolding webhook_urls
contains-webhook_urls config r url h =
    let candidates =
      (if r.exclude_from_global_notifications then "" else config.channel_webhook_url)
      ∷ r.owner_teams_webhook_url
      ∷ [] in
    let (filled, held) =
      contains-filled url candidates
        (sym (contains-from_keys url [] (select (λ u. not (is_blank u)) candidates)) ∙ h) in
    (
      filled,
      one_of r.exclude_from_global_notifications config.channel_webhook_url
          r.owner_teams_webhook_url url filled held,
    )

-- The webhooks that an alert of the instance may use.
abbrev pub IsWebhookOf : NotificationSettings → RdsInstance → String → Type 0
IsWebhookOf config r url =
    (url ≡ r.owner_teams_webhook_url)
    ⊎ ((url ≡ config.channel_webhook_url) × (r.exclude_from_global_notifications ≡ false))

-- Whatever the network answers, every request that a lock summary adds goes to a destination that
-- passes the guard, and to the owner's webhook or, for an instance that is not excluded, the shared
-- channel's.
pub notify_lock_summary-IsSafe :
    (web : Web) (allowed : List String) (config : NotificationSettings) (r : RdsInstance)
    (card : LockCard) (sent : List Request)
    → (new : List Request) × ((notify_lock_summary web allowed config r card sent).1 ≡ sent ++ new)
      × All (λ q. IsSafe web allowed q.url × IsWebhookOf config r q.url) new
unfolding notify_lock_summary AddsSafe
notify_lock_summary-IsSafe web allowed config r card sent =
    let (new, e, safe) =
      deliver-AddsSafe web allowed (lock_summary card) (webhook_urls config r) false sent in
    (new, e, All-imp (λ q h. (h.0, (contains-webhook_urls config r q.url h.1).1)) new safe)
