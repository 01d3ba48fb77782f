-- ===== src/Notifications/Webhooks.antt =====
-- `_post_webhook` of notifications.py. What the standard library finds out about a URL and what the
-- network answers are parameters.
use healthgrid.Prelude.{
  ℕ, String, Bool, false, not, ◌&&◌, ◌||◌, Option, none, some, List, [], ◌∷◌, ◌++◌, ◌<>◌, any, all,
  is_empty, is_blank, leb, ltb, ends_with, nat_eq, string_eq, ◌==◌, if◌then◌else◌,
}
use Prim.Native.Char.{code}
use healthgrid.Results.{Result, value_error}
use healthgrid.Effects.{Exec, guard, lift, modify, pure, ◌>>=◌, ◌>>◌}
use healthgrid.Notifications.Cards.{Payload, Request}

-- The fields of `urlsplit(url)` that are read.
pub record SplitUrl : Type 0 where
  pub scheme : String
  pub hostname : Option String
  pub username : Option String
  pub password : Option String

-- The properties of `ipaddress.ip_address(address)` that are read.
pub record Address : Type 0 where
  pub is_private : Bool
  pub is_loopback : Bool
  pub is_link_local : Bool
  pub is_reserved : Bool
  pub is_multicast : Bool

-- `urlsplit`, `str.lower`, `socket.getaddrinfo` and the opener without redirects: the status of the
-- response, or an exception.
pub record Web : Type 0 where
  pub urlsplit : String → SplitUrl
  pub lower : String → String
  pub getaddrinfo : String → Result (List Address)
  pub send : String → Payload → Result ℕ

-- `s.rstrip(".")`
abbrev rstrip_dot : String → String
rstrip_dot String.[] = ""
rstrip_dot (String.◌∷◌ c s) =
    let rest = rstrip_dot s in if is_blank rest && code c == b'.' then "" else String.◌∷◌ c rest

-- `s.lstrip("*.")`
abbrev lstrip_wildcard : String → String
lstrip_wildcard String.[] = ""
lstrip_wildcard (String.◌∷◌ c s) =
    if code c == b'*' || code c == b'.' then lstrip_wildcard s else String.◌∷◌ c s

-- The truth of a text that may be `None`.
abbrev pub is_filled : Option String → Bool
is_filled none = false
is_filled (some s) = not (is_blank s)

-- The first test, and the host name as it is compared.
unfoldable pub is_plain_https : SplitUrl → Bool
is_plain_https parts =
    parts.scheme == "https"
    && is_filled parts.hostname
    && not (is_filled parts.username)
    && not (is_filled parts.password)

abbrev pub host_of : Web → SplitUrl → String
host_of web parts = elim parts.hostname [ none ↦ "" | some h ↦ rstrip_dot (web.lower h) ]

unfoldable pub is_allowed_host : List String → String → Bool
is_allowed_host allowed hostname =
    is_empty allowed
    || any (λ item. hostname == item || ends_with ("." <> lstrip_wildcard item) hostname) allowed

unfoldable pub is_public : Address → Bool
is_public a =
    not (a.is_private || a.is_loopback || a.is_link_local || a.is_reserved || a.is_multicast)

module _ (web : Web) (allowed : List String) where
  -- The state is the list of requests that were sent.
  unfoldable pub post_webhook : String → Payload → Exec (List Request) Bool
  post_webhook webhook_url payload =
      let parts = web.urlsplit webhook_url in
      let hostname = host_of web parts in
      do
        guard (is_plain_https parts) value_error
        guard (is_allowed_host allowed hostname) value_error
        addresses ← lift (web.getaddrinfo hostname)
        guard (all is_public addresses) value_error
        modify (λ sent. sent ++ record { url = webhook_url; payload = payload } ∷ [])
        status ← lift (web.send webhook_url payload)
        pure (leb 200 status && ltb status 300)
