-- ===== src/Serializers/Restricted.antt =====
-- What a change through the instance API may touch.
use healthgrid.Prelude.{
  given, String, Bool, true, false, not, ◌&&◌, Option, none, some, is_some, is_blank, ◌≡◌, refl,
  arith, if◌then◌else◌, any,
}
use mathlib.Core.Path.{subst}
use healthgrid.Results.{Result, ok, raise, ◌>>=◌, bind-eq-ok}
use healthgrid.Models.Accounts.{User, AccessTables}
use healthgrid.Models.Instances.{RdsInstance}
use healthgrid.Mfa.{MfaLibrary, encrypt_password}
use healthgrid.Serializers.{
  ValidatedData, without_passwords, connection_changed, reset_control, set_fields, settle_control,
  set_password_if, control_fields, admin_only_fields, may_write_webhook, set_control_password_if,
  updated, update, check_fields, is_superuser_of,
}
use healthgrid.Serializers.Credentials.{Ensures, Ensures-if}

-- The endpoint, the flags of the Administrator and the lock-control role in use are as they were,
-- and the webhook is the one that was given, if any.
pub record SameEndpoint (w : Option String) (r r' : RdsInstance) : Type 0 where
  pub webhook : r'.owner_teams_webhook_url ≡ given w r.owner_teams_webhook_url
  pub host : r'.host ≡ r.host
  pub port : r'.port ≡ r.port
  pub engine : r'.engine ≡ r.engine
  pub username : r'.username ≡ r.username
  pub db_name : r'.db_name ≡ r.db_name
  pub ssl_required : r'.ssl_required ≡ r.ssl_required
  pub is_active : r'.is_active ≡ r.is_active
  pub excluded : r'.exclude_from_global_notifications ≡ r.exclude_from_global_notifications
  pub lock_control : r'.lock_control_enabled ≡ r.lock_control_enabled
  pub control :
      r.lock_control_enabled ≡ true
      → (r'.control_username ≡ r.control_username)
        × (r'.control_password_encrypted ≡ r.control_password_encrypted)

-- None of the fields that `check_fields` refuses is given.
record Allowed (d : ValidatedData) : Type 0 where
  lock_control : d.lock_control_enabled ≡ none
  control_username : d.control_username ≡ none
  control_password : d.control_password ≡ none
  host : d.host ≡ none
  port : d.port ≡ none
  engine : d.engine ≡ none
  username : d.username ≡ none
  db_name : d.db_name ≡ none
  ssl_required : d.ssl_required ≡ none
  is_active : d.is_active ≡ none
  excluded : d.exclude_from_global_notifications ≡ none

none_given : {A : Type 0} (o : Option A) → is_some o ≡ false → o ≡ none
none_given none h = refl
none_given (some a) h = cc

-- No field that the loops refuse is given, and the webhook only by whoever may write it.
check_fields-passed :
    (t : AccessTables) (user : Option User) (r : RdsInstance) (d : ValidatedData)
    → is_superuser_of user ≡ false
    → check_fields t user r d ≡ ok tt
    → (any (λ b. b) (control_fields d) ≡ false)
      × (any (λ b. b) (admin_only_fields d) ≡ false)
      × ((is_some d.owner_teams_webhook_url && not (may_write_webhook t user r)) ≡ false)
unfolding check_fields
check_fields-passed t user r d plain e = ground (arith, plain, e)

Allowed-passed :
    (d : ValidatedData)
    → any (λ b. b) (control_fields d) ≡ false
    → any (λ b. b) (admin_only_fields d) ≡ false
    → Allowed d
Allowed-passed d c a = record {
  lock_control = none_given _ (ground arith);
  control_username = none_given _ (ground arith);
  control_password = none_given _ (ground arith);
  host = none_given _ (ground arith);
  port = none_given _ (ground arith);
  engine = none_given _ (ground arith);
  username = none_given _ (ground arith);
  db_name = none_given _ (ground arith);
  ssl_required = none_given _ (ground arith);
  is_active = none_given _ (ground arith);
  excluded = none_given _ (ground arith);
}

settle_control-SameEndpoint :
    (w : Option String) (d : ValidatedData) (p : String) (r b : RdsInstance)
    → SameEndpoint w r b
    → d.control_username ≡ none
    → Ensures (SameEndpoint w r) (settle_control d p b)
unfolding settle_control
settle_control-SameEndpoint w d p r b h absent =
    Ensures-if (SameEndpoint w r) (not b.lock_control_enabled) _ _
      (λ off. record {
        webhook = h.webhook;
        host = h.host;
        port = h.port;
        engine = h.engine;
        username = h.username;
        db_name = h.db_name;
        ssl_required = h.ssl_required;
        is_active = h.is_active;
        excluded = h.excluded;
        lock_control = h.lock_control;
        control = λ on. absurd (ground (arith, off, on, h.lock_control));
      })
      (λ on.
        Ensures-if (SameEndpoint w r) (not (is_some d.control_username)) (ok b) _ (λ _. h)
          (λ posted. absurd (ground (arith, posted, absent))))

connection_same : (r : RdsInstance) (d : ValidatedData) → Allowed d → connection_changed r d ≡ false
unfolding connection_changed
connection_same r d a = ground (arith, a.host, a.port, a.engine, a.username)

set_fields-SameEndpoint :
    (r : RdsInstance) (d : ValidatedData)
    → Allowed d
    → SameEndpoint d.owner_teams_webhook_url r (set_fields (without_passwords d) r)
unfolding set_fields
set_fields-SameEndpoint r d a = record {
  webhook = refl;
  host = ground (arith, a.host);
  port = ground (arith, a.port);
  engine = ground (arith, a.engine);
  username = ground (arith, a.username);
  db_name = ground (arith, a.db_name);
  ssl_required = ground (arith, a.ssl_required);
  is_active = ground (arith, a.is_active);
  excluded = ground (arith, a.excluded);
  lock_control = ground (arith, a.lock_control);
  control = λ _. (ground (arith, a.control_username), refl);
}

module _ (lib : MfaLibrary) where
  set_password-SameEndpoint :
      (w : Option String) (p : String) (r b : RdsInstance)
      → SameEndpoint w r b
      → SameEndpoint w r (set_password_if lib p b)
  set_password-SameEndpoint w p r b h = go (is_blank p)
    where
      go :
          (blank : Bool)
          → SameEndpoint w r
              (if blank then b else record b { password_encrypted = encrypt_password lib p })
      go true = h
      go false = record {
        webhook = h.webhook;
        host = h.host;
        port = h.port;
        engine = h.engine;
        username = h.username;
        db_name = h.db_name;
        ssl_required = h.ssl_required;
        is_active = h.is_active;
        excluded = h.excluded;
        lock_control = h.lock_control;
        control = h.control;
      }

  updated-SameEndpoint :
      (r r' : RdsInstance) (d : ValidatedData)
      → Allowed d
      → updated lib r d ≡ ok r'
      → SameEndpoint d.owner_teams_webhook_url r r'
  unfolding updated
  updated-SameEndpoint r r' d a e =
      go d.control_password a.control_password
        (settle_control (without_passwords d) (given d.control_password "") base)
        (settle_control-SameEndpoint d.owner_teams_webhook_url (without_passwords d)
          (given d.control_password "") r base
          (set_password-SameEndpoint d.owner_teams_webhook_url (given d.password "") r _
            (rw (connection_same r d a) (set_fields-SameEndpoint r d a)))
          a.control_username)
        e
    where
      base : RdsInstance
      base = set_password_if lib (given d.password "") (
          reset_control (connection_changed r d) (without_passwords d)
            (set_fields (without_passwords d) r))

      go :
          (p : Option String)
          → p ≡ none
          → (res : Result RdsInstance) → Ensures (SameEndpoint d.owner_teams_webhook_url r) res
          → (res >>= λ x. ok (set_control_password_if lib (given p "") x)) ≡ ok r'
          → SameEndpoint d.owner_teams_webhook_url r r'
      go (some p) absent res h e = cc
      go none absent (raise x) h e = cc
      go none absent (ok x) h e =
          let same : x ≡ r' = cc in subst (SameEndpoint d.owner_teams_webhook_url r) same h

  -- Whoever is no Administrator changes neither the endpoint of an instance nor its flags nor the
  -- lock-control role in use through the instance API, whatever the request holds; and the
  -- webhook only where that account may manage the instance's notifications.
  pub update-SameEndpoint :
      (t : AccessTables) (user : Option User) (r r' : RdsInstance) (d : ValidatedData)
      → is_superuser_of user ≡ false
      → update lib t user r d ≡ ok r'
      → SameEndpoint d.owner_teams_webhook_url r r'
        × (may_write_webhook t user r ≡ false
            → r'.owner_teams_webhook_url ≡ r.owner_teams_webhook_url)
  unfolding update
  update-SameEndpoint t user r r' d plain e =
      let (u, passed, rest) = bind-eq-ok (λ _. updated lib r d) r' (check_fields t user r d) e in
      let (c, a, w) = check_fields-passed t user r d plain passed in
      let same = updated-SameEndpoint r r' d (Allowed-passed d c a) rest in
      (same, λ barred. ground (arith, barred, w, same.webhook))
