-- ===== src/Serializers/Repointed.antt =====
-- What the instance API does to the lock-control role when the connection changes.
use healthgrid.Prelude.{
  given, String, Bool, true, false, not, is_blank, ◌≡◌, refl, arith, if◌then◌else◌,
}
use mathlib.Core.Path.{subst}
use healthgrid.Results.{Result, ok, raise, ◌>>=◌}
use healthgrid.Models.Instances.{RdsInstance}
use healthgrid.Mfa.{MfaLibrary, encrypt_password}
use healthgrid.Serializers.{
  ValidatedData, without_passwords, connection_changed, reset_control, set_fields, settle_control,
  set_password_if, set_control_password_if, updated,
}
use healthgrid.Serializers.Credentials.{Ensures, Ensures-if}

-- Lock control is off, with no username.
abbrev IsOff : RdsInstance → Type 0
IsOff r = (r.lock_control_enabled ≡ false) × (r.control_username ≡ "")

settle_control-IsOff :
    (d : ValidatedData) (p : String) (b : RdsInstance)
    → IsOff b
    → Ensures IsOff (settle_control d p b)
unfolding settle_control
settle_control-IsOff d p b h =
    Ensures-if IsOff (not b.lock_control_enabled) _ _ (λ _. (h.0, refl))
      (λ on. absurd (ground (arith, on, h.0)))

module _ (lib : MfaLibrary) where
  set_password-IsOff : (p : String) (b : RdsInstance) → IsOff b → IsOff (set_password_if lib p b)
  set_password-IsOff p b h = go (is_blank p)
    where
      go :
          (blank : Bool)
          → IsOff (if blank then b else record b { password_encrypted = encrypt_password lib p })
      go true = h
      go false = h

  set_control_password-IsOff :
      (p : String) (b : RdsInstance) → IsOff b → IsOff (set_control_password_if lib p b)
  set_control_password-IsOff p b h = go (is_blank p)
    where
      go :
          (blank : Bool)
          → IsOff (
              if blank then b else record b { control_password_encrypted = encrypt_password lib p })
      go true = h
      go false = h

  -- A change of host, port, engine or username through the instance API switches lock control off
  -- and clears its username, also where the same request gives a new lock-control password and asks
  -- for lock control with a username.
  pub updated_repointed :
      (r r' : RdsInstance) (d : ValidatedData)
      → connection_changed r d ≡ true
      → updated lib r d ≡ ok r'
      → (r'.lock_control_enabled ≡ false) × (r'.control_username ≡ "")
  unfolding updated
  updated_repointed r r' d changed e =
      go (settle_control (without_passwords d) p base)
        (settle_control-IsOff (without_passwords d) p base
          (set_password-IsOff (given d.password "") _ (rw changed (refl, refl))))
        e
    where
      p : String
      p = given d.control_password ""

      base : RdsInstance
      base = set_password_if lib (given d.password "") (
          reset_control (connection_changed r d) (without_passwords d)
            (set_fields (without_passwords d) r))

      go :
          (res : Result RdsInstance)
          → Ensures IsOff res
          → (res >>= λ x. ok (set_control_password_if lib p x)) ≡ ok r'
          → IsOff r'
      go (raise x) h e = cc
      go (ok x) h e =
          let same : set_control_password_if lib p x ≡ r' = cc in
          subst IsOff same (set_control_password-IsOff p x h)
