-- ===== src/Serializers/Credentials.antt =====
-- The instance API keeps the credentials of an instance complete.
use mathlib.Core.Path.{subst}
use healthgrid.Prelude.{
  given, ℕ, String, Bool, true, false, not, ◌&&◌, ◌||◌, Option, none, some, is_some, is_blank, ◌≡◌,
  refl, arith, Bool-cases, inl, inr, if◌then◌else◌, ◌∙◌,
}
use healthgrid.Results.{Result, ok, raise, ◌>>=◌}
use healthgrid.Models.Accounts.{User}
use healthgrid.Models.Instances.{RdsInstance}
use healthgrid.Models.Credentials.{HasCredentials}
use healthgrid.Mfa.{MfaLibrary, encrypt_password}
use healthgrid.Serializers.{
  ValidatedData, without_passwords, connection_changed, reset_control, set_fields, settle_control,
  set_password_if, set_control_password_if, updated, permitted_control, new_instance, create,
  is_superuser_of,
}

-- A ciphertext is never blank.
abbrev pub Encrypts : MfaLibrary → Type 0
Encrypts lib = (p : String) → is_blank p ≡ false → is_blank (lib.encrypt p) ≡ false

abbrev pub Ensures : {A : Type 0} → (A → Type 0) → Result A → Type 0
Ensures P (ok a) = P a
Ensures P (raise e) = Unit

pub Ensures-if :
    {A : Type 0} (P : A → Type 0) (b : Bool) (m n : Result A)
    → (b ≡ true → Ensures P m)
    → (b ≡ false → Ensures P n)
    → Ensures P (if b then m else n)
Ensures-if P true m n hm hn = hm refl
Ensures-if P false m n hm hn = hn refl

-- What a stored lock-control username needs, and what `updated` knows before it settles it.
abbrev is_kept : RdsInstance → Bool
is_kept r = is_blank r.control_username || not (is_blank r.control_password_encrypted)

kept_before :
    (d : ValidatedData) (changed : Bool) (r : RdsInstance)
    → HasCredentials r
    → is_some d.control_username ≡ false
    → (not (reset_control changed d (set_fields d r)).lock_control_enabled
        || is_kept (reset_control changed d (set_fields d r)))
      ≡ true
unfolding set_fields
kept_before d true r h absent = ground arith
kept_before d false r h absent = ground arith

module _ (lib : MfaLibrary) (encrypts : Encrypts lib) where
  -- The columns of the query runner are as they were.
  abbrev SameRunner : RdsInstance → RdsInstance → Type 0
  SameRunner r r' =
      (r'.query_runner_enabled ≡ r.query_runner_enabled)
      × (r'.query_runner_username ≡ r.query_runner_username)
      × (r'.query_runner_password_encrypted ≡ r.query_runner_password_encrypted)

  -- The columns hold what they owe, and the query runner is untouched.
  abbrev Settled : RdsInstance → RdsInstance → Type 0
  Settled r final =
      ((not final.lock_control_enabled || is_kept final) ≡ true)
      × ((final.lock_control_enabled || is_blank final.control_username) ≡ true)
      × SameRunner r final

  set_password-Settled :
      (p : String) (r r' : RdsInstance)
      → (is_blank p ≡ true → Settled r r')
      → (is_blank p ≡ false
          → Settled r (record r' { control_password_encrypted = encrypt_password lib p }))
      → Settled r (set_control_password_if lib p r')
  set_password-Settled p r r' old new = go (is_blank p) old new
    where
      go :
          (b : Bool)
          → (b ≡ true → Settled r r')
          → (b ≡ false
              → Settled r (record r' { control_password_encrypted = encrypt_password lib p }))
          → Settled r
              (if b then r' else record r' { control_password_encrypted = encrypt_password lib p })
      go true old new = old refl
      go false old new = new refl

  settle_control-Settled :
      (d : ValidatedData) (p : String) (r : RdsInstance)
      → (is_some d.control_username ≡ false → (not r.lock_control_enabled || is_kept r) ≡ true)
      → Ensures (λ r'. Settled r (set_control_password_if lib p r')) (settle_control d p r)
  unfolding settle_control encrypt_password
  settle_control-Settled d p r kept =
      Ensures-if Good (not r.lock_control_enabled)
        (ok (record r { control_username = ""; control_password_encrypted = "" })) _
        (λ off. set_password-Settled p r _ (λ _. ground arith) (λ filled. ground arith))
        (λ on.
          Ensures-if Good (not (is_some d.control_username)) (ok r) _
            (λ absent.
              set_password-Settled p r r (λ _. ground (arith, kept))
                (λ filled. ground (arith, encrypts p filled)))
            (λ posted.
              Ensures-if Good (not (is_blank r.control_username) && is_blank p) _ _ (λ _. tt)
                (λ fine. elim (Bool-cases (is_blank r.control_username)) [
                  | inl none_ ↦ rw none_ (
                      set_password-Settled p r (record r { control_password_encrypted = "" })
                        (λ _. ground arith) (λ filled. ground (arith, encrypts p filled)))
                  | inr one ↦ rw one (
                      set_password-Settled p r r (λ blank. absurd (ground (arith, fine, posted)))
                        (λ filled. ground (arith, encrypts p filled)))
                ])))
    where
      Good : RdsInstance → Type 0
      Good r' = Settled r (set_control_password_if lib p r')

  -- The row that `updated` settles.
  abbrev prepared : RdsInstance → ValidatedData → RdsInstance
  prepared r d = set_password_if lib (given d.password "") (
      reset_control (connection_changed r d) (without_passwords d)
        (set_fields (without_passwords d) r))

  prepared-kept :
      (r : RdsInstance) (d : ValidatedData)
      → HasCredentials r
      → (is_some d.control_username ≡ false
          → (not (prepared r d).lock_control_enabled || is_kept (prepared r d)) ≡ true)
        × SameRunner r (prepared r d)
  unfolding set_fields
  prepared-kept r d h = go (is_blank (given d.password "")) (connection_changed r d)
    where
      rest : ValidatedData
      rest = without_passwords d

      start : Bool → Bool → RdsInstance
      start blank changed =
          let reset = reset_control changed rest (set_fields rest r) in
          if blank
          then reset
          else record reset { password_encrypted = encrypt_password lib (given d.password "") }

      go :
          (blank changed : Bool)
          → (is_some d.control_username ≡ false
              → (not (start blank changed).lock_control_enabled || is_kept (start blank changed))
                ≡ true)
            × SameRunner r (start blank changed)
      go true true = ((λ e. kept_before rest true r h e), (refl, refl, refl))
      go true false = ((λ e. kept_before rest false r h e), (refl, refl, refl))
      go false true = ((λ e. kept_before rest true r h e), (refl, refl, refl))
      go false false = ((λ e. kept_before rest false r h e), (refl, refl, refl))

  of_Settled :
      (r before final : RdsInstance)
      → HasCredentials r
      → SameRunner r before
      → Settled before final
      → HasCredentials final
  of_Settled r before final h same s = record {
    control = s.0;
    control_off = s.1;
    runner = rw (s.2.0 ∙ same.0, s.2.1 ∙ same.1, s.2.2 ∙ same.2) (h.runner);
  }

  pub updated-HasCredentials :
      (r r' : RdsInstance) (d : ValidatedData)
      → HasCredentials r
      → updated lib r d ≡ ok r'
      → HasCredentials r'
  unfolding updated
  updated-HasCredentials r r' d h e =
      go (settle_control (without_passwords d) p (prepared r d))
        (settle_control-Settled (without_passwords d) p (prepared r d) (prepared-kept r d h).0) e
    where
      p : String
      p = given d.control_password ""

      go :
          (res : Result RdsInstance)
          → Ensures (λ x. Settled (prepared r d) (set_control_password_if lib p x)) res
          → (res >>= λ x. ok (set_control_password_if lib p x)) ≡ ok r'
          → HasCredentials r'
      go (raise x) s e = cc
      go (ok x) s e =
          let same : set_control_password_if lib p x ≡ r' = cc in
          subst HasCredentials same (
            of_Settled r (prepared r d) (set_control_password_if lib p x) h (prepared-kept r d h).1
              s)

  permitted-fits :
      (user : Option User) (d : ValidatedData)
      → let mine = permitted_control user d in
        (given mine.lock_control_enabled false || is_blank (given mine.control_username "")) ≡ true
  unfolding permitted_control
  permitted-fits user d = go (is_superuser_of user) d.lock_control_enabled
    where
      go :
          (super : Bool) (on : Option Bool)
          → let mine = if super then record d { lock_control_enabled = on } else record d {
            lock_control_enabled = none;
            control_username = none;
            control_password = none;
          } in
            let permitted =
              if given mine.lock_control_enabled false
              then mine
              else record mine { control_username = some ""; control_password = none } in
            (given permitted.lock_control_enabled false
              || is_blank (given permitted.control_username ""))
            ≡ true
      go true none = refl
      go true (some true) = refl
      go true (some false) = refl
      go false on = refl

  pub create-HasCredentials :
      (pk group : ℕ) (by : Option ℕ) (user : Option User) (d : ValidatedData)
      → Ensures HasCredentials (create lib pk group by user d)
  unfolding create new_instance encrypt_password
  create-HasCredentials pk group by user d =
      let mine = permitted_control user d in
      let p = given mine.control_password "" in
      let r = record (new_instance pk group by mine) {
        password_encrypted = encrypt_password lib (given mine.password "");
      } in
      Ensures-if HasCredentials (not (is_blank (given mine.control_username "")) && is_blank p) _
        (ok (set_control_password_if lib p r)) (λ _. tt)
        (λ fine. go p r (is_blank p) refl fine (permitted-fits user d) refl)
    where
      go :
          (p : String) (r : RdsInstance) (b : Bool)
          → is_blank p ≡ b
          → (not (is_blank r.control_username) && is_blank p) ≡ false
          → (r.lock_control_enabled || is_blank r.control_username) ≡ true
          → r.query_runner_enabled ≡ false
          → HasCredentials
              (if b then r else record r { control_password_encrypted = encrypt_password lib p })
      go p r true blank fine fits off = record {
        control = ground arith;
        control_off = fits;
        runner = ground arith;
      }
      go p r false filled fine fits off = record {
        control = ground (arith, encrypts p filled);
        control_off = fits;
        runner = ground arith;
      }
