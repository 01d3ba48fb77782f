-- ===== src/Mfa.antt =====
-- monitor/mfa.py and monitor/crypto.py: second factors of an account, and what a session remembers
-- of them.
pub mod Signin
pub mod Backup
pub mod Throttle
pub mod Gate
use healthgrid.Prelude.{
  ℕ, ◌+◌, String, Bool, true, false, not, ◌&&◌, ◌||◌, Option, none, some, List, [], ◌∷◌, map, leb,
  is_blank, is_empty, string_eq, nat_eq, ◌==◌, if◌then◌else◌,
}
use healthgrid.Models.Accounts.{User}

-- What the code calls of pyotp, cryptography, Django's hashers and Python's strings.
pub record MfaLibrary : Type 0 where
  -- `pyotp.TOTP(secret).verify(code, valid_window=1)` at a time
  pub totp_verify : String → String → ℕ → Bool
  pub encrypt : String → String
  pub decrypt : String → String
  pub make_password : String → String
  pub check_password : String → String → Bool
  -- `replace(" ", "").strip()`, `str.upper`, and `isdigit() and len == 6`
  pub compact : String → String
  pub upper : String → String
  pub is_six_digits : String → Bool
  pub strip : String → String
  -- `"\n".join` and `splitlines`
  pub join_lines : List String → String
  pub split_lines : String → List String

pub record UserMfa : Type 0 where
  pub user_id : ℕ
  pub secret_encrypted : String
  pub backup_codes : List String
  pub pending_backup_codes_encrypted : String
  pub enabled : Bool
  pub confirmed_at : Option ℕ

-- The row that `get_or_create` makes.
abbrev pub new_profile : ℕ → UserMfa
new_profile user_id = record {
  user_id = user_id;
  secret_encrypted = "";
  backup_codes = [];
  pending_backup_codes_encrypted = "";
  enabled = false;
  confirmed_at = none;
}

-- The keys of a session that the program reads; `user` is the account that is signed in.
pub record Session : Type 0 where
  pub user : Option ℕ
  pub verified_at : Option ℕ
  pub mfa_session_ok : Option ℕ
  pub pending_user : Option ℕ
  pub pending_next : String

abbrev pub empty_session : Session
empty_session = record {
  user = none;
  verified_at = none;
  mfa_session_ok = none;
  pending_user = none;
  pending_next = "";
}

module _ (lib : MfaLibrary) where
  unfoldable pub encrypt_password : String → String
  encrypt_password plaintext = if is_blank plaintext then "" else lib.encrypt plaintext

  unfoldable pub decrypt_password : String → String
  decrypt_password ciphertext = if is_blank ciphertext then "" else lib.decrypt ciphertext

  -- `secret` and `codes` are the random values.
  unfoldable pub new_enrollment : String → List String → UserMfa → UserMfa
  unfolding encrypt_password
  new_enrollment secret codes profile = record profile {
    secret_encrypted = encrypt_password secret;
    pending_backup_codes_encrypted = encrypt_password (lib.join_lines codes);
    backup_codes = [];
    enabled = false;
    confirmed_at = none;
  }

  unfoldable pub get_pending_backup_codes : UserMfa → List String
  unfolding decrypt_password
  get_pending_backup_codes profile =
      if is_blank profile.pending_backup_codes_encrypted
      then []
      else lib.split_lines (decrypt_password profile.pending_backup_codes_encrypted)

  unfoldable pub verify_totp : ℕ → UserMfa → String → Bool
  unfolding decrypt_password
  verify_totp now profile code =
      if is_blank profile.secret_encrypted
      then false
      else if not (lib.is_six_digits (lib.compact code))
      then false
      else lib.totp_verify (decrypt_password profile.secret_encrypted) (lib.compact code) now

  abbrev pub kept : String → Option (List String) → Option (List String)
  kept hashed none = none
  kept hashed (some left) = some (hashed ∷ left)

  -- The loop over the hashes: the first that matches is popped.
  unfoldable pub pop_match : String → List String → Option (List String)
  pop_match candidate [] = none
  pop_match candidate (hashed ∷ rest) =
      let later = pop_match candidate rest in
      if lib.check_password candidate hashed then some rest else kept hashed later

  abbrev pub popped : UserMfa → Option (List String) → Bool × UserMfa
  popped profile none = (false, profile)
  popped profile (some left) = (true, record profile { backup_codes = left })

  abbrev pub candidate_of : String → String
  candidate_of code = lib.upper (lib.compact code)

  unfoldable pub consume_backup_code : UserMfa → String → Bool × UserMfa
  unfolding pop_match
  consume_backup_code profile code =
      if is_blank (candidate_of code) || is_empty profile.backup_codes
      then (false, profile)
      else popped profile (pop_match (candidate_of code) profile.backup_codes)

  -- `verify_code`, with `allow_backup` as every caller leaves it
  unfoldable pub verify_code : ℕ → UserMfa → String → Bool × UserMfa
  unfolding verify_totp consume_backup_code
  verify_code now profile code =
      if verify_totp now profile code then (true, profile) else consume_backup_code profile code

  unfoldable pub confirm_enrollment : ℕ → UserMfa → String → Bool × UserMfa
  unfolding verify_totp get_pending_backup_codes
  confirm_enrollment now profile code =
      let pending_codes = get_pending_backup_codes profile in
      if profile.enabled || not (verify_totp now profile code)
      then (false, profile)
      else if is_empty pending_codes
      then (false, profile)
      else (
        true,
        record profile {
          backup_codes = map lib.make_password pending_codes;
          pending_backup_codes_encrypted = "";
          enabled = true;
          confirmed_at = some now;
        },
      )

abbrev pub mark_session_verified : ℕ → Session → Session
mark_session_verified now s = record s { verified_at = some now }

abbrev pub mark_session_mfa_passed : ℕ → Session → Session
mark_session_mfa_passed user s = record s { mfa_session_ok = some user }

abbrev pub same_user : Option ℕ → Option ℕ → Bool
same_user (some a) (some b) = a == b
same_user _ _ = false

-- `session_passed_mfa`: false where nobody is signed in
unfoldable pub session_passed_mfa : Session → Bool
session_passed_mfa s = same_user s.mfa_session_ok s.user

-- `0 <= now - verified_at <= 300`, where a missing stamp is the epoch
abbrev pub verified_or_epoch : Option ℕ → ℕ
verified_or_epoch none = 0
verified_or_epoch (some t) = t

unfoldable pub has_recent_session_verification : ℕ → Session → Bool
has_recent_session_verification now s =
    leb (verified_or_epoch s.verified_at) now && leb now (verified_or_epoch s.verified_at + 300)

module _ (lib : MfaLibrary) where
  -- What follows the lookup of the profile.
  unfoldable pub require_mfa : ℕ → Session → UserMfa → String → Bool → Bool × UserMfa × Session
  unfolding verify_code has_recent_session_verification
  require_mfa now s profile code require_code =
      if not profile.enabled
      then (false, profile, s)
      else if is_blank (lib.strip code)
      then (not require_code && has_recent_session_verification now s, profile, s)
      else (let (valid, profile') = verify_code lib now profile (lib.strip code) in
          (valid, profile', if valid then mark_session_verified now s else s))

  -- `require_mfa_for_action` for a code that is a text
  unfoldable pub require_mfa_for_action :
      ℕ → Session → Option UserMfa → String → Bool → Bool × Option UserMfa × Session
  unfolding require_mfa
  require_mfa_for_action now s none code require_code = (false, none, s)
  require_mfa_for_action now s (some profile) code require_code =
      let (allowed, profile', s') = require_mfa now s profile code require_code in
      (allowed, some profile', s')
