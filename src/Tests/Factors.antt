-- ===== src/Tests/Factors.antt =====
-- Second factors.
use healthgrid.Prelude.{
  ℕ, ◌+◌, ◌*◌, ◌≤◌, All, String, true, false, some, List, [], ◌∷◌, ◌≡◌, refl, arith, string_eq,
  ◌==◌, join, split_at, beq_refl,
}
use healthgrid.Prelude.Tables.{delete_where}
use healthgrid.Mfa.{
  MfaLibrary, UserMfa, new_profile, Session, empty_session, consume_backup_code, candidate_of,
  new_enrollment, confirm_enrollment, verify_totp, verify_code, has_recent_session_verification,
  verified_or_epoch,
}
use healthgrid.Mfa.Signin.{AuthState, SigninLibrary, render, verify_post}
use healthgrid.Mfa.Throttle.{Post, posts, IsWrong, verify_post-throttled}
use healthgrid.Mfa.Backup.{consume_backup_code-once, confirm_enrollment-codes}
use healthgrid.Mfa.Gate.{
  RequestPath, get_response, call, is_guarded, is_admin_page, is_enrolled, call-passed,
}

-- Stand-ins: a text is encrypted by a mark in front, a password is its own hash, and the one valid
-- authenticator code is 123456.
abbrev strip_mark : String → String
strip_mark String.[] = ""
strip_mark (String.◌∷◌ c s) = s

abbrev lib : MfaLibrary
lib = record {
  totp_verify = λ secret code now. code == "123456";
  encrypt = λ s. String.◌∷◌ "#" s;
  decrypt = strip_mark;
  make_password = λ s. s;
  check_password = λ s hashed. s == hashed;
  compact = λ s. s;
  upper = λ s. s;
  is_six_digits = λ s. s == "123456";
  strip = λ s. s;
  join_lines = join "\n";
  split_lines = split_at 10;
}

abbrev enrolled : UserMfa
enrolled = record (new_profile 7) {
  secret_encrypted = "#S";
  backup_codes = "AAAA" ∷ "BBBB" ∷ [];
  enabled = true;
}

takes : (consume_backup_code lib enrolled "AAAA").0 ≡ true
unfolding consume_backup_code
takes = refl

consume_backup_code-once_example :
    ((consume_backup_code lib enrolled "AAAA").1.backup_codes
      ≡ delete_where (lib.check_password (candidate_of lib "AAAA")) enrolled.backup_codes)
    × (consume_backup_code lib (consume_backup_code lib enrolled "AAAA").1 "AAAA"
        ≡ (false, (consume_backup_code lib enrolled "AAAA").1))
consume_backup_code-once_example = consume_backup_code-once lib enrolled "AAAA" (omega arith) takes

is_valid :
    verify_totp lib 0 (new_enrollment lib "S" ("AAAA" ∷ "BBBB" ∷ []) (new_profile 7)) "123456"
    ≡ true
unfolding verify_totp new_enrollment
is_valid = refl

confirm_enrollment-codes_example :
    let (confirmed, after) =
      confirm_enrollment lib 0
        (new_enrollment lib "S" ("AAAA" ∷ "BBBB" ∷ []) (new_profile 7))
        "123456" in
    (confirmed ≡ true) × (after.enabled ≡ true) × ((consume_backup_code lib after "BBBB").0 ≡ true)
confirm_enrollment-codes_example =
    confirm_enrollment-codes lib 0 "S" "BBBB" "123456" ("AAAA" ∷ "BBBB" ∷ []) (new_profile 7)
      (λ text. refl) (λ text. refl) refl (λ text. beq_refl text) refl refl refl is_valid

abbrev web : SigninLibrary
web = record { subject_text = λ s. s; is_safe_url = λ s. true }

abbrev waiting : AuthState
waiting = record {
  session = record empty_session { pending_user = some 7 };
  profiles = enrolled ∷ [];
  failures = [];
}

-- A guess every 30 seconds
abbrev guess : ℕ → Post
guess n = record { at = 30 * n; profile = enrolled; code = "000000" }

guess-IsWrong : (n : ℕ) → IsWrong lib web "10.0.0.1" 7 (guess n)
unfolding verify_code
guess-IsWrong n = record { account = refl; wrong = refl }

abbrev guesses : List Post
guesses =
    guess 0
    ∷ guess 1
    ∷ guess 2
    ∷ guess 3
    ∷ guess 4
    ∷ guess 5
    ∷ guess 6
    ∷ guess 7
    ∷ guess 8
    ∷ guess 9
    ∷ []

guesses-IsWrong : All (IsWrong lib web "10.0.0.1" 7) guesses
guesses-IsWrong = (
  guess-IsWrong 0,
  (
    guess-IsWrong 1,
    (
      guess-IsWrong 2,
      (
        guess-IsWrong 3,
        (
          guess-IsWrong 4,
          (
            guess-IsWrong 5,
            (guess-IsWrong 6, (guess-IsWrong 7, (guess-IsWrong 8, (guess-IsWrong 9, tt)))),
          ),
        ),
      ),
    ),
  ),
)

verify_post-throttled_example :
    verify_post lib web "10.0.0.1" 600 enrolled "123456" (posts lib web "10.0.0.1" guesses waiting)
    ≡ (
      render "Too many verification attempts. Try again in 15 minutes.",
      posts lib web "10.0.0.1" guesses waiting,
    )
verify_post-throttled_example =
    verify_post-throttled lib web "10.0.0.1" guesses 600 enrolled "123456" waiting guesses-IsWrong
      (omega arith)

abbrev admin_page : RequestPath
admin_page = record {
  path = "/admin/";
  is_static = false;
  is_admin = true;
  is_admin_login = false;
  is_admin_logout = false;
}

abbrev signed_in : Session
signed_in = record empty_session { user = some 7; verified_at = some 1000; mfa_session_ok = some 7 }

is_passed : (call true 1200 admin_page (some enrolled) signed_in).0 ≡ get_response
unfolding call has_recent_session_verification
is_passed = refl

call-passed_example :
    (is_guarded true admin_page signed_in ≡ true
      → (is_enrolled (some enrolled) ≡ true) × (signed_in.mfa_session_ok ≡ signed_in.user))
    × (is_admin_page admin_page signed_in ≡ true
        → (is_enrolled (some enrolled) ≡ true)
          × (1200 ≤ verified_or_epoch signed_in.verified_at + 300))
call-passed_example = call-passed true 1200 admin_page (some enrolled) signed_in is_passed
