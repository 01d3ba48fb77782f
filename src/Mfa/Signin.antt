-- ===== src/Mfa/Signin.antt =====
-- monitor/auth_views.py: sign-in by password and second factor, and the set-up of the factor.
use healthgrid.Prelude.{
  ℕ, suc, String, Bool, not, ◌&&◌, ◌||◌, Option, none, some, List, [], ◌∷◌, ◌<>◌, ◌++◌, leb,
  is_blank, show, any, string_eq, nat_eq, ◌==◌, if◌then◌else◌,
}
use healthgrid.Prelude.Dict.{Dict, get, put}
use healthgrid.Prelude.Tables.{select, update_where, delete_where}
use healthgrid.Models.Accounts.{User}
use healthgrid.Access.{first}
use healthgrid.Mfa.{
  MfaLibrary, UserMfa, new_profile, Session, empty_session, new_enrollment, verify_code,
  confirm_enrollment, mark_session_verified, mark_session_mfa_passed,
}

-- What the handlers of one browser session read and write: its session, the second factors, and the
-- failures that the cache counts. An entry of the cache does not expire here: the model is of calls
-- within the 15 minutes that it lives.
pub record AuthState : Type 0 where
  pub session : Session
  pub profiles : List UserMfa
  pub failures : Dict String ℕ

-- A redirect by its target, or a page with the error it shows.
pub data Response : Type 0 where
  redirect : String → Response
  render : String → Response

pub record SigninLibrary : Type 0 where
  -- `str(subject).strip().lower()[:150]`
  pub subject_text : String → String
  -- `url_has_allowed_host_and_scheme`
  pub is_safe_url : String → Bool

abbrev pub login_throttle_limit : ℕ
login_throttle_limit = 10

unfoldable pub auth_throttle_key : SigninLibrary → String → String → String
auth_throttle_key web address subject =
    "auth-fail:" <> (address <> (":" <> web.subject_text subject))

abbrev pub count_of : Option ℕ → ℕ
count_of none = 0
count_of (some n) = n

unfoldable pub is_throttled : String → Dict String ℕ → Bool
is_throttled key failures = leb login_throttle_limit (count_of (get key failures))

unfoldable pub record_failure : String → Dict String ℕ → Dict String ℕ
record_failure key failures = put key (suc (count_of (get key failures))) failures

unfoldable pub clear_failures : String → Dict String ℕ → Dict String ℕ
clear_failures key failures = delete_where (λ e. e.0 == key) failures

-- `user.mfa_profile`
abbrev pub profile_of : ℕ → List UserMfa → Option UserMfa
profile_of user profiles = first (select (λ p. p.user_id == user) profiles)

abbrev pub profile_or_new : ℕ → List UserMfa → UserMfa
profile_or_new user profiles = elim (profile_of user profiles) [
  | none ↦ new_profile user
  | some p ↦ p
]

-- `profile.save()`, after a `get_or_create`
unfoldable pub save_profile : UserMfa → List UserMfa → List UserMfa
save_profile p profiles =
    if any (λ q. q.user_id == p.user_id) profiles
    then update_where (λ q. q.user_id == p.user_id) (λ _. p) profiles
    else profiles ++ p ∷ []

-- Django's `login`: a session of another account is emptied first.
unfoldable pub login : ℕ → Session → Session
login user s = elim s.user [
  | none ↦ record s { user = some user }
  | some other ↦ if other == user then s else record empty_session { user = some user }
]

module _ (lib : MfaLibrary) (web : SigninLibrary) (address : String) where
  -- `DashboardLoginView.form_valid`, for an account whose password was right
  unfoldable pub form_valid : User → String → AuthState → Response × AuthState
  unfolding auth_throttle_key clear_failures save_profile login
  form_valid user next_url st =
      let profile = profile_or_new user.pk st.profiles in
      let st' = record st {
        failures = clear_failures (auth_throttle_key web address user.username) st.failures;
        profiles = save_profile profile st.profiles;
      } in
      if not profile.enabled
      then (redirect "mfa-setup", record st' { session = login user.pk st.session })
      else (
        redirect "mfa-verify",
        record st' {
          session = record (st.session) {
            pending_user = some user.pk;
            pending_next = if web.is_safe_url next_url then next_url else "";
          };
        },
      )

  -- `DashboardLoginView.form_invalid`
  unfoldable pub form_invalid : String → AuthState → Response × AuthState
  unfolding auth_throttle_key record_failure
  form_invalid subject st = (
    render "Please enter a correct username and password.",
    record st { failures = record_failure (auth_throttle_key web address subject) st.failures },
  )

  -- `DashboardLoginView.post`: `authenticated` is what Django's form found for name and password.
  unfoldable pub login_post : String → Option User → String → AuthState → Response × AuthState
  unfolding auth_throttle_key is_throttled form_valid form_invalid
  login_post subject authenticated next_url st =
      if is_throttled (auth_throttle_key web address subject) st.failures
      then (render "Too many sign-in attempts. Try again in 15 minutes.", st)
      else elim authenticated [
        | none ↦ form_invalid subject st
        | some user ↦ form_valid user next_url st
      ]

  -- The key of `mfa_verify`.
  abbrev pub verify_key : ℕ → String
  verify_key user = auth_throttle_key web address ("mfa:" <> show user)

  -- The branch of a valid code.
  unfoldable pub complete_login : ℕ → ℕ → Session → Session
  unfolding login
  complete_login now user s =
      record (mark_session_mfa_passed user (mark_session_verified now (login user s))) {
        pending_user = none;
        pending_next = "";
      }

  -- The POST of `mfa_verify` for the account that the session has pending.
  unfoldable pub verify_post : ℕ → UserMfa → String → AuthState → Response × AuthState
  unfolding is_throttled record_failure clear_failures verify_code complete_login
  verify_post now profile code st =
      let key = verify_key profile.user_id in
      let (valid, profile') = verify_code lib now profile code in
      if is_throttled key st.failures
      then (render "Too many verification attempts. Try again in 15 minutes.", st)
      else if valid
      then (
        redirect
            (if is_blank st.session.pending_next then "instance-list" else st.session.pending_next),
        record {
          session = complete_login now profile.user_id st.session;
          profiles = save_profile profile' st.profiles;
          failures = clear_failures key st.failures;
        },
      )
      else (
        render "That authenticator or recovery code is invalid. Try again.",
        record st { failures = record_failure key st.failures },
      )

  -- The lookup of an active account that has a second factor.
  abbrev pub pending_profile : List User → Option ℕ → List UserMfa → Option UserMfa
  pending_profile users none profiles = none
  pending_profile users (some pk) profiles =
      if any (λ u. u.pk == pk && u.is_active) users then profile_of pk profiles else none

  -- `mfa_verify`; a GET has no code
  unfoldable pub mfa_verify : ℕ → List User → Option String → AuthState → Response × AuthState
  unfolding verify_post
  mfa_verify now users code st = elim st.session.user [
    | some signed_in ↦ (redirect "instance-list", st)
    | none ↦ elim st.session.pending_user [
      | none ↦ (redirect "login", st)
      | some user_id ↦ elim (pending_profile users (some user_id) st.profiles) [
        | none ↦ (redirect "login", record st { session = empty_session })
        | some profile ↦ elim code [
          | none ↦ (render "", st)
          | some posted ↦ verify_post now profile posted st
        ]
      ]
    ]
  ]

  -- `action` and `code` of a POST of `mfa_setup`
  pub data SetupAction : Type 0 where
    regenerate : SetupAction
    reset : String → SetupAction
    confirm : String → SetupAction

  -- The POST of `mfa_setup`: the response where it redirects. `secret` and `codes` are the random
  -- values of a new enrollment.
  unfoldable pub setup_post :
      ℕ → ℕ → String → List String → SetupAction → UserMfa → AuthState → Option Response × AuthState
  unfolding new_enrollment verify_code confirm_enrollment save_profile
  setup_post now user secret codes regenerate profile st = if profile.enabled then (none, st) else (
    some (redirect "mfa-setup"),
    record st { profiles = save_profile (new_enrollment lib secret codes profile) st.profiles },
  )
  setup_post now user secret codes (reset code) profile st =
      let (valid, profile') = verify_code lib now profile code in
      if profile.enabled && valid
      then (
        some (redirect "mfa-setup"),
        record st {
          profiles = save_profile (new_enrollment lib secret codes profile') st.profiles;
        },
      )
      else (none, st)
  setup_post now user secret codes (confirm code) profile st =
      let (confirmed, profile') = confirm_enrollment lib now profile code in
      if confirmed
      then (
        some (redirect "instance-list"),
        record st {
          profiles = save_profile profile' st.profiles;
          session = mark_session_mfa_passed user (mark_session_verified now st.session);
        },
      )
      else (none, st)

  -- `mfa_setup` of the account that is signed in; the page makes up for a missing secret.
  unfoldable pub mfa_setup :
      ℕ → ℕ → String → List String → Option SetupAction → AuthState → Response × AuthState
  unfolding setup_post save_profile new_enrollment
  mfa_setup now user secret codes action st =
      let posted : Option Response × AuthState = elim action [
        | none ↦ (none, st)
        | some a ↦ setup_post now user secret codes a (profile_or_new user st.profiles) st
      ] in
      let profile = profile_or_new user posted.1.profiles in
      elim posted.0 [
        | some response ↦ (response, posted.1)
        | none ↦ (
          render "",
          if not profile.enabled
                && (is_blank profile.secret_encrypted
                    || is_blank profile.pending_backup_codes_encrypted)
              then record (posted.1) {
                profiles = save_profile (new_enrollment lib secret codes profile) posted.1.profiles;
              }
              else posted.1,
        )
      ]
