-- ===== src/Mfa/Gate.antt =====
-- monitor/middleware.py: which requests `AdminMFARequiredMiddleware` lets through.
use healthgrid.Prelude.{
  ℕ, String, Bool, true, false, not, ◌&&◌, ◌||◌, Option, none, some, List, [], ◌∷◌, is_some,
  contains, string_eq, nat_eq, if◌then◌else◌, ◌≡◌, refl, arith, Bool-cases, inl, inr, ◌≤◌, ◌+◌, ap,
  sym, ◌∙◌, nat_beq_iff,
}
use healthgrid.Mfa.{
  UserMfa, Session, empty_session, session_passed_mfa, has_recent_session_verification, same_user,
  verified_or_epoch,
}

-- What the middleware reads of a request: the path, and the tests of its beginning.
pub record RequestPath : Type 0 where
  pub path : String
  pub is_static : Bool
  pub is_admin : Bool
  pub is_admin_login : Bool
  pub is_admin_logout : Bool

-- The view's response, or a redirect.
pub data Verdict : Type 0 where
  get_response mfa_setup login : Verdict

abbrev pub mfa_exempt_paths : List String
mfa_exempt_paths = "/login/" ∷ "/logout/" ∷ "/mfa/verify/" ∷ "/settings/security/mfa/" ∷ []

-- `profile and profile.enabled`
abbrev pub is_enrolled : Option UserMfa → Bool
is_enrolled none = false
is_enrolled (some p) = p.enabled

-- The first condition.
unfoldable pub is_guarded : Bool → RequestPath → Session → Bool
is_guarded mfa_required r s =
    mfa_required
    && (is_some s.user
        && (not (contains r.path mfa_exempt_paths)
            && (not r.is_static && (not r.is_admin_login && not r.is_admin_logout))))

-- The second condition.
unfoldable pub is_admin_page : RequestPath → Session → Bool
is_admin_page r s =
    r.is_admin && (not r.is_admin_login && (not r.is_admin_logout && is_some s.user))

-- The second half of `__call__`.
unfoldable pub check_admin : ℕ → RequestPath → Option UserMfa → Session → Verdict × Session
unfolding is_admin_page
check_admin now r profile s =
    if is_admin_page r s
      && (not (is_enrolled profile) || not (has_recent_session_verification now s))
    then (login, empty_session)
    else (get_response, s)

-- `__call__`; `profile` is that of the account of the session.
unfoldable pub call : Bool → ℕ → RequestPath → Option UserMfa → Session → Verdict × Session
unfolding is_guarded check_admin session_passed_mfa
call mfa_required now r profile s =
    if is_guarded mfa_required r s
    then if not (is_enrolled profile)
      then (mfa_setup, s)
      else if not (session_passed_mfa s)
      then (login, empty_session)
      else check_admin now r profile s
    else check_admin now r profile s

same_user-eq : (a b : Option ℕ) → same_user a b ≡ true → a ≡ b
same_user-eq none none h = refl
same_user-eq none (some b) h = cc
same_user-eq (some a) none h = cc
same_user-eq (some a) (some b) h = ap some ((nat_beq_iff a b).0 h)

check_admin-passed :
    (now : ℕ) (r : RequestPath) (profile : Option UserMfa) (s : Session)
    → (check_admin now r profile s).0 ≡ get_response
    → is_admin_page r s ≡ true
    → (is_enrolled profile ≡ true) × (has_recent_session_verification now s ≡ true)
unfolding check_admin
check_admin-passed now r profile s passed page =
    elim (Bool-cases (not (is_enrolled profile) || not (has_recent_session_verification now s))) [
      | inl stopped ↦
          let other : (check_admin now r profile s).0 ≡ login = rw (page, stopped) refl in cc
      | inr fine ↦ ground arith
    ]

recent-late :
    (now : ℕ) (s : Session)
    → has_recent_session_verification now s ≡ true
    → now ≤ verified_or_epoch s.verified_at + 300
unfolding has_recent_session_verification
recent-late now s recent = ground arith

-- What the first half leaves to the second.
call-guarded :
    (mfa_required : Bool) (now : ℕ) (r : RequestPath) (profile : Option UserMfa) (s : Session)
    → (call mfa_required now r profile s).0 ≡ get_response
    → ((check_admin now r profile s).0 ≡ get_response)
      × (is_guarded mfa_required r s ≡ true
          → (is_enrolled profile ≡ true) × (session_passed_mfa s ≡ true))
unfolding call
call-guarded mfa_required now r profile s passed = elim (Bool-cases (is_guarded mfa_required r s)) [
  | inr free ↦
      let same : call mfa_required now r profile s ≡ check_admin now r profile s = rw free refl in
      (ap (λ v. v.0) (sym same) ∙ passed, λ h. cc)
  | inl guarded ↦ elim (Bool-cases (is_enrolled profile)) [
    | inr missing ↦
        let other : (call mfa_required now r profile s).0 ≡ mfa_setup =
          rw (guarded, missing) refl in
        cc
    | inl enrolled ↦ elim (Bool-cases (session_passed_mfa s)) [
      | inr early ↦
          let other : (call mfa_required now r profile s).0 ≡ login =
            rw (guarded, enrolled, early) refl in
          cc
      | inl verified ↦
          let same : call mfa_required now r profile s ≡ check_admin now r profile s =
            rw (guarded, enrolled, verified) refl in
          (ap (λ v. v.0) (sym same) ∙ passed, λ _. (enrolled, verified))
    ]
  ]
]

-- Where the factor is required, a request of a signed-in session that reaches a view outside the
-- exempt paths comes from an account with an enabled factor, in a session that passed it as this
-- account; and for a page of the admin site the factor was verified in the last 300 seconds,
-- required or not.
pub call-passed :
    (mfa_required : Bool) (now : ℕ) (r : RequestPath) (profile : Option UserMfa) (s : Session)
    → (call mfa_required now r profile s).0 ≡ get_response
    → (is_guarded mfa_required r s ≡ true
        → (is_enrolled profile ≡ true) × (s.mfa_session_ok ≡ s.user))
      × (is_admin_page r s ≡ true
          → (is_enrolled profile ≡ true) × (now ≤ verified_or_epoch s.verified_at + 300))
unfolding session_passed_mfa
call-passed mfa_required now r profile s passed =
    let (second, first_half) = call-guarded mfa_required now r profile s passed in
    (
      λ guarded.
          let (enrolled, same) = first_half guarded in
          (enrolled, same_user-eq s.mfa_session_ok s.user same),
      λ page.
          let (enrolled, recent) = check_admin-passed now r profile s second page in
          (enrolled, recent-late now s recent),
    )
