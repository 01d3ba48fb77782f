-- ===== src/Mfa/Throttle.antt =====
-- Guessing the second factor is cut off.
use healthgrid.Prelude.{
  ℕ, suc, ◌+◌, ◌≤◌, String, false, List, [], ◌∷◌, length, All, leb, string_eq, ◌≡◌, refl, ap, arith,
  Bool-cases, inl, inr, beq_refl, leb→le, le→leb,
}
use healthgrid.Prelude.Dict.{get, get-put}
use healthgrid.Mfa.{MfaLibrary, UserMfa, verify_code}
use healthgrid.Mfa.Signin.{
  AuthState, render, SigninLibrary, count_of, is_throttled, record_failure, verify_key, verify_post,
}

-- One post of `mfa_verify`: its time, the factors as stored at that time, and the posted code.
pub record Post : Type 0 where
  pub at : ℕ
  pub profile : UserMfa
  pub code : String

module _ (lib : MfaLibrary) (web : SigninLibrary) (address : String) where
  -- A sequence of posts from one address, of any browser sessions.
  unfoldable pub posts : List Post → AuthState → AuthState
  unfolding verify_post
  posts [] st = st
  posts (a ∷ calls) st = posts calls (verify_post lib web address a.at a.profile a.code st).1

  abbrev pub failed_so_far : ℕ → AuthState → ℕ
  failed_so_far user st = count_of (get (verify_key lib web address user) st.failures)

  -- Each wrong code counts, until the limit is reached.
  failure_counted :
      (now : ℕ) (p : UserMfa) (code : String) (st : AuthState) (left : ℕ)
      → (verify_code lib now p code).0 ≡ false
      → 10 ≤ failed_so_far p.user_id st + suc left
      → 10 ≤ failed_so_far p.user_id (verify_post lib web address now p code st).1 + left
  unfolding verify_post is_throttled record_failure
  failure_counted now p code st left wrong low =
      let key = verify_key lib web address p.user_id in
      elim (Bool-cases (leb 10 (failed_so_far p.user_id st))) [
        | inl shut ↦ rw shut (omega (arith, leb→le 10 (failed_so_far p.user_id st) shut))
        | inr going ↦
            rw
              (
                going,
                wrong,
                get-put key key (suc (failed_so_far p.user_id st)) st.failures,
                beq_refl key,
              )
              (omega arith)
      ]

  module _ (user : ℕ) where
    -- A wrong code for the account, by neither factor.
    pub record IsWrong (a : Post) : Type 0 where
      pub account : a.profile.user_id ≡ user
      pub wrong : (verify_code lib a.at a.profile a.code).0 ≡ false

    posts-counted :
        (calls : List Post) (st : AuthState)
        → All IsWrong calls
        → 10 ≤ failed_so_far user st + length calls
        → 10 ≤ failed_so_far user (posts calls st)
    unfolding posts
    posts-counted [] st _ low = omega arith
    posts-counted (a ∷ calls) st (w, ws) low =
        let next = (verify_post lib web address a.at a.profile a.code st).1 in
        let before : failed_so_far a.profile.user_id st ≡ failed_so_far user st =
          ap (λ u. failed_so_far u st) w.account in
        let after : failed_so_far a.profile.user_id next ≡ failed_so_far user next =
          ap (λ u. failed_so_far u next) w.account in
        posts-counted calls next ws (
          omega (
            arith,
            before,
            after,
            failure_counted a.at a.profile a.code st (length calls) w.wrong (omega (arith, before)),
          ))

  -- After ten wrong codes for one account from one address, each at its own time and against the
  -- factors stored then, no further code signs in or is consumed while the counter lives, a right
  -- one included, whenever it is posted and whatever the factors are by then: the post is answered
  -- by the error and leaves session, factors and counter as they are.
  pub verify_post-throttled :
      (calls : List Post) (later : ℕ) (profile : UserMfa) (code : String) (st : AuthState)
      → All (IsWrong profile.user_id) calls
      → 10 ≤ length calls
      → verify_post lib web address later profile code (posts calls st)
        ≡ (render "Too many verification attempts. Try again in 15 minutes.", posts calls st)
  unfolding verify_post is_throttled
  verify_post-throttled calls later profile code st wrongs enough =
      let count = failed_so_far profile.user_id (posts calls st) in
      rw (le→leb 10 count (posts-counted profile.user_id calls st wrongs (omega arith))) refl
