-- ===== src/Mfa/Backup.antt =====
-- A recovery code works once, and the codes of an enrollment work after it.
use healthgrid.Prelude.{
  ℕ, ◌≤◌, String, Bool, true, false, not, ◌&&◌, Option, none, some, List, [], ◌∷◌, map, any,
  contains, string_eq, ◌==◌, eq_iff, is_blank, is_empty, if◌then◌else◌, ◌≡◌, refl, arith,
  Bool-cases, inl, inr, ap, sym, ◌∙◌, is_some,
}
use healthgrid.Prelude.Tables.{delete_where, count_where}
use healthgrid.Mfa.{
  MfaLibrary, UserMfa, candidate_of, kept, pop_match, popped, consume_backup_code,
  confirm_enrollment, encrypt_password, decrypt_password, new_enrollment, get_pending_backup_codes,
  verify_totp,
}

none_deleted :
    {A : Type 0} (p : A → Bool) (xs : List A) → count_where p xs ≡ 0 → delete_where p xs ≡ xs
none_deleted p [] none_of = refl
none_deleted p (x ∷ xs) none_of = ground (arith, none_deleted p xs)

any_deleted : {A : Type 0} (p : A → Bool) (xs : List A) → any p (delete_where p xs) ≡ false
any_deleted p [] = refl
any_deleted p (x ∷ xs) = ground (arith, any_deleted p xs)

any_filled : {A : Type 0} (p : A → Bool) (xs : List A) → any p xs ≡ true → is_empty xs ≡ false
any_filled p [] found = cc
any_filled p (x ∷ xs) found = refl

either : {A : Type 0} (b : Bool) (a : A) → (if b then a else a) ≡ a
either true a = refl
either false a = refl

count_of_none : {A : Type 0} (p : A → Bool) (xs : List A) → any p xs ≡ false → count_where p xs ≡ 0
count_of_none p [] none_of = refl
count_of_none p (x ∷ xs) none_of = ground (arith, count_of_none p xs)

refuses : {A : Type 0} (b : Bool) (x y : A) → (if not b && false then x else y) ≡ y
refuses true x y = refl
refuses false x y = refl

module _ (lib : MfaLibrary) where
  -- With one match at most, popping takes the matching hash away and keeps the others in order.
  pop_match-eq :
      (c : String) (codes : List String)
      → count_where (lib.check_password c) codes ≤ 1
      → pop_match lib c codes ≡ (
          if any (lib.check_password c) codes
          then some (delete_where (lib.check_password c) codes)
          else none)
  unfolding pop_match
  pop_match-eq c [] one = refl
  pop_match-eq c (h ∷ rest) one = elim (Bool-cases (lib.check_password c h)) [
    | inl same ↦ rw same (ap some (sym (none_deleted (lib.check_password c) rest (ground arith))))
    | inr other ↦
        rw (other, pop_match-eq c rest (ground arith))
          (elim (Bool-cases (any (lib.check_password c) rest)) [
            | inl found ↦ rw found refl
            | inr missing ↦ rw missing refl
          ])
  ]

  -- What the handler of recovery codes does, in one test.
  consume_backup_code-eq :
      (profile : UserMfa) (code : String)
      → count_where (lib.check_password (candidate_of lib code)) profile.backup_codes ≤ 1
      → let check = lib.check_password (candidate_of lib code) in
        consume_backup_code lib profile code ≡ (
          if not (is_blank (candidate_of lib code)) && any check profile.backup_codes
          then (true, record profile { backup_codes = delete_where check profile.backup_codes })
          else (false, profile))
  unfolding consume_backup_code
  consume_backup_code-eq profile code one =
      let check = lib.check_password (candidate_of lib code) in
      elim (Bool-cases (is_blank (candidate_of lib code))) [
        | inl blank ↦ rw blank refl
        | inr filled ↦
            rw (filled, pop_match-eq (candidate_of lib code) profile.backup_codes one)
              (elim (Bool-cases (any check profile.backup_codes)) [
                | inl found ↦ rw (found, any_filled check profile.backup_codes found) refl
                | inr missing ↦ rw missing (either (is_empty profile.backup_codes) (false, profile))
              ])
      ]

  -- A recovery code that matches one stored hash at most works at most once: when it is accepted, its
  -- hash is removed, every other hash stays in order, and the same code is refused from then on.
  pub consume_backup_code-once :
      (profile : UserMfa) (code : String)
      → count_where (lib.check_password (candidate_of lib code)) profile.backup_codes ≤ 1
      → let (accepted, after) = consume_backup_code lib profile code in
        accepted ≡ true
        → (after.backup_codes
            ≡ delete_where (lib.check_password (candidate_of lib code)) profile.backup_codes)
          × (consume_backup_code lib after code ≡ (false, after))
  unfolding consume_backup_code
  consume_backup_code-once profile code one accepted =
      let check = lib.check_password (candidate_of lib code) in
      let codes = profile.backup_codes in
      let after = record profile { backup_codes = delete_where check codes } in
      let gone = any_deleted check codes in
      let never : count_where check after.backup_codes ≤ 1 =
        omega (arith, count_of_none check after.backup_codes gone) in
      elim (Bool-cases (not (is_blank (candidate_of lib code)) && any check codes)) [
        | inl found ↦
            rw (consume_backup_code-eq profile code one, found)
              (
                refl,
                rw (consume_backup_code-eq after code never, gone)
                    (refuses (is_blank (candidate_of lib code)) _ (false, after)),
              )
        | inr missing ↦
            let no : (consume_backup_code lib profile code).0 ≡ false =
              rw (consume_backup_code-eq profile code one, missing) refl in
            cc
      ]

  is_some-kept : (h : String) (o : Option (List String)) → is_some (kept lib h o) ≡ is_some o
  is_some-kept h none = refl
  is_some-kept h (some left) = refl

  is_some-pop_match :
      (c : String) (codes : List String)
      → is_some (pop_match lib c codes) ≡ any (lib.check_password c) codes
  unfolding pop_match
  is_some-pop_match c [] = refl
  is_some-pop_match c (h ∷ rest) = elim (Bool-cases (lib.check_password c h)) [
    | inl same ↦ rw same refl
    | inr other ↦ rw other (is_some-kept h (pop_match lib c rest) ∙ is_some-pop_match c rest)
  ]

  popped-is_some :
      (profile : UserMfa) (o : Option (List String)) → (popped lib profile o).0 ≡ is_some o
  popped-is_some profile none = refl
  popped-is_some profile (some left) = refl

  -- A typed code with a matching hash is accepted.
  consume_backup_code-accepts :
      (profile : UserMfa) (code : String)
      → is_blank (candidate_of lib code) ≡ false
      → any (lib.check_password (candidate_of lib code)) profile.backup_codes ≡ true
      → (consume_backup_code lib profile code).0 ≡ true
  unfolding consume_backup_code
  consume_backup_code-accepts profile code typed found =
      rw (typed, any_filled (lib.check_password (candidate_of lib code)) profile.backup_codes found)
        (popped-is_some profile (pop_match lib (candidate_of lib code) profile.backup_codes)
          ∙ is_some-pop_match (candidate_of lib code) profile.backup_codes
          ∙ found)

  any_made :
      (c : String) (codes : List String)
      → ((text : String) → lib.check_password text (lib.make_password text) ≡ true)
      → contains c codes ≡ true
      → any (lib.check_password c) (map lib.make_password codes) ≡ true
  any_made c [] check known = cc
  any_made c (d ∷ codes) check known = elim (Bool-cases (d == c)) [
    | inl same ↦ rw ((eq_iff d c).0 same, check c) refl
    | inr other ↦ ground (arith, any_made c codes check)
  ]

  module _ (secret : String) (codes : List String) (profile : UserMfa)
      (round : (text : String) → lib.decrypt (lib.encrypt text) ≡ text)
      (filled : (text : String) → is_blank (lib.encrypt text) ≡ false)
      (lines : lib.split_lines (lib.join_lines codes) ≡ codes)
      (some_codes : is_blank (lib.join_lines codes) ≡ false) where
    pending_codes : get_pending_backup_codes lib (new_enrollment lib secret codes profile) ≡ codes
    unfolding get_pending_backup_codes new_enrollment encrypt_password decrypt_password
    pending_codes =
        rw (some_codes, filled (lib.join_lines codes)) (rw (round (lib.join_lines codes)) lines)

    confirmed :
        (now : ℕ) (code : String)
        → is_empty codes ≡ false
        → verify_totp lib now (new_enrollment lib secret codes profile) code ≡ true
        → confirm_enrollment lib now (new_enrollment lib secret codes profile) code ≡ (
          true,
          record (new_enrollment lib secret codes profile) {
            backup_codes = map lib.make_password codes;
            pending_backup_codes_encrypted = "";
            enabled = true;
            confirmed_at = some now;
          },
        )
    unfolding confirm_enrollment new_enrollment
    confirmed now code listed valid = rw (valid, pending_codes, listed) refl

  -- The recovery codes that an enrollment shows are stored when it is confirmed: if encryption and
  -- the join of the codes can be undone and a hash checks the code it was made from, then a valid
  -- authenticator code turns the factor on, and each shown code (as typed, without spaces and in
  -- capitals) is accepted afterwards.
  pub confirm_enrollment-codes :
      (now : ℕ) (secret shown code : String) (codes : List String) (profile : UserMfa)
      → ((text : String) → lib.decrypt (lib.encrypt text) ≡ text)
      → ((text : String) → is_blank (lib.encrypt text) ≡ false)
      → lib.split_lines (lib.join_lines codes) ≡ codes
      → ((text : String) → lib.check_password text (lib.make_password text) ≡ true)
      → is_blank (lib.join_lines codes) ≡ false
      → contains (candidate_of lib shown) codes ≡ true
      → is_blank (candidate_of lib shown) ≡ false
      → verify_totp lib now (new_enrollment lib secret codes profile) code ≡ true
      → let (confirmed, after) =
          confirm_enrollment lib now (new_enrollment lib secret codes profile) code in
        (confirmed ≡ true)
        × (after.enabled ≡ true)
        × ((consume_backup_code lib after shown).0 ≡ true)
  confirm_enrollment-codes now secret shown code codes profile round filled lines check some_codes
        known typed valid =
      let listed = any_filled (λ d. d == candidate_of lib shown) codes known in
      rw (confirmed secret codes profile round filled lines some_codes now code listed valid) (
        refl,
        refl,
        consume_backup_code-accepts _ shown typed
            (any_made (candidate_of lib shown) codes check known),
      )
