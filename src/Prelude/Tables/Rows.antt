-- ===== src/Prelude/Tables/Rows.antt =====
-- How the tests and counts of a table follow its updates.
use Prim.Native.Nat.{◌≤◌}
use mathlib.Core.Path.{◌≡◌, refl, ap, ap₂}
use mathlib.Core.Bool.{Bool, true, false, ◌||◌}
use mathlib.Core.List.{List, [], ◌∷◌, ◌++◌}
use native.Mathlib.Omega.{arith}
use healthgrid.Prelude.Tests.{if◌then◌else◌}
use healthgrid.Prelude.Lists.{any, All, length}
use healthgrid.Prelude.Tables.{select, update_where, count_where}

module _ {ℓ κ} {A : Type ℓ} {P : A → Type κ} where
  pub All-of : ((x : A) → P x) → (xs : List A) → All P xs
  All-of h [] = tt
  All-of h (x ∷ xs) = (h x, All-of h xs)

  pub All-imp {μ} : {Q : A → Type μ} → ((x : A) → P x → Q x) → (xs : List A) → All P xs → All Q xs
  All-imp f [] h = tt
  All-imp f (x ∷ xs) h = (f x h.0, All-imp f xs h.1)

  pub All-update_where :
      (p : A → Bool) (f : A → A)
      → ((x : A) → P x → P (f x))
      → (xs : List A) → All P xs
      → All P (update_where p f xs)
  All-update_where p f keep [] h = tt
  All-update_where p f keep (x ∷ xs) h = (pick (p x), All-update_where p f keep xs h.1)
    where
      pick : (b : Bool) → P (if b then f x else x)
      pick true = keep x h.0
      pick false = h.0

module _ {ℓ κ} {A : Type ℓ} (P : A → Type κ) where
  -- An update that gives the selected rows the property, where the others have it.
  pub All-update_by :
      (p : A → Bool) (f : A → A) (xs : List A)
      → All (λ x. (p x ≡ true → P (f x)) × (p x ≡ false → P x)) xs
      → All P (update_where p f xs)
  All-update_by p f [] h = tt
  All-update_by p f (x ∷ xs) h = (pick (p x) h.0.0 h.0.1, All-update_by p f xs h.1)
    where
      pick : (b : Bool) → (b ≡ true → P (f x)) → (b ≡ false → P x) → P (if b then f x else x)
      pick true yes_ no_ = yes_ refl
      pick false yes_ no_ = no_ refl

module _ {ℓ κ} {A : Type ℓ} (P : A → Type κ) (p : A → Bool) where
  pub All-select : (xs : List A) → All P xs → All P (select p xs)
  All-select [] h = tt
  All-select (x ∷ xs) h = pick (p x) (All-select xs h.1)
    where
      pick : (b : Bool) → All P (select p xs) → All P (if b then x ∷ select p xs else select p xs)
      pick true rest = (h.0, rest)
      pick false rest = rest

module _ {ℓ} {A : Type ℓ} where
  pub All-p-select : (p : A → Bool) (xs : List A) → All (λ x. p x ≡ true) (select p xs)
  All-p-select p [] = tt
  All-p-select p (x ∷ xs) = ground (arith, All-p-select p xs)

  pub any-cong : (p q : A → Bool) (xs : List A) → All (λ x. p x ≡ q x) xs → any p xs ≡ any q xs
  any-cong p q [] h = refl
  any-cong p q (x ∷ xs) h = ap₂ (◌||◌) h.0 (any-cong p q xs h.1)

  pub count_where-cong :
      (p q : A → Bool) (xs : List A) → All (λ x. p x ≡ q x) xs → count_where p xs ≡ count_where q xs
  count_where-cong p q [] h = refl
  count_where-cong p q (x ∷ xs) h = ground (arith, h.0, count_where-cong p q xs h.1)

  pub select-cong :
      (p q : A → Bool) (xs : List A) → All (λ x. p x ≡ q x) xs → select p xs ≡ select q xs
  select-cong p q [] h = refl
  select-cong p q (x ∷ xs) h = ground (arith, h.0, select-cong p q xs h.1)

  pub update_where-cong :
      (p q : A → Bool) (f : A → A) (xs : List A)
      → All (λ x. p x ≡ q x) xs
      → update_where p f xs ≡ update_where q f xs
  update_where-cong p q f [] h = refl
  update_where-cong p q f (x ∷ xs) h = ground (arith, h.0, update_where-cong p q f xs h.1)

  pub any-update_where :
      (q p : A → Bool) (f : A → A) (xs : List A)
      → any q (update_where p f xs) ≡ any (λ x. q (if p x then f x else x)) xs
  any-update_where q p f [] = refl
  any-update_where q p f (x ∷ xs) =
      ap (◌||◌ (q (if p x then f x else x))) (any-update_where q p f xs)

  pub count_where-update_where :
      (q p : A → Bool) (f : A → A) (xs : List A)
      → count_where q (update_where p f xs) ≡ count_where (λ x. q (if p x then f x else x)) xs
  count_where-update_where q p f [] = refl
  count_where-update_where q p f (x ∷ xs) = ground (arith, count_where-update_where q p f xs)

  -- Rows that an update does not select stay as they are.
  pub select-update_where :
      (q p : A → Bool) (f : A → A) (xs : List A)
      → All (λ x. p x ≡ true → q x ≡ false) xs
      → All (λ x. p x ≡ true → q (f x) ≡ false) xs
      → select q (update_where p f xs) ≡ select q xs
  select-update_where q p f [] h k = refl
  select-update_where q p f (x ∷ xs) h k =
      ground (arith, h.0, k.0, select-update_where q p f xs h.1 k.1)

  pub select-append :
      (p : A → Bool) (xs ys : List A) → select p (xs ++ ys) ≡ select p xs ++ select p ys
  select-append p [] ys = refl
  select-append p (x ∷ xs) ys = ground (arith, select-append p xs ys)

  pub update_where-append :
      (p : A → Bool) (f : A → A) (xs ys : List A)
      → update_where p f (xs ++ ys) ≡ update_where p f xs ++ update_where p f ys
  update_where-append p f [] ys = refl
  update_where-append p f (x ∷ xs) ys =
      ap (◌∷◌ (if p x then f x else x)) (update_where-append p f xs ys)

  pub update_where_none :
      (p : A → Bool) (f : A → A) (xs : List A)
      → All (λ x. p x ≡ false) xs
      → update_where p f xs ≡ xs
  update_where_none p f [] h = refl
  update_where_none p f (x ∷ xs) h = ground (arith, h.0, update_where_none p f xs h.1)

  pub none_of_select : (p : A → Bool) (xs : List A) → select p xs ≡ [] → All (λ x. p x ≡ false) xs
  none_of_select p [] h = tt
  none_of_select p (x ∷ xs) h = ground (arith, none_of_select p xs)

  pub length-select : (p : A → Bool) (xs : List A) → length (select p xs) ≡ count_where p xs
  length-select p [] = refl
  length-select p (x ∷ xs) = ground (arith, length-select p xs)

  pub any_of_count : (p : A → Bool) (xs : List A) → count_where p xs ≡ 0 → any p xs ≡ false
  any_of_count p [] h = refl
  any_of_count p (x ∷ xs) h = ground (arith, any_of_count p xs)

  pub count_of_any : (p : A → Bool) (xs : List A) → any p xs ≡ false → count_where p xs ≡ 0
  count_of_any p [] h = refl
  count_of_any p (x ∷ xs) h = ground (arith, count_of_any p xs)

  pub count_where_le :
      (p q : A → Bool) (xs : List A)
      → ((x : A) → p x ≡ true → q x ≡ true)
      → count_where p xs ≤ count_where q xs
  count_where_le p q [] h = omega arith
  count_where_le p q (x ∷ xs) h = ground (arith, h x, count_where_le p q xs h)

  -- An update that the test cannot see.
  pub any_kept :
      (q p : A → Bool) (f : A → A) (xs : List A)
      → ((x : A) → q (f x) ≡ q x)
      → any q (update_where p f xs) ≡ any q xs
  any_kept q p f [] keep = refl
  any_kept q p f (x ∷ xs) keep = ground (arith, keep x, any_kept q p f xs keep)

  pub count_kept :
      (q p : A → Bool) (f : A → A) (xs : List A)
      → ((x : A) → q (f x) ≡ q x)
      → count_where q (update_where p f xs) ≡ count_where q xs
  count_kept q p f [] keep = refl
  count_kept q p f (x ∷ xs) keep = ground (arith, keep x, count_kept q p f xs keep)

  pub select-nil_count : (p : A → Bool) (xs : List A) → select p xs ≡ [] → count_where p xs ≡ 0
  select-nil_count p xs h = omega (arith, length-select p xs, ap (length {A = A}) h)

  pub any_of_select :
      (p : A → Bool) (x : A) (rest xs : List A) → select p xs ≡ x ∷ rest → any p xs ≡ true
  any_of_select p x rest [] h = ground arith
  any_of_select p x rest (y ∷ xs) h = ground (arith, any_of_select p x rest xs)

  -- A narrower query of the rows that a query found.
  pub select-select :
      (q p : A → Bool) (xs : List A)
      → ((x : A) → q x ≡ true → p x ≡ true)
      → select q (select p xs) ≡ select q xs
  select-select q p [] h = refl
  select-select q p (x ∷ xs) h = ground (arith, h x, select-select q p xs h)
