-- ===== src/Prelude/Lists.antt =====
-- Lists measured by native numbers, predicates on lists, and sorting.
use Prim.Native.Nat.{ℕ, suc, ◌+◌}
use mathlib.Core.Path.{◌≡◌, refl, ap, ◌∙◌}
use mathlib.Core.Bool.{Bool, true, false, ◌&&◌, ◌||◌}
use mathlib.Core.List.{List, [], ◌∷◌, ◌++◌}
use native.Mathlib.Omega.{arith}
use healthgrid.Prelude.Tests.{Eq, ◌==◌, if◌then◌else◌}

module _ {ℓ} {A : Type ℓ} where
  abbrev pub length : List A → ℕ
  length [] = 0
  length (x ∷ xs) = suc (length xs)

  abbrev pub is_empty : List A → Bool
  is_empty [] = true
  is_empty (x ∷ xs) = false

  pub length-append : (xs ys : List A) → length (xs ++ ys) ≡ length xs + length ys
  length-append [] ys = omega arith
  length-append (x ∷ xs) ys = omega (arith, length-append xs ys)

  -- `any(p(x) for x in xs)`
  abbrev pub any : (A → Bool) → List A → Bool
  any p [] = false
  any p (x ∷ xs) = p x || any p xs

  -- `all(p(x) for x in xs)`
  abbrev pub all : (A → Bool) → List A → Bool
  all p [] = true
  all p (x ∷ xs) = p x && all p xs

-- Every element satisfies `P`.
abbrev pub All {ℓ κ} : {A : Type ℓ} (P : A → Type κ) (elements : List A) → Type κ
All P (x ∷ rest) = P x × All P rest
All P [] = Unit

module _ {ℓ} {A : Type ℓ} ⦃e : Eq A⦄ where
  -- `x in xs`
  abbrev pub contains : A → List A → Bool
  contains x [] = false
  contains x (y ∷ ys) = y == x || contains x ys

  -- The order of a Python dict: the first occurrence stays.
  abbrev pub insert_key : A → List A → List A
  insert_key x [] = x ∷ []
  insert_key x (y ∷ ys) = if y == x then y ∷ ys else y ∷ insert_key x ys

-- `sorted`, a stable insertion sort by a Boolean order.
module _ {ℓ} {A : Type ℓ} (le : A → A → Bool) where
  unfoldable pub insert_sorted : A → List A → List A
  insert_sorted x [] = x ∷ []
  insert_sorted x (y ∷ ys) = if le x y then x ∷ y ∷ ys else y ∷ insert_sorted x ys

  unfoldable pub sorted : List A → List A
  unfolding insert_sorted
  sorted [] = []
  sorted (x ∷ xs) = insert_sorted x (sorted xs)

  pub length-insert_sorted : (x : A) (xs : List A) → length (insert_sorted x xs) ≡ suc (length xs)
  unfolding insert_sorted
  length-insert_sorted x [] = refl
  length-insert_sorted x (y ∷ ys) = ground (arith, length-insert_sorted x ys)

  pub length-sorted : (xs : List A) → length (sorted xs) ≡ length xs
  unfolding sorted
  length-sorted [] = refl
  length-sorted (x ∷ xs) = length-insert_sorted x (sorted xs) ∙ ap suc (length-sorted xs)

  pub any-insert_sorted :
      (p : A → Bool) (x : A) (xs : List A) → any p (insert_sorted x xs) ≡ (p x || any p xs)
  unfolding insert_sorted
  any-insert_sorted p x [] = refl
  any-insert_sorted p x (y ∷ ys) = ground (arith, any-insert_sorted p x ys)

  pub any-sorted : (p : A → Bool) (xs : List A) → any p (sorted xs) ≡ any p xs
  unfolding sorted
  any-sorted p [] = refl
  any-sorted p (x ∷ xs) = any-insert_sorted p x (sorted xs) ∙ ap (λ b. p x || b) (any-sorted p xs)
