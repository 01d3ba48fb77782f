-- ===== src/Prelude/Tables.antt =====
-- Database tables as lists of rows, with the queries that the program makes of them.
pub mod Rows
pub mod Adds
pub mod Sorted
pub mod Held
pub mod Distinct
use healthgrid.Prelude.Tests.{if◌then◌else◌}
use healthgrid.Prelude.Lists.{any, All}
use Prim.Native.Nat.{ℕ, suc, ◌+◌}
use mathlib.Core.Path.{◌≡◌, refl}
use mathlib.Core.Bool.{Bool, not, ◌||◌}
use mathlib.Core.List.{List, [], ◌∷◌, ◌++◌}
use native.Mathlib.Omega.{arith}

module _ {ℓ} {A : Type ℓ} where
  -- `objects.filter(p)`
  abbrev pub select : (A → Bool) → List A → List A
  select p [] = []
  select p (x ∷ xs) = if p x then x ∷ select p xs else select p xs

  -- `objects.filter(p).update(f)`
  abbrev pub update_where : (A → Bool) → (A → A) → List A → List A
  update_where p f [] = []
  update_where p f (x ∷ xs) = (if p x then f x else x) ∷ update_where p f xs

  -- `objects.filter(p).delete()`: what is left
  abbrev pub delete_where : (A → Bool) → List A → List A
  delete_where p xs = select (λ x. not (p x)) xs

  -- `objects.filter(p).count()`
  abbrev pub count_where : (A → Bool) → List A → ℕ
  count_where p [] = 0
  count_where p (x ∷ xs) = if p x then suc (count_where p xs) else count_where p xs

  pub any-append : (p : A → Bool) (xs ys : List A) → any p (xs ++ ys) ≡ (any p xs || any p ys)
  any-append p [] ys = refl
  any-append p (x ∷ xs) ys = ground (arith, any-append p xs ys)

  pub count_where-append :
      (p : A → Bool) (xs ys : List A)
      → count_where p (xs ++ ys) ≡ count_where p xs + count_where p ys
  count_where-append p [] ys = omega arith
  count_where-append p (x ∷ xs) ys = ground (arith, count_where-append p xs ys)

  module _ {κ} (P : A → Type κ) where
    pub All-append : (front back : List A) → All P front → All P back → All P (front ++ back)
    All-append (x ∷ front) back (px, pfront) pback = (px, All-append front back pfront pback)
    All-append [] back _ pback = pback
