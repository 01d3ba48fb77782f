-- ===== src/Prelude/Tables/Sorted.antt =====
-- A property of every row, and the order of the rows.
use mathlib.Core.Bool.{Bool, true, false}
use mathlib.Core.List.{List, [], ◌∷◌}
use healthgrid.Prelude.Lists.{All, sorted, insert_sorted}
use healthgrid.Prelude.Tests.{if◌then◌else◌}

module _ {ℓ κ} {A : Type ℓ} (P : A → Type κ) (le : A → A → Bool) where
  pick :
      (b : Bool) (x y : A) (ys zs : List A)
      → All P (x ∷ y ∷ ys)
      → All P (y ∷ zs)
      → All P (if b then x ∷ y ∷ ys else y ∷ zs)
  pick true x y ys zs h g = h
  pick false x y ys zs h g = g

  All-insert_sorted : (x : A) (xs : List A) → P x → All P xs → All P (insert_sorted le x xs)
  unfolding insert_sorted
  All-insert_sorted x [] p h = (p, tt)
  All-insert_sorted x (y ∷ ys) p h =
      pick (le x y) x y ys (insert_sorted le x ys) (p, h) (h.0, All-insert_sorted x ys p h.1)

  pub All-sorted : (xs : List A) → All P xs → All P (sorted le xs)
  unfolding sorted
  All-sorted [] h = tt
  All-sorted (x ∷ xs) h = All-insert_sorted x (sorted le xs) h.0 (All-sorted xs h.1)
