-- ===== src/Prelude/Tables/Held.antt =====
-- The rows that `select` keeps are rows of the table.
use mathlib.Core.Path.{◌≡◌, refl}
use mathlib.Core.Bool.{Bool, true, false}
use mathlib.Core.List.{List, [], ◌∷◌, Memᴰ}
use healthgrid.Prelude.Lists.{All}
use healthgrid.Prelude.Tests.{if◌then◌else◌}
use healthgrid.Prelude.Tables.{select}
use healthgrid.Prelude.Tables.Rows.{All-imp}

pub select-held :
    {A : Type 0} (p : A → Bool) (xs : List A) → All (λ x. Memᴰ x xs × (p x ≡ true)) (select p xs)
select-held p [] = tt
select-held {A} p (x ∷ xs) =
    go (p x) refl (All-imp (λ y h. (Memᴰ.tail h.0, h.1)) (select p xs) (select-held p xs))
  where
    go :
        (b : Bool)
        → p x ≡ b
        → All (λ y. Memᴰ y (x ∷ xs) × (p y ≡ true)) (select p xs)
        → All (λ y. Memᴰ y (x ∷ xs) × (p y ≡ true)) (if b then x ∷ select p xs else select p xs)
    go true e h = ((Memᴰ.head refl, e), h)
    go false e h = h
