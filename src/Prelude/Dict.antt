-- ===== src/Prelude/Dict.antt =====
-- Python's `dict` in insertion order: an association list whose keys do not repeat.
use mathlib.Core.Path.{◌≡◌, refl}
use mathlib.Core.Bool.{Bool, true, false, ◌||◌}
use mathlib.Core.Option.{Option, none, some}
use mathlib.Core.List.{List, [], ◌∷◌}
use native.Mathlib.Omega.{arith}
use healthgrid.Prelude.Tests.{Eq, ◌==◌, is_some, if◌then◌else◌}
use healthgrid.Prelude.Lists.{contains, All}

abbrev pub Dict {ℓ κ} : Type ℓ → Type κ → Type (ℓ ⊔ κ)
Dict K V = List (K × V)

module _ {ℓ κ} {K : Type ℓ} {V : Type κ} where
  -- `list(d)`, the keys in insertion order
  abbrev pub keys : Dict K V → List K
  keys [] = []
  keys ((k, v) ∷ d) = k ∷ keys d

module _ {ℓ κ} {K : Type ℓ} {V : Type κ} ⦃e : Eq K⦄ where
  -- `d.get(k)`
  abbrev pub get : K → Dict K V → Option V
  get k [] = none
  get k ((j, v) ∷ d) = if j == k then some v else get k d

  -- `d[k] = v`
  abbrev pub put : K → V → Dict K V → Dict K V
  put k v [] = (k, v) ∷ []
  put k v ((j, w) ∷ d) = if j == k then (j, v) ∷ d else (j, w) ∷ put k v d

  pub get-put :
      (k j : K) (v : V) (d : Dict K V) → get j (put k v d) ≡ (if k == j then some v else get j d)
  get-put k j v [] = refl
  get-put k j v ((i, w) ∷ d) =
      ground (arith, e.equals_iff i k, e.equals_iff i j, e.equals_iff k j, get-put k j v d)

  pub contains-keys-put :
      (k j : K) (v : V) (d : Dict K V)
      → contains j (keys (put k v d)) ≡ (k == j || contains j (keys d))
  contains-keys-put k j v [] = refl
  contains-keys-put k j v ((i, w) ∷ d) =
      ground
        (arith, e.equals_iff i k, e.equals_iff i j, e.equals_iff k j, contains-keys-put k j v d)

  pub get-keys : (k : K) (d : Dict K V) → is_some (get k d) ≡ contains k (keys d)
  get-keys k [] = refl
  get-keys k ((j, v) ∷ d) = ground (arith, get-keys k d)

module _ {ℓ κ μ} {K : Type ℓ} {V : Type κ} ⦃e : Eq K⦄ (P : V → Type μ) where
  pub All-put :
      (k : K) (v : V) (d : Dict K V) → P v → All (λ x. P x.1) d → All (λ x. P x.1) (put k v d)
  All-put k v [] h hs = (h, tt)
  All-put k v ((j, w) ∷ d) h hs = pick (j == k) (All-put k v d h hs.1)
    where
      pick :
          (b : Bool)
          → All (λ x. P x.1) (put k v d)
          → All (λ x. P x.1) (if b then (j, v) ∷ d else (j, w) ∷ put k v d)
      pick true rest = (h, hs.1)
      pick false rest = (hs.0, rest)
