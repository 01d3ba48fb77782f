-- ===== src/Prelude/Tables/Distinct.antt =====
-- Tables whose rows have distinct primary keys: a write by primary key is a write by the query that
-- found the row.
use Prim.Native.Nat.{ℕ, suc, ◌<◌}
use mathlib.Core.Path.{◌≡◌, refl, ap}
use mathlib.Core.Logic.{◌≢◌}
use mathlib.Core.Bool.{Bool, true, false}
use mathlib.Core.List.{List, [], ◌∷◌, ◌++◌, map}
use native.Mathlib.Omega.{arith}
use mathlib.Core.Logic.{inl, inr}
use mathlib.Core.Path.{subst}
use healthgrid.Prelude.Tests.{Bool-cases, nat_eq, ◌==◌, if◌then◌else◌}
use healthgrid.Prelude.Lists.{contains, All}
use healthgrid.Prelude.Tables.{select, update_where, All-append}
use healthgrid.Prelude.Tables.Rows.{
  All-imp, All-update_where, update_where-cong, update_where_none, none_of_select, All-select,
}

module _ {ℓ} {A : Type ℓ} (key : A → ℕ) where
  -- No two rows have one key.
  abbrev pub Distinct : List A → Type 0
  Distinct [] = Unit
  Distinct (x ∷ xs) = All (λ y. key y ≢ key x) xs × Distinct xs

  -- Every key is below the counter.
  abbrev pub Below : ℕ → List A → Type 0
  Below n = All (λ x. key x < n)

  pub Distinct-update_where :
      (p : A → Bool) (f : A → A)
      → ((x : A) → key (f x) ≡ key x)
      → (xs : List A) → Distinct xs
      → Distinct (update_where p f xs)
  Distinct-update_where p f keep [] d = tt
  Distinct-update_where p f keep (x ∷ xs) d = (
    All-update_where p f (λ y h. ground (arith, keep y)) xs (pick (p x)),
    Distinct-update_where p f keep xs d.1,
  )
    where
      pick : (b : Bool) → All (λ y. key y ≢ key (if b then f x else x)) xs
      pick true = All-imp (λ y h. ground (arith, keep x)) xs d.0
      pick false = d.0

  pub Distinct-append :
      (n : ℕ) (x : A) (xs : List A) → key x ≡ n → Below n xs → Distinct xs → Distinct (xs ++ x ∷ [])
  Distinct-append n x [] e b d = (tt, tt)
  Distinct-append n x (y ∷ xs) e b d = (
    All-append (λ z. key z ≢ key y) xs (x ∷ []) d.0 ((λ h. omega arith), tt),
    Distinct-append n x xs e b.1 d.1,
  )

  pub Below-append :
      (n : ℕ) (x : A) (xs : List A) → key x ≡ n → Below n xs → Below (suc n) (xs ++ x ∷ [])
  Below-append n x xs e b =
      All-append (λ y. key y < suc n) xs (x ∷ []) (All-imp (λ y h. omega arith) xs b)
        (omega arith, tt)

  absent-key :
      (k : ℕ) (p : A → Bool) (xs : List A)
      → All (λ y. key y ≢ k) xs
      → contains k (map key (select p xs)) ≡ false
  absent-key k p [] h = refl
  absent-key k p (x ∷ xs) h = ground (arith, h.0, absent-key k p xs h.1)

  -- A row's key is among the keys of the rows found exactly when the row itself was found.
  pub contains-keys-select :
      (p : A → Bool) (xs : List A)
      → Distinct xs
      → All (λ x. contains (key x) (map key (select p xs)) ≡ p x) xs
  contains-keys-select p [] d = tt
  contains-keys-select p (x ∷ xs) d =
      (ground (arith, absent-key (key x) p xs d.0), other xs d.0 (contains-keys-select p xs d.1))
    where
      other :
          (ys : List A)
          → All (λ y. key y ≢ key x) ys
          → All (λ y. contains (key y) (map key (select p xs)) ≡ p y) ys
          → All (λ y. contains (key y) (map key (select p (x ∷ xs))) ≡ p y) ys
      other [] h k = tt
      other (y ∷ ys) h k = (ground (arith, h.0, k.0), other ys h.1 k.1)

  -- `filter(pk__in=[rows found]).update(f)` is `filter(p).update(f)`.
  pub update_where-keys :
      (p : A → Bool) (f : A → A) (xs : List A)
      → Distinct xs
      → update_where (λ x. contains (key x) (map key (select p xs))) f xs ≡ update_where p f xs
  update_where-keys p f xs d = update_where-cong _ p f xs (contains-keys-select p xs d)

  -- `row.save()` after `objects.get(p)` found the one row.
  pub save-found :
      (p : A → Bool) (g : A → A) (a : A) (xs : List A)
      → Distinct xs
      → select p xs ≡ a ∷ []
      → update_where (λ x. key x == key a) (λ _. g a) xs ≡ update_where p g xs
  save-found p g a [] d h = ground arith
  save-found p g a (x ∷ xs) d h = elim (Bool-cases (p x)) [
    | inl hit ↦
        let e : x ∷ select p xs ≡ a ∷ [] = rw hit at h in
        let same : x ≡ a = cc in
        let rest : select p xs ≡ [] = cc in
        let left : update_where (λ y. key y == key a) (λ _. g a) xs ≡ xs =
          update_where_none (λ y. key y == key a) (λ _. g a) xs
            (All-imp (λ y k. ground (arith, ap key same)) xs d.0) in
        let right : update_where p g xs ≡ xs =
          update_where_none p g xs (none_of_select p xs rest) in
        ground (arith, ap key same, ap g same)
    | inr miss ↦
        let e : select p xs ≡ a ∷ [] = rw miss at h in
        let apart : All (λ y. key y ≢ key x) (a ∷ []) =
          subst (All (λ y. key y ≢ key x)) e (All-select (λ y. key y ≢ key x) p xs d.0) in
        ground (arith, apart.0, save-found p g a xs d.1 e)
  ]

  -- `row.save()` of the row just created.
  pub save-created :
      (n : ℕ) (a b : A) (xs : List A)
      → key a ≡ n
      → Below n xs
      → update_where (λ x. key x == key a) (λ _. b) (xs ++ a ∷ []) ≡ xs ++ b ∷ []
  save-created n a b [] e h = ground arith
  save-created n a b (x ∷ xs) e h = ground (arith, h.0, save-created n a b xs e h.1)
