-- ===== src/Monitor/Keys/Collapse.antt =====
-- The collapse keeps every PID pair of the snapshot and invents none.
use healthgrid.Prelude.{
  String, Bool, true, false, Option, none, some, List, [], ◌∷◌, ◌||◌, any, All, contains, string_eq,
  ◌==◌, if◌then◌else◌, ◌≡◌, refl, arith, eq_iff, Bool-cases, inl, inr, ◌∙◌,
}
use healthgrid.Prelude.Dict.{Dict, keys, get, put, get-keys, contains-keys-put, All-put}
use healthgrid.Models.Alerts.{BlockingRow}
use healthgrid.Monitor.Keys.{lock_key, is_longer, collapse_onto, collapse}

keep_longest : String → BlockingRow → Dict String BlockingRow → Dict String BlockingRow
keep_longest key row d = if is_longer row (get key d) then put key row d else d

-- A row that is not stored leaves the dict alone because its key is there.
contains-keep_longest :
    (key : String) (row : BlockingRow) (d : Dict String BlockingRow) (k : String)
    → contains k (keys (keep_longest key row d)) ≡ (key == k || contains k (keys d))
unfolding keep_longest
contains-keep_longest key row d k = by_found (get key d) refl
  where
    by_found :
        (o : Option BlockingRow)
        → get key d ≡ o
        → contains k (keys (if is_longer row o then put key row d else d))
          ≡ (key == k || contains k (keys d))
    by_found none h = contains-keys-put key k row d
    by_found (some current) h = pick (is_longer row (some current)) (ground (arith, get-keys key d))
      where
        pick :
            (b : Bool)
            → contains key (keys d) ≡ true
            → contains k (keys (if b then put key row d else d)) ≡ (key == k || contains k (keys d))
        pick true present = contains-keys-put key k row d
        pick false present = elim (Bool-cases (key == k)) [
          | inl same ↦ rw (← (eq_iff key k).0 same) (ground (arith, eq_iff key key))
          | inr other ↦ rw other
        ]

pub contains-collapse_onto :
    (d : Dict String BlockingRow) (rows : List BlockingRow) (k : String)
    → contains k (keys (collapse_onto d rows))
      ≡ (contains k (keys d) || any (λ row. lock_key row == k) rows)
unfolding collapse_onto keep_longest
contains-collapse_onto d [] k = ground arith
contains-collapse_onto d (row ∷ rows) k =
    contains-collapse_onto (keep_longest (lock_key row) row d) rows k
    ∙ ground (arith, contains-keep_longest (lock_key row) row d k)

-- The keys of the collapsed snapshot are the keys of its rows.
pub contains-collapse :
    (rows : List BlockingRow) (k : String)
    → contains k (keys (collapse rows)) ≡ any (λ row. lock_key row == k) rows
unfolding collapse
contains-collapse rows k = contains-collapse_onto [] rows k

module _ {ℓ} (P : BlockingRow → Type ℓ) where
  All-keep_longest :
      (key : String) (row : BlockingRow) (d : Dict String BlockingRow)
      → P row
      → All (λ x. P x.1) d
      → All (λ x. P x.1) (keep_longest key row d)
  unfolding keep_longest
  All-keep_longest key row d h hs = pick (is_longer row (get key d))
    where
      pick : (b : Bool) → All (λ x. P x.1) (if b then put key row d else d)
      pick true = All-put P key row d h hs
      pick false = hs

  All-collapse_onto :
      (d : Dict String BlockingRow) (rows : List BlockingRow)
      → All (λ x. P x.1) d
      → All P rows
      → All (λ x. P x.1) (collapse_onto d rows)
  unfolding collapse_onto keep_longest
  All-collapse_onto d [] hs h = hs
  All-collapse_onto d (row ∷ rows) hs h =
      All-collapse_onto (keep_longest (lock_key row) row d) rows
        (All-keep_longest (lock_key row) row d h.0 hs) h.1

  pub All-collapse : (rows : List BlockingRow) → All P rows → All (λ x. P x.1) (collapse rows)
  unfolding collapse
  All-collapse rows h = All-collapse_onto [] rows tt h
