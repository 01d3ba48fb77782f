-- ===== src/Monitor/Alerts/Synced.antt =====
-- One snapshot brings the incidents of its instance in line with the catalog, and touches no other.
use mathlib.Core.Path.{subst}
use healthgrid.Prelude.{
  ℕ, String, Bool, true, not, ◌&&◌, List, [], ◌∷◌, contains, any, All, nat_eq, string_eq, ◌==◌,
  if◌then◌else◌, ◌≡◌, refl, ap, ◌∙◌, ◌<◌, arith, eq_iff, Bool-cases, inl, inr, sym,
}
use healthgrid.Prelude.Dict.{keys}
use healthgrid.Prelude.Tables.{select, update_where}
use healthgrid.Prelude.Tables.Distinct.{Distinct-update_where}
use healthgrid.Prelude.Tables.Rows.{
  All-of, All-update_where, any-cong, any-update_where, count_where-update_where, count_where_le,
  select-update_where, select-select,
}
use healthgrid.Results.{ok}
use healthgrid.Models.Alerts.{BlockingRow, LockAlert, Table}
use healthgrid.Monitor.Keys.{lock_key, collapse}
use healthgrid.Monitor.Keys.Collapse.{contains-collapse, All-collapse}
use healthgrid.Monitor.Alerts.{
  is_incident, is_stale, auto_clear, clear_stale, cleared_alerts, sync_alerts,
}
use healthgrid.Monitor.Alerts.Steps.{IsValid, clear_stale-eq}
use healthgrid.Monitor.Alerts.Recorded.{HasPids, upsert_lock_alerts-Recorded, is_outside}

module _ (i : ℕ) (seen : List String) (now : ℕ) where
  cleared : LockAlert → LockAlert
  cleared a = if is_stale i seen a then auto_clear now a else a

  -- Of the incidents of the instance, those in the snapshot stay active.
  cleared-incident :
      (k : String) (a : LockAlert)
      → is_incident i k (cleared a) ≡ (contains k seen && is_incident i k a)
  unfolding cleared
  cleared-incident k a = elim (Bool-cases (a.alert_key == k)) [
    | inl same ↦
        let e : a.alert_key ≡ k = (eq_iff a.alert_key k).0 same in
        ground (arith, ap (λ s. contains s seen) e)
    | inr other ↦ ground arith
  ]

  cleared_le :
      (j : ℕ) (k : String) (a : LockAlert)
      → is_incident j k (cleared a) ≡ true
      → is_incident j k a ≡ true
  unfolding cleared
  cleared_le j k a h = ground arith

  any-and :
      (c : Bool) (q : LockAlert → Bool) (rows : List LockAlert)
      → any (λ a. c && q a) rows ≡ (c && any q rows)
  any-and c q [] = ground arith
  any-and c q (a ∷ rows) = ground (arith, any-and c q rows)

  resolved : Table LockAlert → Table LockAlert
  resolved t = record t { rows = update_where (is_stale i seen) (auto_clear now) t.rows }

  clear_stale_lem : (t : Table LockAlert) → IsValid t → clear_stale i seen now t ≡ resolved t
  unfolding clear_stale resolved
  clear_stale_lem t v =
      ap (λ rows. record { rows = rows; next_pk = t.next_pk }) (clear_stale-eq i seen now t v)

  resolved-IsValid : (t : Table LockAlert) → IsValid t → IsValid (resolved t)
  unfolding resolved cleared
  resolved-IsValid t v = record {
    distinct =
        Distinct-update_where (λ a. a.pk) (is_stale i seen) (auto_clear now) (λ a. refl) t.rows
          v.distinct;
    below =
        All-update_where {P = λ a. a.pk < t.next_pk} (is_stale i seen) (auto_clear now) (λ a h. h)
          t.rows v.below;
    unique = λ j k. omega (
      arith,
      count_where-update_where (is_incident j k) (is_stale i seen) (auto_clear now) t.rows,
      count_where_le (λ a. is_incident j k (cleared a)) (is_incident j k) t.rows (cleared_le j k),
      v.unique j k,
    );
  }

  -- Clearing keeps the table valid, and leaves active what the snapshot holds.
  clear_stale-IsValid : (t : Table LockAlert) → IsValid t → IsValid (clear_stale i seen now t)
  clear_stale-IsValid t v = subst IsValid (sym (clear_stale_lem t v)) (resolved-IsValid t v)

  clear_stale-active :
      (k : String) (t : Table LockAlert)
      → IsValid t
      → any (is_incident i k) (clear_stale i seen now t).rows
        ≡ (contains k seen && any (is_incident i k) t.rows)
  unfolding cleared
  clear_stale-active k t v =
      ap (any (is_incident i k)) (clear_stale-eq i seen now t v)
      ∙ any-update_where (is_incident i k) (is_stale i seen) (auto_clear now) t.rows
      ∙ any-cong _ (λ a. contains k seen && is_incident i k a) t.rows
          (All-of (cleared-incident k) t.rows)
      ∙ any-and (contains k seen) (is_incident i k) t.rows

abbrev pub is_elsewhere : ℕ → LockAlert → Bool
is_elsewhere i a = not (a.instance_id == i)

elsewhere_outside : (i : ℕ) (a : LockAlert) → is_elsewhere i a ≡ true → is_outside i a ≡ true
elsewhere_outside i a h = ground arith

clear_stale-elsewhere :
    (i : ℕ) (seen : List String) (now : ℕ) (t : Table LockAlert)
    → IsValid t
    → select (is_elsewhere i) (clear_stale i seen now t).rows ≡ select (is_elsewhere i) t.rows
clear_stale-elsewhere i seen now t v =
    ap (select (is_elsewhere i)) (clear_stale-eq i seen now t v)
    ∙ select-update_where (is_elsewhere i) (is_stale i seen) (auto_clear now) t.rows
        (All-of (λ a h. ground arith) t.rows) (All-of (λ a h. ground arith) t.rows)

-- What one snapshot does to the table.
pub record Synced (i : ℕ) (blocking : List BlockingRow) (t t' : Table LockAlert) : Type 0 where
  pub valid : IsValid t'
  pub active :
      (k : String) → any (is_incident i k) t'.rows ≡ any (λ row. lock_key row == k) blocking
  pub elsewhere : select (is_elsewhere i) t'.rows ≡ select (is_elsewhere i) t.rows

-- From a valid table and a snapshot whose rows have both pids, the update returns, the table stays
-- valid, the active incidents of the instance are exactly the PID pairs of the snapshot, and the
-- incidents of every other instance are unchanged.
pub sync_alerts-Synced :
    (i threshold now : ℕ) (blocking : List BlockingRow) (t : Table LockAlert)
    → IsValid t
    → All HasPids blocking
    → (t' : Table LockAlert) × (gone : List LockAlert) × (sync_alerts i threshold now blocking t
        ≡ ok (t', gone))
      × Synced i blocking t t'
unfolding sync_alerts
sync_alerts-Synced i threshold now blocking t v pids =
    let seen = keys (collapse blocking) in
    let (u, e, r) =
      upsert_lock_alerts-Recorded i threshold now (collapse blocking) t v
        (All-collapse HasPids blocking pids) in
    (
      clear_stale i seen now u,
      cleared_alerts i seen now u.rows,
      rw e,
      record {
        valid = clear_stale-IsValid i seen now u r.valid;
        active = λ k.
            clear_stale-active i seen now k u r.valid
            ∙ ground (arith, r.active k, contains-collapse blocking k);
        elsewhere =
            clear_stale-elsewhere i seen now u r.valid
            ∙ sym (select-select (is_elsewhere i) (is_outside i) u.rows (elsewhere_outside i))
            ∙ ap (select (is_elsewhere i)) r.outside
            ∙ select-select (is_elsewhere i) (is_outside i) t.rows (elsewhere_outside i);
      },
    )
