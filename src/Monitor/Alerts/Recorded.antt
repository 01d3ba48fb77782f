-- ===== src/Monitor/Alerts/Recorded.antt =====
-- `_upsert_lock_alerts` keeps the table valid and records exactly the pairs that it is given.
use mathlib.Core.List.{append-nil}
use healthgrid.Prelude.{
  ℕ, suc, String, Bool, true, false, not, ◌&&◌, ◌||◌, some, List, [], ◌∷◌, ◌++◌, contains, any, All,
  length, nat_eq, string_eq, ◌==◌, if◌then◌else◌, ◌≡◌, refl, ap, ◌∙◌, ◌≤◌, arith, eq_iff, inl, inr,
  ◌+◌, ◌<◌, Bool-cases,
}
use healthgrid.Prelude.Dict.{Dict, keys}
use healthgrid.Prelude.Tables.{select, update_where, count_where, any-append, count_where-append}
use healthgrid.Prelude.Tables.Distinct.{Distinct-update_where, Distinct-append, Below-append}
use healthgrid.Prelude.Tables.Rows.{
  length-select, All-of, All-update_where, any_kept, count_kept, select-nil_count,
  select-update_where, select-append, any_of_select,
}
use healthgrid.Results.{ok}
use healthgrid.Models.Alerts.{BlockingRow, LockAlert, Table}
use healthgrid.Monitor.Alerts.{
  is_active, is_incident, new_alert, refresh_alert, mark_alerted, upsert_alert, upsert_lock_alerts,
}
use healthgrid.Monitor.Alerts.Steps.{IsValid, upsert_alert_known, upsert_alert_new}

-- The catalog knows both backends of the row.
pub record HasPids (row : BlockingRow) : Type 0 where
  pub blocked : ℕ
  pub blocking : ℕ
  pub blocked_known : row.blocked_pid ≡ some blocked
  pub blocking_known : row.blocking_pid ≡ some blocking

abbrev pub is_outside : ℕ → LockAlert → Bool
is_outside i a = not (is_active i a)

-- `t'` has the keys of `t` and the given ones active for the instance, and no row of `t` changed
-- that was not an active incident of it.
pub record Recorded (i : ℕ) (given : List String) (t t' : Table LockAlert) : Type 0 where
  pub valid : IsValid t'
  pub active :
      (k : String)
      → any (is_incident i k) t'.rows ≡ (contains k given || any (is_incident i k) t.rows)
  pub outside : select (is_outside i) t'.rows ≡ select (is_outside i) t.rows

refresh : ℕ → ℕ → BlockingRow → LockAlert → LockAlert
refresh threshold now row a = mark_alerted threshold now (refresh_alert now row a)

refresh_kept :
    (threshold now : ℕ) (row : BlockingRow) (i : ℕ) (k : String) (a : LockAlert)
    → is_incident i k (refresh threshold now row a) ≡ is_incident i k a
unfolding refresh mark_alerted refresh_alert
refresh_kept threshold now row i k a = ground arith

refresh-pk :
    (threshold now : ℕ) (row : BlockingRow) (a : LockAlert)
    → (refresh threshold now row a).pk ≡ a.pk
unfolding refresh mark_alerted refresh_alert
refresh-pk threshold now row a = ground arith

refresh-outside :
    (threshold now : ℕ) (row : BlockingRow) (i : ℕ) (a : LockAlert)
    → is_outside i (refresh threshold now row a) ≡ is_outside i a
unfolding refresh mark_alerted refresh_alert
refresh-outside threshold now row i a = ground arith

incident_inside :
    (i : ℕ) (key : String) (a : LockAlert) → is_incident i key a ≡ true → is_outside i a ≡ false
incident_inside i key a h = ground arith

-- An update of the one incident with a key.
known-Recorded :
    (i threshold now : ℕ) (key : String) (row : BlockingRow) (t : Table LockAlert) (a : LockAlert)
    → IsValid t
    → select (is_incident i key) t.rows ≡ a ∷ []
    → Recorded i
        (key ∷ [])
        t
        (record t { rows = update_where (is_incident i key) (refresh threshold now row) t.rows })
known-Recorded i threshold now key row t a v h = record {
  valid = record {
    distinct =
        Distinct-update_where (λ b. b.pk) p f (refresh-pk threshold now row) t.rows v.distinct;
    below =
        All-update_where {P = λ b. b.pk < t.next_pk} p f
          (λ b k. omega (arith, refresh-pk threshold now row b)) t.rows v.below;
    unique = λ j k. omega (
      arith,
      count_kept (is_incident j k) p f t.rows (refresh_kept threshold now row j k),
      v.unique j k,
    );
  };
  active = λ k.
      any_kept (is_incident i k) p f t.rows (refresh_kept threshold now row i k) ∙ was_active k;
  outside =
      select-update_where (is_outside i) p f t.rows (All-of (incident_inside i key) t.rows)
        (All-of (λ b e. refresh-outside threshold now row i b ∙ incident_inside i key b e) t.rows);
}
  where
    p : LockAlert → Bool
    p = is_incident i key

    f : LockAlert → LockAlert
    f = refresh threshold now row

    was_active :
        (k : String)
        → any (is_incident i k) t.rows ≡ (contains k (key ∷ []) || any (is_incident i k) t.rows)
    was_active k = elim (Bool-cases (key == k)) [
      | inl same ↦
          rw (← (eq_iff key k).0 same)
            (ground (arith, any_of_select p a [] t.rows h, eq_iff key key))
      | inr other ↦ rw other
    ]

created : ℕ → ℕ → ℕ → String → BlockingRow → ℕ → ℕ → ℕ → LockAlert
created i threshold now key row b q pk = mark_alerted threshold now (new_alert pk i now key row b q)

created-pk :
    (i threshold now : ℕ) (key : String) (row : BlockingRow) (b q pk : ℕ)
    → (created i threshold now key row b q pk).pk ≡ pk
unfolding created mark_alerted new_alert
created-pk i threshold now key row b q pk = ground arith

created-is_incident :
    (i threshold now : ℕ) (key : String) (row : BlockingRow) (b q pk j : ℕ) (k : String)
    → is_incident j k (created i threshold now key row b q pk) ≡ (i == j && key == k)
unfolding created mark_alerted new_alert
created-is_incident i threshold now key row b q pk j k = ground arith

created-is_outside :
    (i threshold now : ℕ) (key : String) (row : BlockingRow) (b q pk : ℕ)
    → is_outside i (created i threshold now key row b q pk) ≡ false
unfolding created mark_alerted new_alert
created-is_outside i threshold now key row b q pk = ground arith

created_unique :
    (i j : ℕ) (key k : String) (t : Table LockAlert)
    → IsValid t
    → select (is_incident i key) t.rows ≡ []
    → count_where (is_incident j k) t.rows + (if i == j && key == k then 1 else 0) ≤ 1
created_unique i j key k t v h = elim (Bool-cases (i == j && key == k)) [
  | inl same ↦
      let ij : i ≡ j = ground arith in
      let kk : key ≡ k = (eq_iff key k).0 (ground arith) in
      rw same (rw (← ij, ← kk) (omega (arith, select-nil_count (is_incident i key) t.rows h)))
  | inr other ↦ rw other (omega (arith, v.unique j k))
]

-- The insertion of an incident with a new key.
new-Recorded :
    (i threshold now : ℕ) (key : String) (row : BlockingRow) (t : Table LockAlert) (b q : ℕ)
    → IsValid t
    → select (is_incident i key) t.rows ≡ []
    → Recorded i (key ∷ []) t (record {
      rows = t.rows ++ created i threshold now key row b q t.next_pk ∷ [];
      next_pk = suc t.next_pk;
    })
new-Recorded i threshold now key row t b q v h = record {
  valid = record {
    distinct = Distinct-append (λ c. c.pk) t.next_pk a t.rows a-pk v.below v.distinct;
    below = Below-append (λ c. c.pk) t.next_pk a t.rows a-pk v.below;
    unique = λ j k. rw count_where-append (
        rw (created-is_incident i threshold now key row b q t.next_pk j k)
          (created_unique i j key k t v h));
  };
  active = λ k.
      rw any-append
        (rw (created-is_incident i threshold now key row b q t.next_pk i k) (ground arith));
  outside =
      rw select-append
        (rw (created-is_outside i threshold now key row b q t.next_pk) (append-nil _));
}
  where
    a : LockAlert
    a = created i threshold now key row b q t.next_pk

    a-pk : a.pk ≡ t.next_pk
    a-pk = created-pk i threshold now key row b q t.next_pk

-- A round returns and records its pair.
pub upsert_alert-Recorded :
    (i threshold now : ℕ) (key : String) (row : BlockingRow) (t : Table LockAlert)
    → IsValid t
    → HasPids row
    → (t' : Table LockAlert) × (upsert_alert i threshold now key row t ≡ ok t')
      × Recorded i (key ∷ []) t t'
unfolding refresh created
upsert_alert-Recorded i threshold now key row t v pids =
    by_found (select (is_incident i key) t.rows) refl
  where
    by_found :
        (l : List LockAlert)
        → select (is_incident i key) t.rows ≡ l
        → (t' : Table LockAlert) × (upsert_alert i threshold now key row t ≡ ok t')
          × Recorded i (key ∷ []) t t'
    by_found [] h = (
      _,
      upsert_alert_new i threshold now key row t pids.blocked pids.blocking v pids.blocked_known
          pids.blocking_known h,
      new-Recorded i threshold now key row t pids.blocked pids.blocking v h,
    )
    by_found (a ∷ []) h = (
      _,
      upsert_alert_known i threshold now key row t a v h,
      known-Recorded i threshold now key row t a v h,
    )
    by_found (a ∷ b ∷ rest) h = absurd (
        omega (
          arith,
          v.unique i key,
          length-select (is_incident i key) t.rows,
          ap (length {A = LockAlert}) h,
        ))

Recorded-trans :
    (i : ℕ) (key : String) (given : List String) (t u w : Table LockAlert)
    → Recorded i (key ∷ []) t u
    → Recorded i given u w
    → Recorded i (key ∷ given) t w
Recorded-trans i key given t u w r s = record {
  valid = s.valid;
  active = λ k. ground (arith, s.active k, r.active k);
  outside = s.outside ∙ r.outside;
}

-- On a valid table and rows with both pids, the whole transaction returns and records every pair.
pub upsert_lock_alerts-Recorded :
    (i threshold now : ℕ) (d : Dict String BlockingRow) (t : Table LockAlert)
    → IsValid t
    → All (λ e. HasPids e.1) d
    → (t' : Table LockAlert) × (upsert_lock_alerts i threshold now d t ≡ ok t')
      × Recorded i (keys d) t t'
unfolding upsert_lock_alerts
upsert_lock_alerts-Recorded i threshold now [] t v pids =
    (t, refl, record { valid = v; active = λ k. refl; outside = refl })
upsert_lock_alerts-Recorded i threshold now ((key, row) ∷ d) t v pids =
    let (u, e, r) = upsert_alert-Recorded i threshold now key row t v pids.0 in
    let (w, f, s) = upsert_lock_alerts-Recorded i threshold now d u r.valid pids.1 in
    (w, rw e f, Recorded-trans i key (keys d) t u w r s)
