-- ===== src/Monitor/Alerts/Steps.antt =====
-- What one round of `_upsert_lock_alerts` and the clearing loop do to the table, as queries.
use healthgrid.Prelude.{
  ℕ, suc, String, ◌&&◌, some, List, [], ◌∷◌, ◌++◌, map, is_blank, contains, nat_eq, string_eq, ◌==◌,
  ◌≡◌, refl, ap, ◌∙◌, ◌≤◌, arith,
}
use healthgrid.Prelude.Tables.{select, update_where, count_where}
use healthgrid.Prelude.Tables.Distinct.{
  Distinct, Below, save-found, save-created, update_where-keys,
}
use healthgrid.Results.{ok}
use healthgrid.Models.Alerts.{BlockingRow, LockAlert, Table}
use healthgrid.Monitor.Alerts.{
  is_incident, is_stale, auto_clear, new_alert, refresh_alert, mark_alerted, upsert_alert,
  clear_stale,
}

-- The table's primary keys are distinct and below the counter, and no instance has two active
-- incidents with one key.
pub record IsValid (t : Table LockAlert) : Type 0 where
  pub distinct : Distinct (λ a. a.pk) t.rows
  pub below : Below (λ a. a.pk) t.next_pk t.rows
  pub unique : (i : ℕ) (key : String) → count_where (is_incident i key) t.rows ≤ 1

mark_alerted-pk : (threshold now : ℕ) (a : LockAlert) → (mark_alerted threshold now a).pk ≡ a.pk
unfolding mark_alerted
mark_alerted-pk threshold now a = ground arith

-- A round on a pair that is an active incident already.
pub upsert_alert_known :
    (i threshold now : ℕ) (key : String) (row : BlockingRow) (t : Table LockAlert) (a : LockAlert)
    → IsValid t
    → select (is_incident i key) t.rows ≡ a ∷ []
    → upsert_alert i threshold now key row t
      ≡ ok (record t {
        rows =
            update_where
              (is_incident i key)
              (λ b. mark_alerted threshold now (refresh_alert now row b))
              t.rows;
      })
unfolding upsert_alert
upsert_alert_known i threshold now key row t a v h = rw h (
    ap (λ rows. ok (record { rows = rows; next_pk = t.next_pk }))
      (ap (λ n. update_where (λ r. r.pk == n) (λ _. g a) t.rows)
          (mark_alerted-pk threshold now (refresh_alert now row a))
        ∙ save-found (λ r. r.pk) (is_incident i key) g a t.rows v.distinct h))
  where
    g : LockAlert → LockAlert
    g b = mark_alerted threshold now (refresh_alert now row b)

-- A round on a new pair.
pub upsert_alert_new :
    (i threshold now : ℕ) (key : String) (row : BlockingRow) (t : Table LockAlert) (p q : ℕ)
    → IsValid t
    → row.blocked_pid ≡ some p
    → row.blocking_pid ≡ some q
    → select (is_incident i key) t.rows ≡ []
    → upsert_alert i threshold now key row t
      ≡ ok (record {
        rows = t.rows ++ mark_alerted threshold now (new_alert t.next_pk i now key row p q) ∷ [];
        next_pk = suc t.next_pk;
      })
unfolding upsert_alert
upsert_alert_new i threshold now key row t p q v hp hq h =
    rw (h, hp, hq)
      (ap (λ rows. ok (record { rows = rows; next_pk = suc t.next_pk }))
        (ap
            (λ n.
              update_where (λ r. r.pk == n) (λ _. mark_alerted threshold now a) (t.rows ++ a ∷ []))
            (mark_alerted-pk threshold now a)
          ∙ save-created (λ r. r.pk) t.next_pk a (mark_alerted threshold now a) t.rows refl
              v.below))
  where
    a : LockAlert
    a = new_alert t.next_pk i now key row p q

-- The second update falls on rows that the first one has resolved.
fuse_clears :
    (now : ℕ) (ids : List ℕ) (rows : List LockAlert)
    → update_where
        (λ a. contains a.pk ids && is_blank a.clear_reason)
        (λ a. record a { clear_reason = "auto_clear" })
        (update_where (λ a. contains a.pk ids) (λ a. record a { resolved_at = some now }) rows)
      ≡ update_where (λ a. contains a.pk ids) (auto_clear now) rows
fuse_clears now ids [] = refl
fuse_clears now ids (a ∷ rows) = ground (arith, fuse_clears now ids rows)

-- The two updates by primary key are one update of the stale incidents.
pub clear_stale-eq :
    (i : ℕ) (seen : List String) (now : ℕ) (t : Table LockAlert)
    → IsValid t
    → (clear_stale i seen now t).rows ≡ update_where (is_stale i seen) (auto_clear now) t.rows
unfolding clear_stale
clear_stale-eq i seen now t v =
    fuse_clears now (map (λ a. a.pk) (select (is_stale i seen) t.rows)) t.rows
    ∙ update_where-keys (λ a. a.pk) (is_stale i seen) (auto_clear now) t.rows v.distinct
