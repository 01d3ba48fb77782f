-- ===== src/Monitor/Alerts.antt =====
-- The lock incidents of monitor_locks.py: `_upsert_lock_alerts`, and the loop of `process_instance`
-- that clears the incidents which are no longer in the snapshot.
pub mod Steps
pub mod Recorded
pub mod Synced
use healthgrid.Prelude.{
  ℕ, suc, String, Bool, true, false, not, ◌&&◌, Option, none, some, List, [], ◌∷◌, ◌++◌, map, ℤ,
  max_zero, is_nonzero, leb, is_none, is_some, is_blank, or_text, contains, nat_eq, string_eq, ◌==◌,
  if◌then◌else◌,
}
use healthgrid.Prelude.Tables.{select, update_where}
use healthgrid.Prelude.Dict.{Dict, keys}
use healthgrid.Results.{Result, ok, raise, integrity_error, multiple_objects, ◌>>=◌}
use healthgrid.Models.Alerts.{BlockingRow, LockAlert, Table}
use healthgrid.Monitor.Keys.{int_or_zero, collapse}

-- `instance=instance, resolved_at__isnull=True`
abbrev pub is_active : ℕ → LockAlert → Bool
is_active i a = a.instance_id == i && is_none a.resolved_at

-- The condition of the constraint `unique_active_lock_alert`.
abbrev pub is_incident : ℕ → String → LockAlert → Bool
is_incident i key a = is_active i a && a.alert_key == key

-- The `defaults` of `get_or_create`.
unfoldable pub new_alert : ℕ → ℕ → ℕ → String → BlockingRow → ℕ → ℕ → LockAlert
new_alert pk i now key row blocked blocking = record {
  pk = pk;
  instance_id = i;
  alert_key = key;
  blocked_pid = blocked;
  blocking_pid = blocking;
  blocked_user = or_text row.blocked_user "";
  blocking_user = or_text row.blocking_user "";
  blocked_query = or_text row.blocked_query "";
  blocking_query = or_text row.blocking_query "";
  waiting_seconds = max_zero (int_or_zero row.waiting_seconds);
  first_seen_at = now;
  last_seen_at = now;
  alerted_at = none;
  resolved_at = none;
  clear_reason = "";
  cleared_by = "";
}

-- The pid columns are NOT NULL, so a row without a pid is refused.
insert_alert :
    ℕ
    → ℕ
    → String
    → BlockingRow
    → Table LockAlert
    → Option ℕ
    → Option ℕ
    → Result (LockAlert × Bool × Table LockAlert)
unfolding new_alert
insert_alert i now key row t (some blocked) (some blocking) =
    let a = new_alert t.next_pk i now key row blocked blocking in
    ok (a, true, record { rows = t.rows ++ a ∷ []; next_pk = suc t.next_pk })
insert_alert i now key row t _ _ = raise integrity_error

-- The cases of `get_or_create`, by the rows that its query found.
got_or_created :
    ℕ
    → ℕ
    → String
    → BlockingRow
    → Table LockAlert
    → List LockAlert
    → Result (LockAlert × Bool × Table LockAlert)
unfolding insert_alert
got_or_created i now key row t [] = insert_alert i now key row t row.blocked_pid row.blocking_pid
got_or_created i now key row t (a ∷ []) = ok (a, false, t)
got_or_created i now key row t (a ∷ b ∷ rest) = raise multiple_objects

unfoldable pub get_or_create_alert :
    ℕ → ℕ → String → BlockingRow → Table LockAlert → Result (LockAlert × Bool × Table LockAlert)
unfolding got_or_created
get_or_create_alert i now key row t =
    got_or_created i now key row t (select (is_incident i key) t.rows)

-- `max(0, int(value or fallback))`
abbrev pub int_or : Option ℤ → ℕ → ℕ
int_or none fallback = fallback
int_or (some n) fallback = if is_nonzero n then max_zero n else fallback

-- The branch `if not created`.
unfoldable pub refresh_alert : ℕ → BlockingRow → LockAlert → LockAlert
refresh_alert now row a = record a {
  last_seen_at = now;
  blocked_user = or_text row.blocked_user a.blocked_user;
  blocking_user = or_text row.blocking_user a.blocking_user;
  blocked_query = or_text row.blocked_query a.blocked_query;
  blocking_query = or_text row.blocking_query a.blocking_query;
  waiting_seconds = int_or row.waiting_seconds a.waiting_seconds;
}

unfoldable pub mark_alerted : ℕ → ℕ → LockAlert → LockAlert
mark_alerted threshold now a =
    if leb threshold a.waiting_seconds && is_none a.alerted_at
    then record a { alerted_at = some now }
    else a

-- `alert.save()`
abbrev pub save_alert : LockAlert → Table LockAlert → Table LockAlert
save_alert a t = record t { rows = update_where (λ r. r.pk == a.pk) (λ _. a) t.rows }

-- One round of the loop of `_upsert_lock_alerts`.
unfoldable pub upsert_alert :
    ℕ → ℕ → ℕ → String → BlockingRow → Table LockAlert → Result (Table LockAlert)
unfolding get_or_create_alert refresh_alert mark_alerted
upsert_alert i threshold now key row t = do
  (a, created, t') ← get_or_create_alert i now key row t
  ok (save_alert (mark_alerted threshold now (if created then a else refresh_alert now row a)) t')

-- `_upsert_lock_alerts`: one transaction, so a raise leaves the table of the caller as it was.
unfoldable pub upsert_lock_alerts :
    ℕ → ℕ → ℕ → Dict String BlockingRow → Table LockAlert → Result (Table LockAlert)
unfolding upsert_alert
upsert_lock_alerts i threshold now [] t = ok t
upsert_lock_alerts i threshold now ((key, row) ∷ rest) t = do
  t' ← upsert_alert i threshold now key row t
  upsert_lock_alerts i threshold now rest t'

-- An active incident of the instance whose key the snapshot does not hold.
abbrev pub is_stale : ℕ → List String → LockAlert → Bool
is_stale i seen a = is_active i a && not (contains a.alert_key seen)

-- What the loop writes to the object in memory.
abbrev pub auto_clear : ℕ → LockAlert → LockAlert
auto_clear now a = record a {
  resolved_at = some now;
  clear_reason = if is_blank a.clear_reason then "auto_clear" else a.clear_reason;
}

-- `cleared_alerts`: the cleared incidents that had been announced.
unfoldable pub cleared_alerts : ℕ → List String → ℕ → List LockAlert → List LockAlert
cleared_alerts i seen now rows =
    select (λ a. is_some a.alerted_at) (map (auto_clear now) (select (is_stale i seen) rows))

-- The two updates by `pk__in=clear_ids`.
unfoldable pub clear_stale : ℕ → List String → ℕ → Table LockAlert → Table LockAlert
clear_stale i seen now t =
    let clear_ids = map (λ a. a.pk) (select (is_stale i seen) t.rows) in
    let resolved =
      update_where (λ a. contains a.pk clear_ids) (λ a. record a { resolved_at = some now })
        t.rows in
    record t {
      rows =
          update_where (λ a. contains a.pk clear_ids && is_blank a.clear_reason)
            (λ a. record a { clear_reason = "auto_clear" }) resolved;
    }

-- The part of `process_instance` that brings the incidents in line with one snapshot: the table, and
-- the announced incidents that the snapshot cleared.
unfoldable pub sync_alerts :
    ℕ → ℕ → ℕ → List BlockingRow → Table LockAlert → Result (Table LockAlert × List LockAlert)
unfolding upsert_lock_alerts clear_stale cleared_alerts
sync_alerts i threshold now blocking t =
    let unique_blocking = collapse blocking in
    do
      t' ← upsert_lock_alerts i threshold now unique_blocking t
      ok (
        clear_stale i (keys unique_blocking) now t',
        cleared_alerts i (keys unique_blocking) now t'.rows,
      )
