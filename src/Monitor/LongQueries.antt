-- ===== src/Monitor/LongQueries.antt =====
-- `process_long_queries` of monitor_locks.py.
use healthgrid.Prelude.{
  ℕ, suc, String, Bool, false, not, ◌&&◌, ◌||◌, Option, none, some, List, [], ◌∷◌, ◌++◌, ◌<>◌, map,
  pos, ltb_ℤ, max_zero, is_none, is_blank, is_empty, or_text, contains, join, split_at, nat_eq,
  string_eq, ◌==◌, if◌then◌else◌,
}
use healthgrid.Prelude.Dict.{Dict, put, keys}
use healthgrid.Prelude.Tables.{select, update_where}
use healthgrid.Results.{ok, raise, integrity_error, multiple_objects}
use healthgrid.Effects.{Exec, pure, modify, ◌>>=◌, ◌>>◌}
use healthgrid.Models.Alerts.{ActivityRow, LongQueryAlert, Table}
use healthgrid.Models.Instances.{RdsInstance}
use healthgrid.Models.Settings.{NotificationSettings}
use healthgrid.Notifications.Schedule.{lock_notifications_open}
use healthgrid.Notifications.Webhooks.{Web}
use healthgrid.Notifications.Delivery.{notify_long_query}
use healthgrid.Monitor.Keys.{pid_text, int_or_zero}
use healthgrid.Monitor.Alerts.{int_or}
use healthgrid.Monitor.State.{MonitorState, Library}

module _ (lib : Library) where
  unfoldable pub long_query_key : ActivityRow → String
  unfolding pid_text
  long_query_key row =
      let start : String = elim row.query_start [ none ↦ "" | some t ↦ lib.time_text t ] in
      let fingerprint = lib.sha256 (
        join "\0"
          (pid_text row.pid ∷ or_text row.usename "" ∷ start ∷ or_text row.query "" ∷ [])) in
      pid_text row.pid <> (":" <> fingerprint)

  unfoldable pub excluded_users : NotificationSettings → List String
  excluded_users config =
      map (λ u. lib.casefold (lib.strip u))
        (select (λ u. not (is_blank (lib.strip u)))
          (split_at b',' config.manual_query_excluded_users))

  -- The three tests of the loop that skip a row.
  unfoldable pub is_long_query : NotificationSettings → ActivityRow → Bool
  unfolding excluded_users
  is_long_query config row =
      let username = lib.strip (or_text row.usename "") in
      let application_name = lib.strip (or_text row.application_name "") in
      if not (or_text row.state "" == "active")
        || is_blank username
        || contains (lib.casefold username) (excluded_users config)
      then false
      else if lib.casefold application_name == "healthgrid-control"
      then false
      else not
          (ltb_ℤ (int_or_zero row.duration_seconds) (pos config.manual_query_threshold_seconds))

  unfoldable pub candidates_onto :
      NotificationSettings → Dict String ActivityRow → List ActivityRow → Dict String ActivityRow
  unfolding is_long_query long_query_key
  candidates_onto config d [] = d
  candidates_onto config d (row ∷ rows) =
      candidates_onto config
        (if is_long_query config row then put (long_query_key row) row d else d) rows

abbrev pub is_active_query : ℕ → LongQueryAlert → Bool
is_active_query i a = a.instance_id == i && is_none a.resolved_at

abbrev pub is_tracked_query : ℕ → String → LongQueryAlert → Bool
is_tracked_query i key a = is_active_query i a && a.alert_key == key

-- The `defaults` of `get_or_create`.
unfoldable pub new_query_alert : ℕ → ℕ → ℕ → String → ActivityRow → ℕ → LongQueryAlert
new_query_alert pk i now key row pid = record {
  pk = pk;
  instance_id = i;
  alert_key = key;
  pid = pid;
  username = or_text row.usename "";
  application_name = or_text row.application_name "";
  client_addr = or_text row.client_addr "";
  query = or_text row.query "";
  query_start = row.query_start;
  duration_seconds = max_zero (int_or_zero row.duration_seconds);
  first_seen_at = now;
  last_seen_at = now;
  alerted_at = none;
  resolved_at = none;
}

abbrev pub refresh_query : ℕ → ActivityRow → LongQueryAlert → LongQueryAlert
refresh_query now row a = record a {
  last_seen_at = now;
  duration_seconds = int_or row.duration_seconds a.duration_seconds;
}

-- `get_or_create` and the update of one candidate, by the rows that the query found.
track_found :
    ℕ
    → ℕ
    → String
    → ActivityRow
    → List LongQueryAlert
    → Option ℕ
    → Exec (Table LongQueryAlert) LongQueryAlert
unfolding new_query_alert
track_found i now key row [] none t = (raise integrity_error, t)
track_found i now key row [] (some pid) t =
    let a = new_query_alert t.next_pk i now key row pid in
    (ok a, record { rows = t.rows ++ a ∷ []; next_pk = suc t.next_pk })
track_found i now key row (a ∷ []) pid t =
    let b = refresh_query now row a in
    (ok b, record t { rows = update_where (λ r. r.pk == b.pk) (λ _. b) t.rows })
track_found i now key row (a ∷ b ∷ rest) pid t = (raise multiple_objects, t)

unfoldable pub track_query :
    ℕ → ℕ → String → ActivityRow → Exec (Table LongQueryAlert) LongQueryAlert
unfolding track_found
track_query i now key row t =
    track_found i now key row (select (is_tracked_query i key) t.rows) row.pid t

-- The loop over the candidates: the incidents not announced yet.
unfoldable pub track_queries :
    ℕ → ℕ → Dict String ActivityRow → Exec (Table LongQueryAlert) (List LongQueryAlert)
unfolding track_query
track_queries i now [] = pure []
track_queries i now ((key, row) ∷ rest) = do
  a ← track_query i now key row
  new_alerts ← track_queries i now rest
  pure (if is_none a.alerted_at then a ∷ new_alerts else new_alerts)

-- `filter(…).exclude(alert_key__in=seen_keys).update(resolved_at=now)`
abbrev pub resolve_unseen : ℕ → List String → ℕ → Table LongQueryAlert → Table LongQueryAlert
resolve_unseen i seen now t = record t {
  rows =
      update_where (λ a. is_active_query i a && not (contains a.alert_key seen))
        (λ a. record a { resolved_at = some now }) t.rows;
}

-- An action on the table of long queries, as one on the state of the monitor.
abbrev pub on_queries : {A : Type 0} → Exec (Table LongQueryAlert) A → Exec MonitorState A
on_queries m s = let (r, t) = m s.long_queries in (r, record s { long_queries = t })

module _ (lib : Library) (web : Web) (allowed : List String) where
  -- The last step: one card for the new incidents, which are marked once it was delivered.
  unfoldable pub announce_queries :
      NotificationSettings → RdsInstance → ℕ → List LongQueryAlert → MonitorState → MonitorState
  unfolding notify_long_query
  announce_queries config r now new_alerts s =
      if not (is_empty new_alerts) && lock_notifications_open config now
      then (let (delivered, sent) = notify_long_query web allowed config r new_alerts now s.sent in
          let ids = map (λ a. a.pk) new_alerts in
          record s {
            long_queries =
                if delivered
                then record (s.long_queries) {
                  rows =
                      update_where (λ a. contains a.pk ids)
                        (λ a. record a { alerted_at = some now }) s.long_queries.rows;
                }
                else s.long_queries;
            sent = sent;
          })
      else s

  -- What follows the loop: the incidents out of sight are resolved, and the new ones announced.
  unfoldable pub finish_queries :
      RdsInstance
      → NotificationSettings
      → ℕ
      → List String
      → List LongQueryAlert
      → Exec MonitorState (Unit {0})
  unfolding announce_queries
  finish_queries r config now seen_keys new_alerts = do
    modify (λ s. record s { long_queries = resolve_unseen r.pk seen_keys now s.long_queries })
    modify (announce_queries config r now new_alerts)

  unfoldable pub process_long_queries :
      RdsInstance → List ActivityRow → NotificationSettings → ℕ → Exec MonitorState (Unit {0})
  unfolding candidates_onto track_queries finish_queries
  process_long_queries r activity config now =
      let candidates = candidates_onto lib config [] activity in
      if not config.manual_query_alert_enabled
      then modify (λ s. record s { long_queries = resolve_unseen r.pk [] now s.long_queries })
      else on_queries (track_queries r.pk now candidates)
        >>= finish_queries r config now (keys candidates)
