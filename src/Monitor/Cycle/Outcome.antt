-- ===== src/Monitor/Cycle/Outcome.antt =====
-- What a cycle leaves in the tables.
use healthgrid.Prelude.{
  if◌then◌else◌, ℕ, String, Bool, true, false, not, ◌&&◌, is_empty, List, [], All, ◌≡◌, refl, ◌∙◌,
  Bool-cases, inl, inr,
}
use healthgrid.Prelude.Dict.{keys}
use healthgrid.Results.{Result, ok, raise}
use healthgrid.Effects.{Exec, modify, continue, ◌>>=◌}
use healthgrid.Models.Alerts.{ActivityRow, BlockingRow, LongQueryAlert}
use healthgrid.Models.Instances.{RdsInstance}
use healthgrid.Models.Settings.{NotificationSettings}
use healthgrid.Notifications.Schedule.{lock_notifications_open}
use healthgrid.Notifications.Webhooks.{Web}
use healthgrid.Monitor.Alerts.Steps.{IsValid}
use healthgrid.Monitor.Alerts.Recorded.{HasPids}
use healthgrid.Monitor.Alerts.Synced.{Synced, sync_alerts-Synced}
use healthgrid.Monitor.State.{MonitorState, Library}
use healthgrid.Monitor.LongQueries.{
  finish_queries, resolve_unseen, on_queries, process_long_queries, track_queries, announce_queries,
  candidates_onto,
}
use healthgrid.Monitor.Cycle.{process_instance, notify_changes, save_locks}

-- The action keeps the incidents, whatever it returns or raises.
abbrev Keeps : {A : Type 0} → Exec MonitorState A → Type 0
Keeps m = (s : MonitorState) → (m s).1.locks ≡ s.locks

continue-locks :
    {A B : Type 0} (res : Result A) (f : A → Exec MonitorState B) (s : MonitorState)
    → ((a : A) → Keeps (f a))
    → (continue res f s).1.locks ≡ s.locks
continue-locks (ok a) f s kept = kept a s
continue-locks (raise e) f s kept = refl

bind-Keeps :
    {A B : Type 0} (m : Exec MonitorState A) (f : A → Exec MonitorState B)
    → Keeps m
    → ((a : A) → Keeps (f a))
    → Keeps (m >>= f)
bind-Keeps m f kept rest s = continue-locks (m s).0 f (m s).1 rest ∙ kept s

if-Keeps :
    {A : Type 0} (b : Bool) (m n : Exec MonitorState A)
    → Keeps m
    → Keeps n
    → Keeps (if b then m else n)
if-Keeps true m n kept _ = kept
if-Keeps false m n _ kept = kept

module _ (lib : Library) (web : Web) (allowed : List String) (config : NotificationSettings)
    (r : RdsInstance) (now : ℕ) where
  announce_queries-locks :
      (new_alerts : List LongQueryAlert) (s : MonitorState)
      → (announce_queries lib web allowed config r now new_alerts s).locks ≡ s.locks
  unfolding announce_queries
  announce_queries-locks new_alerts s =
      elim (Bool-cases (not (is_empty new_alerts) && lock_notifications_open config now)) [
        | inl b ↦ rw b refl
        | inr b ↦ rw b refl
      ]

  finish_queries-Keeps :
      (seen : List String) (new_alerts : List LongQueryAlert)
      → Keeps (finish_queries lib web allowed r config now seen new_alerts)
  unfolding finish_queries
  finish_queries-Keeps seen new_alerts s =
      announce_queries-locks new_alerts
        (record s { long_queries = resolve_unseen r.pk seen now s.long_queries })

  process_long_queries-Keeps :
      (activity : List ActivityRow)
      → Keeps (process_long_queries lib web allowed r activity config now)
  unfolding process_long_queries
  process_long_queries-Keeps activity =
      let candidates = candidates_onto lib config [] activity in
      let resolve : Exec MonitorState (Unit {0}) =
        modify (λ s. record s { long_queries = resolve_unseen r.pk [] now s.long_queries }) in
      let track : Exec MonitorState (List LongQueryAlert) =
        on_queries (track_queries r.pk now candidates) in
      let finish = finish_queries lib web allowed r config now (keys candidates) in
      if-Keeps (not config.manual_query_alert_enabled) resolve (track >>= finish) (λ s. refl)
        (bind-Keeps track finish (λ s. refl) (finish_queries-Keeps (keys candidates)))

  -- After a cycle over a valid table whose catalog rows could be fetched and name both pids, the
  -- active incidents of the instance are exactly the PID pairs of the snapshot, the table is valid,
  -- and other instances' incidents are unchanged, whatever became of long queries and notifications.
  pub process_instance-Synced :
      (activity : List ActivityRow) (blocking : List BlockingRow) (s : MonitorState)
      → IsValid s.locks
      → All HasPids blocking
      → Synced r.pk blocking s.locks
          (process_instance lib web allowed config r now (ok (activity, blocking)) s).1.locks
  unfolding process_instance notify_changes
  process_instance-Synced activity blocking s v pids =
      let (t', gone, e, synced) =
        sync_alerts-Synced r.pk config.threshold_seconds now blocking s.locks v pids in
      let last =
        bind-Keeps (process_long_queries lib web allowed r activity config now)
          (λ _. modify (notify_changes lib web allowed config r now gone))
          (process_long_queries-Keeps activity) (λ _ s'. refl) in
      rw e (rw (last (save_locks t' s)) synced)
