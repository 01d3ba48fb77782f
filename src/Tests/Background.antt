-- ===== src/Tests/Background.antt =====
-- The loop of the monitor.
use healthgrid.Prelude.{
  ℕ, ◌+◌, ◌*◌, ◌<◌, Bool, true, false, some, List, [], ◌∷◌, map, string_eq, ◌==◌, ◌≡◌, refl, arith,
}
use healthgrid.Results.{ok}
use healthgrid.Models.Reports.{MonitorLease}
use healthgrid.Models.Settings.{NotificationSettings, default_settings}
use healthgrid.Background.{
  iso_week, maybe_send_weekly_report, History, cleaned_recently, cleanup_monitor_history,
}
use healthgrid.Background.Lease.{Attempt, attempts, Holds, attempts-exclusive}
use healthgrid.Background.Weekly.{maybe_send_weekly_report-once}
use healthgrid.Background.Cleanup.{Cleaned, Current, cleanup_monitor_history-Cleaned}
use healthgrid.Tests.Data.{alert}

abbrev lease : MonitorLease
lease = record { owner_id = "a"; lease_until = some 160 }

lease-Holds : Holds "a" 160 lease
lease-Holds = record { owned = refl; end = 160; ends = refl; late = omega arith }

-- The interval is changed from 30 to 20 and to 45 seconds.
abbrev calls : List Attempt
calls =
    record { owner_id = "b"; at = 110; interval = 30 }
    ∷ record { owner_id = "a"; at = 120; interval = 20 }
    ∷ record { owner_id = "b"; at = 150; interval = 45 }
    ∷ []

attempts-exclusive_example :
    (last : MonitorLease) × (attempts calls lease ≡ ok (map (λ a. "a" == a.owner_id) calls, last))
    × Holds "a" 160 last
attempts-exclusive_example = attempts-exclusive "a" 160 calls lease refl lease-Holds (
  record { before = omega arith; renews = refl },
  (
    record { before = omega arith; renews = refl },
    (record { before = omega arith; renews = refl }, tt),
  ),
)

abbrev weekly_settings : NotificationSettings
weekly_settings = record default_settings { weekly_report_enabled = true }

-- A sender that counts its reports.
abbrev count_report : ℕ → ℕ → Bool × ℕ
count_report now n = (true, n + 1)

-- Monday, 5 January 1970, 10:30 in IST, and two hours later
maybe_send_weekly_report-once_example :
    let (delivered, config', s') = maybe_send_weekly_report count_report 363600 weekly_settings 0 in
    (delivered ≡ true
      → iso_week 370800 ≡ iso_week 363600
      → maybe_send_weekly_report count_report 370800 config' s' ≡ (false, config', s'))
    × (delivered ≡ false → config' ≡ weekly_settings)
maybe_send_weekly_report-once_example =
    maybe_send_weekly_report-once count_report 363600 370800 weekly_settings 0

abbrev history : History
history = record {
  config = default_settings;
  alerts = record (alert 1 10 "10:20") { resolved_at = some 5 } ∷ alert 2 11 "11:20" ∷ [];
  long_queries = [];
  reports = [];
}

cleanup_monitor_history-Cleaned_example :
    let (counts, h') = cleanup_monitor_history 3000000 history in
    Cleaned 3000000 history h' counts
    × (cleaned_recently 3000000 history.config.last_cleanup_at ≡ false
        → Current 3000000 history.config h'
          × (3000600 < 3000000 + 24 * 3600 → cleanup_monitor_history 3000600 h' ≡ ((0, 0), h')))
cleanup_monitor_history-Cleaned_example = cleanup_monitor_history-Cleaned 3000000 3000600 history
