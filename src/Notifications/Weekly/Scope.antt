-- ===== src/Notifications/Weekly/Scope.antt =====
-- A weekly report on one instance holds incidents of that instance only.
use healthgrid.Prelude.{ℕ, true, Option, none, some, List, [], ◌∷◌, All, nat_eq, ◌==◌, ◌≡◌}
use healthgrid.Prelude.Tables.{select}
use healthgrid.Prelude.Tables.Rows.{All-p-select}
use healthgrid.Prelude.Tables.Sorted.{All-sorted}
use healthgrid.Models.Alerts.{LockAlert}
use healthgrid.Models.Instances.{RdsInstance}
use healthgrid.Access.{first}
use healthgrid.Notifications.Weekly.{
  Incident, with_instance, join_instances, of_scope, in_report, comes_before, weekly_alerts,
}

-- The incidents of a report, all of one instance where the report has one.
abbrev pub OfScope : Option ℕ → List Incident → Type 0
OfScope scope incidents = All (λ i. of_scope scope i.0 ≡ true) incidents

join-OfScope :
    (scope : Option ℕ) (instances : List RdsInstance) (alerts : List LockAlert)
    → All (λ a. of_scope scope a ≡ true) alerts
    → OfScope scope (join_instances instances alerts)
join-OfScope scope instances [] h = tt
join-OfScope scope instances (a ∷ rest) h =
    go (first (select (λ r. r.pk == a.instance_id) instances))
      (join-OfScope scope instances rest h.1)
  where
    go :
        (found : Option RdsInstance)
        → OfScope scope (join_instances instances rest)
        → OfScope scope (with_instance a found (join_instances instances rest))
    go none k = k
    go (some r) k = (h.0, k)

pub weekly_alerts-OfScope :
    (now : ℕ) (scope : Option ℕ) (instances : List RdsInstance) (alerts : List LockAlert)
    → OfScope scope (weekly_alerts now scope instances alerts)
unfolding weekly_alerts
weekly_alerts-OfScope now scope instances alerts =
    All-sorted (λ i. of_scope scope i.0 ≡ true) comes_before _
      (join-OfScope scope instances _
        (All-p-select (of_scope scope) (select (in_report now) alerts)))
