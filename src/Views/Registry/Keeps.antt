-- ===== src/Views/Registry/Keeps.antt =====
-- Actions that keep a property of every row of the registry.
use healthgrid.Prelude.{ℕ, Bool, true, ◌&&◌, Option, none, some, List, [], ◌∷◌, All, nat_eq, ◌==◌}
use healthgrid.Prelude.Tables.{select}
use healthgrid.Prelude.Tables.Rows.{All-select, All-update_where}
use healthgrid.Results.{Exn, permission_denied, not_found}
use healthgrid.Effects.{Exec, gets, or_raise, ◌>>=◌, ◌>>◌}
use healthgrid.Models.Accounts.{AccessTables}
use healthgrid.Models.Instances.{RdsInstance}
use healthgrid.Access.{first}
use healthgrid.Views.{Request, require_instance_access}
use healthgrid.Models.Alerts.{Table}
use healthgrid.Views.Keeps.{Keeps, Any, Keeps-bind, Keeps-guard, Keeps-require_instance_access}
use healthgrid.Views.Registry.{State, get_instance, save_fields, administered}

module _ (P : RdsInstance → Type 0) where
  -- Every row of the registry has the property.
  abbrev pub Rows : Table RdsInstance → Type 0
  Rows t = All P t.rows

  abbrev OptionP : Option RdsInstance → Type 0
  OptionP none = Unit
  OptionP (some r) = P r

  first-OptionP : (rows : List RdsInstance) → All P rows → OptionP (first rows)
  first-OptionP [] h = tt
  first-OptionP (r ∷ rs) h = h.0

  pub Keeps-or_raise :
      (found : Option RdsInstance) (e : Exn) → OptionP found → Keeps Rows P (or_raise found e)
  Keeps-or_raise none e h = λ s g. (g, tt)
  Keeps-or_raise (some r) e h = λ s g. (g, h)

  -- A lookup among rows of the table finds a row with the property.
  pub Keeps-lookup :
      (p : RdsInstance → Bool) (rows : State → List RdsInstance) (e : Exn)
      → ((s : State) → Rows s.target → All P (rows s))
      → Keeps Rows P (gets rows >>= λ found. or_raise (first (select p found)) e)
  Keeps-lookup p rows e h s g =
      Keeps-or_raise (first (select p (rows s))) e
        (first-OptionP (select p (rows s)) (All-select P p (rows s) (h s g))) s g

  pub Keeps-get_instance : (pk : ℕ) → Keeps Rows P (get_instance pk)
  unfolding get_instance
  Keeps-get_instance pk s g =
      Keeps-or_raise (first (select (λ r. r.pk == pk) (s.target).rows)) not_found
        (first-OptionP _ (All-select P (λ r. r.pk == pk) (s.target).rows g)) s g

  pub Keeps-save_fields :
      (pk : ℕ) (write : RdsInstance → RdsInstance)
      → ((r : RdsInstance) → P r → P (write r))
      → Keeps Rows Any (save_fields pk write)
  Keeps-save_fields pk write keep s g =
      (All-update_where (λ r. r.pk == pk) write keep (s.target).rows g, tt)

  pub Keeps-administered :
      {A : Type 0} (Q : A → Type 0) (t : AccessTables) (q : Request) (pk : ℕ)
      (rest : RdsInstance → Exec State A)
      → ((r : RdsInstance) → P r → Keeps Rows Q (rest r))
      → Keeps Rows Q (administered t q pk rest)
  unfolding administered
  Keeps-administered Q t q pk rest keep =
      Keeps-guard Rows Q (q.user.is_active && (q.user.is_staff && q.user.is_superuser))
        permission_denied
        (get_instance pk >>= λ r. require_instance_access t q.user r true >> rest r)
        (Keeps-bind Rows P Q (get_instance pk)
          (λ r. require_instance_access t q.user r true >> rest r) (Keeps-get_instance pk)
          (λ r good. Keeps-require_instance_access Rows Q t q r true (rest r) (keep r good)))
