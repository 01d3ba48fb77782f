-- ===== src/Views/Grants/Scope.antt =====
-- A change of query-runner access stays on its instance.
use healthgrid.Prelude.{
  ℕ, String, Bool, true, false, ◌&&◌, Option, none, some, List, [], ◌∷◌, ◌++◌, All, any, given,
  strip, is_blank, nat_eq, string_eq, ◌==◌, ◌≡◌, refl, ◌∙◌, arith, if◌then◌else◌,
}
use healthgrid.Prelude.Tables.{select, delete_where}
use healthgrid.Prelude.Tables.Rows.{All-p-select}
use healthgrid.Results.{permission_denied, not_found}
use healthgrid.Effects.{Exec, or_raise, ◌>>=◌}
use healthgrid.Models.Accounts.{User, QueryRunnerGrant}
use healthgrid.Models.Instances.{RdsInstance}
use healthgrid.Access.{first, can_run_queries}
use healthgrid.Views.{Request}
use healthgrid.Views.Keeps.{Keeps, Any, Keeps-if, Keeps-guard, Keeps-require_instance_access}
use healthgrid.Views.Grants.{
  GrantTables, State, QueryGrantForm, is_grant_of, with_new_grant, with_grant, set_grants,
  revoke_grant, give_grant, give_to, give_named, grant_access, change_grants, on_instance,
  query_runner_grant,
}

any-added :
    (p : QueryRunnerGrant → Bool) (gs : List QueryRunnerGrant) (g : QueryRunnerGrant)
    → p g ≡ false
    → any p (gs ++ g ∷ []) ≡ any p gs
any-added p [] g e = ground (arith, e)
any-added p (h ∷ gs) g e = ground (arith, any-added p gs g e)

-- The accounts of one instance are read, grants of another one change.
module _ (user_id other : ℕ) (b : Bool) where
  abbrev MayRun : GrantTables → Type 0
  MayRun d = any (is_grant_of user_id other) d.tables.query_grants ≡ b

  abbrev Quiet : Exec State (Unit {0}) → Type 0
  Quiet m = Keeps MayRun Any m

  module _ (r : RdsInstance) (elsewhere : (r.pk == other) ≡ false) where
    any-revoked :
        (id : ℕ) (gs : List QueryRunnerGrant)
        → any
            (is_grant_of user_id other)
            (delete_where (λ g. g.pk == id && g.instance_id == r.pk) gs)
          ≡ any (is_grant_of user_id other) gs
    any-revoked id [] = refl
    any-revoked id (g ∷ gs) = ground (arith, elsewhere, any-revoked id gs)

    with_grant-MayRun :
        (target by : ℕ) (d : GrantTables) → MayRun d → MayRun (with_grant target r.pk by d)
    unfolding with_grant
    with_grant-MayRun target by d h = go (any (is_grant_of target r.pk) d.tables.query_grants)
      where
        go : (there : Bool) → MayRun (if there then d else with_new_grant target r.pk by d)
        go true = h
        go false =
            any-added (is_grant_of user_id other) d.tables.query_grants _
              (ground (arith, elsewhere))
            ∙ h

    revoke_grant-Quiet : (id : Option ℕ) → Quiet (revoke_grant r id)
    unfolding revoke_grant
    revoke_grant-Quiet none = λ s h. (h, tt)
    revoke_grant-Quiet (some id) = λ s h.
        let after : State = record s {
          target = set_grants (delete_where (λ g. g.pk == id && g.instance_id == r.pk)) s.target;
        } in
        Keeps-if MayRun Any
          (any (λ g. g.pk == id && g.instance_id == r.pk) ((s.target).tables).query_grants) _ _
          (λ _ s h. (h, tt)) (λ _ s h. (h, tt)) after
          (any-revoked id s.target.tables.query_grants ∙ h)

    give_grant-Quiet : (q : Request) (target : User) → Quiet (give_grant q r target)
    give_grant-Quiet q target s h = (with_grant-MayRun target.pk q.user.pk s.target h, tt)

    give_to-Quiet :
        (q : Request) (username : String) (found : Option User) → Quiet (give_to q r username found)
    give_to-Quiet q username none = λ s h. (h, tt)
    give_to-Quiet q username (some target) =
        Keeps-if MayRun Any target.is_superuser _ (give_grant q r target) (λ _ s h. (h, tt))
          (λ _. give_grant-Quiet q target)

    grant_access-Quiet : (q : Request) (username : String) → Quiet (grant_access q r username)
    unfolding grant_access
    grant_access-Quiet q username =
        Keeps-if MayRun Any (is_blank username) _ (give_named q r username) (λ _ s h. (h, tt))
          (λ _ s h.
            give_to-Quiet q username
              (first (select (λ u. u.username == username) ((s.target).tables).users)) s h)

    on_instance-Quiet : (q : Request) (form : QueryGrantForm) → Quiet (on_instance q form r)
    on_instance-Quiet q form s h =
        Keeps-require_instance_access MayRun Any (s.target).tables q r true (change_grants q form r)
          (Keeps-if MayRun Any (given form.action "grant" == "revoke") _ _
            (λ _. revoke_grant-Quiet form.grant_id)
            (λ _. grant_access-Quiet q (strip form.username)))
          s h

  abbrev Elsewhere : ℕ → Option RdsInstance → Type 0
  Elsewhere pk none = Unit {0}
  Elsewhere pk (some r) = (r.pk == other) ≡ false

  found-Elsewhere :
      (pk : ℕ) (instances : List RdsInstance)
      → (pk == other) ≡ false
      → Elsewhere pk (first (select (λ r. r.pk == pk) instances))
  found-Elsewhere pk instances elsewhere =
      go (select (λ r. r.pk == pk) instances) (All-p-select (λ r. r.pk == pk) instances)
    where
      go :
          (found : List RdsInstance)
          → All (λ r. (r.pk == pk) ≡ true) found
          → Elsewhere pk (first found)
      go [] h = tt
      go (r ∷ rs) h = ground (arith, h.0, elsewhere)

  handler-Quiet :
      (q : Request) (pk : ℕ) (form : QueryGrantForm)
      → (pk == other) ≡ false
      → Quiet (query_runner_grant q pk form)
  unfolding query_runner_grant
  handler-Quiet q pk form elsewhere =
      Keeps-guard MayRun Any (q.user.is_active && (q.user.is_staff && q.user.is_superuser))
        permission_denied _
        (λ s h.
          go (first (select (λ r. r.pk == pk) (s.target).instances))
            (found-Elsewhere pk (s.target).instances elsewhere) s h)
    where
      go :
          (found : Option RdsInstance)
          → Elsewhere pk found
          → Quiet (or_raise found not_found >>= on_instance q form)
      go none e = λ s h. (h, tt)
      go (some r) e = on_instance-Quiet r e q form

-- Whoever posts whatever to `query_runner_grant` of one instance, who may run queries on another
-- instance stays as it was.
pub query_runner_grant_others :
    (q : Request) (pk : ℕ) (form : QueryGrantForm) (u : User) (r : RdsInstance) (s : State)
    → (pk == r.pk) ≡ false
    → can_run_queries (query_runner_grant q pk form s).1.target.tables u r
      ≡ can_run_queries s.target.tables u r
unfolding can_run_queries
query_runner_grant_others q pk form u r s elsewhere =
    let kept = (handler-Quiet u.pk r.pk _ q pk form elsewhere s refl).0 in rw kept refl
