-- ===== src/Views/Registry/Removal.antt =====
-- Who can remove instances from the registry.
use healthgrid.Prelude.{
  ℕ, Bool, true, false, ◌&&◌, Option, none, some, List, [], ◌∷◌, ◌≡◌, refl, arith, nat_eq, ◌==◌,
}
use healthgrid.Prelude.Tables.{select}
use healthgrid.Results.{Exn, ok, permission_denied, not_found}
use healthgrid.Effects.{Exec, or_raise, ◌>>=◌, ◌>>◌}
use healthgrid.Models.Accounts.{AccessTables}
use healthgrid.Models.Audit.{remove_instance as removal}
use healthgrid.Models.Instances.{RdsInstance}
use healthgrid.Access.{first, accessible_instances, has_permission}
use healthgrid.Mfa.{MfaLibrary}
use healthgrid.Views.{Request, check_mfa, require_action_mfa, require_instance_access}
use healthgrid.Views.Unchanged.{Same, guard-Same, access-Same, bind-Same, mfa-Same, mfa-ok}
use healthgrid.Views.Registry.{State, get_instance}
use healthgrid.Views.Registry.Instances.{
  in_group, remove_if, remove_found, remove_instance, remove_all_if, remove_members,
  remove_instance_group,
}
use healthgrid.Views.Registry.Api.{
  get_object, checked_mfa, destroy_if, destroy_found, perform_destroy,
}

-- A lookup reads the state only.
found-Same :
    {A : Type 0} (o : Option RdsInstance) (e : Exn) (k : RdsInstance → Exec State A) (s : State)
    → ((r : RdsInstance) → Same (k r) s)
    → Same (or_raise o e >>= k) s
found-Same none e k s h = refl
found-Same (some r) e k s h = h r

module _ (lib : MfaLibrary) (t : AccessTables) (q : Request) where
  -- What a removal needs.
  abbrev pub may_remove : State → Bool
  may_remove s =
      q.user.is_active && (q.user.is_staff && (q.user.is_superuser && (check_mfa lib q s).0))

  module _ (s : State) (refused : may_remove s ≡ false) where
    -- The test of the administrator, and a check of the factor that nothing precedes.
    barred :
        (q.user.is_active && (q.user.is_staff && q.user.is_superuser)) ≡ true
        → (check_mfa lib q s).0 ≡ true
        → {A : Type 0} → A
    barred admin code = absurd (ground (arith, refused, admin, code))

    after_mfa :
        (r : RdsInstance) (k : Bool → Exec State (Unit {0}))
        → (q.user.is_active && (q.user.is_staff && q.user.is_superuser)) ≡ true
        → ((u : State) → Same (k false) u)
        → Same (require_action_mfa lib q r removal r.db_identifier >>= k) s
    after_mfa r k admin none_ =
        bind-Same (require_action_mfa lib q r removal r.db_identifier) k s
          (mfa-Same lib q r removal r.db_identifier s)
          (λ b e. go b e (require_action_mfa lib q r removal r.db_identifier s).1)
      where
        go :
            (b : Bool)
            → (require_action_mfa lib q r removal r.db_identifier s).0 ≡ ok b
            → (u : State) → Same (k b) u
        go false e u = none_ u
        go true e u = barred admin (mfa-ok lib q r removal r.db_identifier s e)

    remove_instance-refused : (pk : ℕ) → Same (remove_instance t q lib pk) s
    unfolding remove_instance remove_found
    remove_instance-refused pk =
        guard-Same (q.user.is_active && (q.user.is_staff && q.user.is_superuser)) permission_denied
          (get_instance pk >>= λ r.
            require_instance_access t q.user r true >> remove_found t q lib r)
          s
          (λ admin.
            found-Same (first (select (λ r. r.pk == pk) (s.target).rows)) not_found
              (λ r. require_instance_access t q.user r true >> remove_found t q lib r) s
              (λ r.
                access-Same t q.user r (remove_found t q lib r) s
                  (λ _ _. after_mfa r (remove_if t q lib r) admin (λ u. refl))))

    remove_members-refused :
        (members : List RdsInstance)
        → (q.user.is_active && (q.user.is_staff && q.user.is_superuser)) ≡ true
        → Same (remove_members t q lib members) s
    unfolding remove_members
    remove_members-refused [] admin = refl
    remove_members-refused (r ∷ rs) admin =
        after_mfa r (remove_all_if t q lib (r ∷ rs)) admin (λ u. refl)

    remove_instance_group-refused : (group : ℕ) → Same (remove_instance_group t q lib group) s
    unfolding remove_instance_group
    remove_instance_group-refused group =
        guard-Same (q.user.is_active && (q.user.is_staff && q.user.is_superuser)) permission_denied
          _ s
          (remove_members-refused (select (λ r. r.is_active && in_group group r) (s.target).rows))

    perform_destroy-refused : (pk : ℕ) → Same (perform_destroy lib t q pk) s
    unfolding perform_destroy destroy_found get_object check_mfa
    perform_destroy-refused pk =
        guard-Same (has_permission "DELETE" q.user) permission_denied
          (get_object lib t q pk >>= destroy_found lib t q) s
          (λ _.
            found-Same
              (first (select (λ r. r.pk == pk) (accessible_instances t q.user (s.target).rows)))
              not_found (destroy_found lib t q) s
              (λ r.
                guard-Same (q.user.is_active && (q.user.is_staff && q.user.is_superuser))
                  permission_denied (checked_mfa lib t q >>= destroy_if lib t q r) s
                  (λ admin. go r admin (check_mfa lib q s).0 refl)))
      where
        go :
            (r : RdsInstance)
            → (q.user.is_active && (q.user.is_staff && q.user.is_superuser)) ≡ true
            → (b : Bool) → (check_mfa lib q s).0 ≡ b
            → Same (destroy_if lib t q r b) (check_mfa lib q s).1
        go r admin true e = barred admin e
        go r admin false e = refl

    -- Whoever is no active Administrator, or gives no valid code of the second factor, removes no
    -- instance, neither one nor a group, neither by the forms nor by the API: the registry is left
    -- as it is.
    pub removals_refused :
        (pk group : ℕ)
        → Same (remove_instance t q lib pk) s
          × Same (remove_instance_group t q lib group) s
          × Same (perform_destroy lib t q pk) s
    removals_refused pk group = (
      remove_instance-refused pk,
      remove_instance_group-refused group,
      perform_destroy-refused pk,
    )
