-- ===== src/Views/Registry/Served.antt =====
-- The instance API keeps the credentials of every instance complete.
use healthgrid.Prelude.{
  ℕ, Bool, true, false, not, ◌&&◌, ◌||◌, some, [], ◌∷◌, All, string_eq, nat_eq, ◌==◌, ◌≡◌, refl,
  any, Bool-cases, inl, inr,
}
use healthgrid.Prelude.Tables.{All-append}
use healthgrid.Prelude.Tables.Rows.{All-select}
use healthgrid.Results.{Post, Result, Result-cases, ok, raise, permission_denied, not_found}
use healthgrid.Effects.{Exec, gets, lift, ◌>>=◌}
use healthgrid.Models.Accounts.{AccessTables}
use healthgrid.Models.Audit.{remove_instance as removal}
use healthgrid.Models.Instances.{RdsInstance}
use healthgrid.Models.Credentials.{HasCredentials}
use healthgrid.Access.{
  is_scoped, of_user_on, accessible_instances, can_operate_instance, has_permission,
}
use healthgrid.Mfa.{MfaLibrary}
use healthgrid.Serializers.{ValidatedData, create, update, updated, check_fields}
use healthgrid.Serializers.Credentials.{Encrypts, create-HasCredentials, updated-HasCredentials}
use healthgrid.Views.{Request, log_audit, check_mfa}
use healthgrid.Views.Registry.{State, save_fields, entry}
use healthgrid.Views.Keeps.{Keeps, Any, Keeps-bind, Keeps-guard}
use healthgrid.Views.Registry.Keeps.{Keeps-lookup, Keeps-save_fields, Rows}
use healthgrid.Views.Registry.Instances.{delete_instances}
use healthgrid.Views.Registry.Api.{
  insert_instance, insert_created, update_found, destroy_if, checked_mfa, get_object,
  perform_create, perform_update, destroy_found, perform_destroy,
}
use healthgrid.Views.Registry.Kept.{Quiet, in_turn, Quiet-delete_instances}

module _ (t : AccessTables) (q : Request) where
  module _ (lib : MfaLibrary) (encrypts : Encrypts lib) where
    Keeps-get_object : (pk : ℕ) → Keeps (Rows HasCredentials) HasCredentials (get_object lib t q pk)
    unfolding get_object accessible_instances
    Keeps-get_object pk s h =
        Keeps-lookup HasCredentials (λ r. r.pk == pk)
          (λ s. accessible_instances t q.user (s.target).rows) not_found (λ s h. visible s h) s h
      where
        visible :
            (s : State)
            → Rows HasCredentials s.target
            → All HasCredentials (accessible_instances t q.user (s.target).rows)
        visible s h = elim (Bool-cases (q.user.is_superuser || not (is_scoped t q.user))) [
          | inl every ↦ rw every (All-select HasCredentials (λ r. r.is_active) (s.target).rows h)
          | inr granted ↦ rw granted (
              All-select HasCredentials (λ r. any (of_user_on q.user r) t.grants) _
                (All-select HasCredentials (λ r. r.is_active) (s.target).rows h))
        ]

    Keeps-lift :
        (m : Result RdsInstance)
        → Post HasCredentials m
        → Keeps (Rows HasCredentials) HasCredentials (lift m)
    Keeps-lift m p s h = (h, p)

    update-HasCredentials :
        (r : RdsInstance) (d : ValidatedData)
        → HasCredentials r
        → Post HasCredentials (update lib t (some q.user) r d)
    unfolding update
    update-HasCredentials r d h = elim (Result-cases (check_fields t (some q.user) r d)) [
      | inr (x, refused) ↦ rw refused tt
      | inl (u, passed) ↦ rw passed (go (updated lib r d) refl)
    ]
      where
        go : (res : Result RdsInstance) → updated lib r d ≡ res → Post HasCredentials res
        go (ok r') e = updated-HasCredentials lib encrypts r r' d h e
        go (raise x) e = tt

    Quiet-insert : (r : RdsInstance) → HasCredentials r → Quiet (insert_instance r)
    Quiet-insert r good s h = (All-append HasCredentials (s.target).rows (r ∷ []) h (good, tt), tt)

    pub Quiet-create : (group : ℕ) (d : ValidatedData) → Quiet (perform_create lib t q group d)
    unfolding perform_create
    Quiet-create group d =
        Keeps-guard (Rows HasCredentials) Any (has_permission "POST" q.user) permission_denied
          (gets (λ s. (s.target).next_pk) >>= rest)
          (in_turn (gets (λ s. (s.target).next_pk)) rest (λ s h. (h, tt))
            (λ pk.
              Keeps-bind (Rows HasCredentials) HasCredentials Any
                (lift (create lib pk group (some q.user.pk) (some q.user) d))
                (insert_created lib t q)
                (Keeps-lift _
                  (create-HasCredentials lib encrypts pk group (some q.user.pk) (some q.user) d))
                Quiet-insert))
      where
        rest : ℕ → Exec State (Unit {0})
        rest pk =
            lift (create lib pk group (some q.user.pk) (some q.user) d) >>= insert_created lib t q

    pub Quiet-update : (pk : ℕ) (d : ValidatedData) → Quiet (perform_update lib t q pk d)
    unfolding perform_update update_found
    Quiet-update pk d =
        Keeps-guard (Rows HasCredentials) Any (has_permission "PATCH" q.user) permission_denied
          (get_object lib t q pk >>= update_found lib t q d)
          (Keeps-bind (Rows HasCredentials) HasCredentials Any (get_object lib t q pk)
            (update_found lib t q d) (Keeps-get_object pk)
            (λ r good.
              Keeps-guard (Rows HasCredentials) Any (can_operate_instance t q.user r)
                permission_denied
                (lift (update lib t (some q.user) r d) >>= λ r'. save_fields r.pk (λ row. r'))
                (Keeps-bind (Rows HasCredentials) HasCredentials Any
                  (lift (update lib t (some q.user) r d)) (λ r'. save_fields r.pk (λ row. r'))
                  (Keeps-lift _ (update-HasCredentials r d good))
                  (λ r' good'. Keeps-save_fields HasCredentials r.pk (λ row. r') (λ _ _. good')))))

    Quiet-checked_mfa : Quiet (checked_mfa lib t q)
    unfolding check_mfa
    Quiet-checked_mfa s h = (h, tt)

    Quiet-destroy_if : (r : RdsInstance) (b : Bool) → Quiet (destroy_if lib t q r b)
    Quiet-destroy_if r false = λ s h. (h, tt)
    Quiet-destroy_if r true =
        in_turn (log_audit (entry q r removal r.db_identifier)) (λ _. delete_instances (r.pk ∷ []))
          (λ s h. (h, tt)) (λ _. Quiet-delete_instances t q (r.pk ∷ []))

    pub Quiet-destroy : (pk : ℕ) → Quiet (perform_destroy lib t q pk)
    unfolding perform_destroy destroy_found
    Quiet-destroy pk =
        Keeps-guard (Rows HasCredentials) Any (has_permission "DELETE" q.user) permission_denied
          (get_object lib t q pk >>= destroy_found lib t q)
          (Keeps-bind (Rows HasCredentials) HasCredentials Any (get_object lib t q pk)
            (destroy_found lib t q) (Keeps-get_object pk)
            (λ r _.
              Keeps-guard (Rows HasCredentials) Any
                (q.user.is_active && (q.user.is_staff && q.user.is_superuser)) permission_denied
                (checked_mfa lib t q >>= destroy_if lib t q r)
                (in_turn (checked_mfa lib t q) (destroy_if lib t q r) Quiet-checked_mfa
                  (Quiet-destroy_if r))))
