-- ===== src/Views/Registry/Api.antt =====
-- `RDSInstanceViewSet` of monitor/views.py: the instance API over the registry.
use healthgrid.Prelude.{Bool, true, false, ℕ, suc, false, some, [], ◌∷◌, ◌++◌, nat_eq, ◌==◌}
use healthgrid.Prelude.Tables.{select}
use healthgrid.Results.{ok, permission_denied, not_found}
use healthgrid.Effects.{Exec, throw, lift, gets, modify, guard, or_raise, ◌>>=◌, ◌>>◌}
use healthgrid.Models.Accounts.{AccessTables}
use healthgrid.Models.Audit.{add_instance as addition, remove_instance as removal, AuditResult}
use healthgrid.Models.Instances.{RdsInstance}
use healthgrid.Access.{first, can_operate_instance, accessible_instances, has_permission}
use healthgrid.Mfa.{MfaLibrary}
use healthgrid.Serializers.{ValidatedData, create, update}
use healthgrid.Views.{Request, require_administrator, log_audit, check_mfa}
use healthgrid.Views.Registry.{State, save_fields, entry}
use healthgrid.Views.Registry.Instances.{delete_instances}

-- `instance.save()` of a new row
abbrev pub insert_instance : RdsInstance → Exec State (Unit {0})
insert_instance r = modify (λ s. record s {
  target = record (s.target) { rows = (s.target).rows ++ r ∷ []; next_pk = suc (s.target).next_pk };
})

module _ (lib : MfaLibrary) (t : AccessTables) (q : Request) where
  -- `get_object`, in `get_queryset`
  unfoldable pub get_object : ℕ → Exec State RdsInstance
  get_object pk = do
    visible ← gets (λ s. accessible_instances t q.user (s.target).rows)
    or_raise (first (select (λ r. r.pk == pk) visible)) not_found

  -- `perform_create`, with the row that the serializer built
  abbrev pub insert_created : RdsInstance → Exec State (Unit {0})
  insert_created r = insert_instance r >> log_audit (entry q r addition "")

  -- POST; `group` is the new UUID of the connection group.
  unfoldable pub perform_create : ℕ → ValidatedData → Exec State (Unit {0})
  perform_create group d = do
    guard (has_permission "POST" q.user) permission_denied
    pk ← gets (λ s. (s.target).next_pk)
    r ← lift (create lib pk group (some q.user.pk) (some q.user) d)
    insert_created r

  -- `perform_update`
  unfoldable pub update_found : ValidatedData → RdsInstance → Exec State (Unit {0})
  update_found d r = do
    guard (can_operate_instance t q.user r) permission_denied
    r' ← lift (update lib t (some q.user) r d)
    save_fields r.pk (λ row. r')

  -- PUT and PATCH
  unfoldable pub perform_update : ℕ → ValidatedData → Exec State (Unit {0})
  unfolding get_object update_found
  perform_update pk d = do
    guard (has_permission "PATCH" q.user) permission_denied
    r ← get_object pk
    update_found d r

  -- `perform_destroy` after the check of the code
  abbrev pub destroy_if : RdsInstance → Bool → Exec State (Unit {0})
  destroy_if r true = log_audit (entry q r removal r.db_identifier) >> delete_instances (r.pk ∷ [])
  destroy_if r false =
      log_audit
        (record (entry q r removal "MFA verification required") { result = AuditResult.failed })
      >> throw permission_denied

  abbrev pub checked_mfa : Exec State Bool
  checked_mfa s = let (b, s') = check_mfa lib q s in (ok b, s')

  unfoldable pub destroy_found : RdsInstance → Exec State (Unit {0})
  unfolding delete_instances
  destroy_found r = require_administrator q.user >> (checked_mfa >>= destroy_if r)

  -- DELETE
  unfoldable pub perform_destroy : ℕ → Exec State (Unit {0})
  unfolding get_object destroy_found
  perform_destroy pk = do
    guard (has_permission "DELETE" q.user) permission_denied
    r ← get_object pk
    destroy_found r
