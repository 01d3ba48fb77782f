-- ===== src/Views/Registry/Instances.antt =====
-- `rename_instance`, `update_owner_webhook`, `remove_instance` and `remove_instance_group` of
-- monitor/views.py.
use healthgrid.Prelude.{
  ℕ, String, Bool, true, false, true, not, ◌&&◌, Option, none, some, List, [], ◌∷◌, ◌<>◌, map,
  contains, is_blank, strip, text_length, ltb, length, show, nat_eq, ◌==◌, if◌then◌else◌,
}
use healthgrid.Prelude.Tables.{select, update_where, delete_where}
use healthgrid.Results.{permission_denied, not_found}
use healthgrid.Effects.{Exec, pure, throw, gets, modify, guard, ◌>>=◌, ◌>>◌}
use healthgrid.Models.Accounts.{AccessTables}
use healthgrid.Models.Audit.{
  AuditAction, remove_instance as removal, rename_instance as renaming, AuditLog,
}
use healthgrid.Models.Instances.{RdsInstance}
use healthgrid.Access.{can_manage_instance_notifications}
use healthgrid.Mfa.{MfaLibrary}
use healthgrid.Views.{
  Flash, Request, flash, require_staff, require_administrator, require_instance_access, log_audit,
  require_action_mfa,
}
use healthgrid.Views.Registry.{State, get_instance, save_fields, administered, entry}

-- The rows of one group, in the order of the table.
abbrev pub in_group : ℕ → RdsInstance → Bool
in_group group r = r.connection_group == group

-- `queryset.delete()`, with what the database cascades to the tables of the state: incidents and
-- executions go, and audit entries lose the instance.
abbrev pub unless_deleted : List ℕ → Option ℕ → Option ℕ
unless_deleted pks none = none
unless_deleted pks (some pk) = if contains pk pks then none else some pk

unfoldable pub delete_instances : List ℕ → Exec State (Unit {0})
delete_instances pks = modify (λ s. record s {
  target = record (s.target) { rows = delete_where (λ r. contains r.pk pks) (s.target).rows };
  locks = record (s.locks) { rows = delete_where (λ a. contains a.instance_id pks) (s.locks).rows };
  audit_logs =
      map {A = AuditLog} (λ l. record l { instance_id = unless_deleted pks l.instance_id })
        s.audit_logs;
  executions = delete_where (λ e. contains e.instance_id pks) s.executions;
})

module _ (t : AccessTables) (q : Request) where
  -- The loop that logs one action for each instance.
  unfoldable pub log_each :
      AuditAction → (RdsInstance → String) → List RdsInstance → Exec State (Unit {0})
  log_each action detail [] = pure tt
  log_each action detail (r ∷ rs) =
      log_audit (entry q r action (detail r)) >> log_each action detail rs

  abbrev pub rename_group : RdsInstance → String → Exec State (Unit {0})
  rename_group r name = modify (λ s. record s {
    target = record (s.target) {
      rows =
          update_where (in_group r.connection_group) (λ row. record row { name = name })
            (s.target).rows;
    };
  })

  -- The transaction, with the rows of the group as they were.
  unfoldable pub rename_siblings : RdsInstance → String → List RdsInstance → Exec State (Unit {0})
  unfolding log_each
  rename_siblings r name siblings = do
    rename_group r name
    log_each renaming (λ _. r.name <> (" -> " <> name)) siblings
    flash (Flash.success ("Renamed to " <> (name <> ".")))

  -- `rename_instance`, once the instance is found
  unfoldable pub rename_found : String → RdsInstance → Exec State (Unit {0})
  unfolding rename_siblings
  rename_found posted r =
      if is_blank (strip posted)
      then flash (Flash.error "Name cannot be empty.")
      else gets (λ s. select (in_group r.connection_group) (s.target).rows)
        >>= rename_siblings r (strip posted)

  unfoldable pub rename_instance : ℕ → String → Exec State (Unit {0})
  unfolding get_instance rename_found
  rename_instance pk posted = do
    require_staff q.user
    r ← get_instance pk
    require_instance_access t q.user r true
    rename_found posted r

  -- The fields that `update_owner_webhook` saves: the exclusion only for an Administrator.
  abbrev pub with_webhook : String → Bool → RdsInstance → RdsInstance
  with_webhook url excluded row = record row {
    owner_teams_webhook_url = url;
    exclude_from_global_notifications =
        if q.user.is_superuser then excluded else row.exclude_from_global_notifications;
  }

  -- `update_owner_webhook`, once the instance is found; `URLValidator` is `valid_url`.
  unfoldable pub save_webhook :
      (String → Bool) → String → Bool → RdsInstance → Exec State (Unit {0})
  save_webhook valid_url posted excluded r =
      if ltb 2048 (text_length (strip posted))
      then flash (Flash.error "The Teams webhook URL must be 2048 characters or fewer.")
      else if not (is_blank (strip posted)) && not (valid_url (strip posted))
      then flash (Flash.error "Enter a valid Teams webhook URL or leave the field blank.")
      else save_fields r.pk (with_webhook (strip posted) excluded)
        >> flash (Flash.success "Owner Teams webhook and global notification setting saved.")

  unfoldable pub update_owner_webhook : (String → Bool) → ℕ → String → Bool → Exec State (Unit {0})
  unfolding get_instance save_webhook
  update_owner_webhook valid_url pk posted excluded = do
    require_staff q.user
    r ← get_instance pk
    guard (can_manage_instance_notifications t q.user r) permission_denied
    save_webhook valid_url posted excluded r

  module _ (lib : MfaLibrary) where
    -- `remove_instance` behind the second factor
    abbrev pub remove_if : RdsInstance → Bool → Exec State (Unit {0})
    remove_if r false = pure tt
    remove_if r true = do
      log_audit (entry q r removal r.db_identifier)
      delete_instances (r.pk ∷ [])
      flash (Flash.success "Instance removed.")

    unfoldable pub remove_found : RdsInstance → Exec State (Unit {0})
    unfolding delete_instances
    remove_found r = require_action_mfa lib q r removal r.db_identifier >>= remove_if r

    unfoldable pub remove_instance : ℕ → Exec State (Unit {0})
    unfolding administered remove_found
    remove_instance pk = administered t q pk remove_found

    -- `remove_instance_group` behind the second factor
    abbrev pub remove_all_if : List RdsInstance → Bool → Exec State (Unit {0})
    remove_all_if members false = pure tt
    remove_all_if members true = do
      log_each removal (λ r. r.db_identifier) members
      delete_instances (map (λ r. r.pk) members)
      flash (
          Flash.success
            ("Removed instance and " <> (show (length members) <> " database target(s).")))

    -- The check of the factor goes by the first instance of the group.
    unfoldable pub remove_members : List RdsInstance → Exec State (Unit {0})
    unfolding delete_instances log_each
    remove_members [] = throw not_found
    remove_members (r ∷ rest) =
        require_action_mfa lib q r removal r.db_identifier >>= remove_all_if (r ∷ rest)

    unfoldable pub remove_instance_group : ℕ → Exec State (Unit {0})
    unfolding remove_members
    remove_instance_group group = do
      require_administrator q.user
      members ← gets (λ s. select (λ r. r.is_active && in_group group r) (s.target).rows)
      remove_members members
