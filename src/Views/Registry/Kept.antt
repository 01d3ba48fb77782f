-- ===== src/Views/Registry/Kept.antt =====
-- The handlers that rename, redirect, remove, create and change instances keep the credentials of
-- every instance complete.
use healthgrid.Prelude.{
  ℕ, String, Bool, true, false, not, ◌&&◌, List, [], ◌∷◌, is_blank, strip, string_eq, nat_eq, ltb,
  text_length, map, contains, Bool-cases, inl, inr, ◌<>◌, show, length,
}
use healthgrid.Prelude.Tables.{select}
use healthgrid.Prelude.Tables.Rows.{All-select, All-update_where}
use healthgrid.Results.{permission_denied}
use healthgrid.Effects.{Exec, gets, guard, ◌>>=◌, ◌>>◌}
use healthgrid.Models.Accounts.{AccessTables}
use healthgrid.Models.Audit.{AuditAction, remove_instance as removal, rename_instance as renaming}
use healthgrid.Models.Instances.{RdsInstance}
use healthgrid.Models.Credentials.{HasCredentials}
use healthgrid.Access.{can_manage_instance_notifications}
use healthgrid.Mfa.{MfaLibrary}
use healthgrid.Views.{
  Flash, Request, flash, log_audit, check_mfa, require_action_mfa, require_instance_access,
}
use healthgrid.Views.Registry.{State, get_instance, entry}
use healthgrid.Views.Keeps.{
  Keeps, Any, Keeps-if, Keeps-bind, Keeps-guard, Keeps-require_instance_access,
}
use healthgrid.Views.Registry.Keeps.{
  Keeps-get_instance, Keeps-save_fields, Keeps-administered, Rows,
}
use healthgrid.Views.Registry.Instances.{
  in_group, delete_instances, log_each, rename_group, rename_siblings, rename_found,
  rename_instance, with_webhook, save_webhook, update_owner_webhook, remove_if, remove_all_if,
  remove_found, remove_instance, remove_members, remove_instance_group,
}

abbrev pub Quiet : {A : Type 0} → Exec State A → Type 0
Quiet m = Keeps (Rows HasCredentials) Any m

-- Two steps of which the second takes nothing from the first.
pub in_turn :
    {A B : Type 0} (m : Exec State A) (f : A → Exec State B)
    → Quiet m
    → ((a : A) → Quiet (f a))
    → Quiet (m >>= f)
in_turn m f hm hf = Keeps-bind (Rows HasCredentials) Any Any m f hm (λ a _. hf a)

-- The columns of the two roles are untouched.
with_name :
    (name : String) (r : RdsInstance) → HasCredentials r → HasCredentials (record r { name = name })
with_name name r h = record { control = h.control; control_off = h.control_off; runner = h.runner }

module _ (t : AccessTables) (q : Request) where
  pub Quiet-log_each :
      (action : AuditAction) (detail : RdsInstance → String) (rs : List RdsInstance)
      → Quiet (log_each t q action detail rs)
  unfolding log_each
  Quiet-log_each action detail [] = λ s h. (h, tt)
  Quiet-log_each action detail (r ∷ rs) =
      in_turn (log_audit (entry q r action (detail r))) (λ _. log_each t q action detail rs)
        (λ s h. (h, tt)) (λ _. Quiet-log_each action detail rs)

  pub Quiet-delete_instances : (pks : List ℕ) → Quiet (delete_instances pks)
  unfolding delete_instances
  Quiet-delete_instances pks s h =
      (All-select HasCredentials (λ r. not (contains r.pk pks)) (s.target).rows h, tt)

  -- What a handler of one instance begins with, where the account need not be an administrator.
  Quiet-with_instance :
      (b : Bool) (pk : ℕ) (rest : RdsInstance → Exec State (Unit {0}))
      → ((r : RdsInstance) → HasCredentials r → Quiet (rest r))
      → Quiet (guard b permission_denied >> (get_instance pk >>= rest))
  Quiet-with_instance b pk rest keep =
      Keeps-guard (Rows HasCredentials) Any b permission_denied (get_instance pk >>= rest) (
        Keeps-bind (Rows HasCredentials) HasCredentials Any (get_instance pk) rest
          (Keeps-get_instance HasCredentials pk) keep)

  Quiet-rename_siblings :
      (r : RdsInstance) (name : String) (siblings : List RdsInstance)
      → Quiet (rename_siblings t q r name siblings)
  unfolding rename_siblings
  Quiet-rename_siblings r name siblings =
      in_turn (rename_group t q r name)
        (λ _.
          log_each t q renaming (λ _. r.name <> (" -> " <> name)) siblings
          >> flash (Flash.success ("Renamed to " <> (name <> "."))))
        (λ s h. (
          All-update_where (in_group r.connection_group) (λ row. record row { name = name })
              (with_name name) (s.target).rows h,
          tt,
        ))
        (λ _.
          in_turn (log_each t q renaming (λ _. r.name <> (" -> " <> name)) siblings)
            (λ _. flash (Flash.success ("Renamed to " <> (name <> "."))))
            (Quiet-log_each renaming (λ _. r.name <> (" -> " <> name)) siblings) (λ _ s h. (h, tt)))

  pub Quiet-rename : (pk : ℕ) (posted : String) → Quiet (rename_instance t q pk posted)
  unfolding rename_instance rename_found
  Quiet-rename pk posted =
      Quiet-with_instance q.user.is_staff pk
        (λ r. require_instance_access t q.user r true >> rename_found t q posted r)
        (λ r _.
          Keeps-require_instance_access (Rows HasCredentials) Any t q r true
            (rename_found t q posted r)
            (Keeps-if (Rows HasCredentials) Any (is_blank (strip posted)) _ _ (λ _ s h. (h, tt))
              (λ _.
                in_turn (gets (λ s. select (in_group r.connection_group) (s.target).rows))
                  (rename_siblings t q r (strip posted)) (λ s h. (h, tt))
                  (Quiet-rename_siblings r (strip posted)))))

  pub Quiet-webhook :
      (valid_url : String → Bool) (pk : ℕ) (posted : String) (excluded : Bool)
      → Quiet (update_owner_webhook t q valid_url pk posted excluded)
  unfolding update_owner_webhook save_webhook
  Quiet-webhook valid_url pk posted excluded =
      Quiet-with_instance q.user.is_staff pk
        (λ r.
          guard (can_manage_instance_notifications t q.user r) permission_denied
          >> save_webhook t q valid_url posted excluded r)
        (λ r _.
          Keeps-guard (Rows HasCredentials) Any (can_manage_instance_notifications t q.user r)
            permission_denied (save_webhook t q valid_url posted excluded r)
            (Keeps-if (Rows HasCredentials) Any (ltb 2048 (text_length (strip posted))) _ _
              (λ _ s h. (h, tt))
              (λ _.
                Keeps-if (Rows HasCredentials) Any
                  (not (is_blank (strip posted)) && not (valid_url (strip posted))) _ _
                  (λ _ s h. (h, tt))
                  (λ _.
                    Keeps-save_fields HasCredentials r.pk (with_webhook t q (strip posted) excluded)
                      (λ row h. record {
                        control = h.control;
                        control_off = h.control_off;
                        runner = h.runner;
                      })))))

  module _ (lib : MfaLibrary) where
    pub Quiet-mfa :
        (r : RdsInstance) (action : AuditAction) (detail : String)
        → Quiet (require_action_mfa lib q r action detail)
    unfolding require_action_mfa check_mfa
    Quiet-mfa r action detail s h = elim (Bool-cases (check_mfa lib q s).0) [
      | inl passed ↦ rw passed (h, tt)
      | inr refused ↦ rw refused (h, tt)
    ]

    Quiet-remove_if : (r : RdsInstance) (b : Bool) → Quiet (remove_if t q lib r b)
    Quiet-remove_if r false = λ s h. (h, tt)
    Quiet-remove_if r true =
        in_turn (log_audit (entry q r removal r.db_identifier))
          (λ _. delete_instances (r.pk ∷ []) >> flash (Flash.success "Instance removed."))
          (λ s h. (h, tt))
          (λ _.
            in_turn (delete_instances (r.pk ∷ [])) (λ _. flash (Flash.success "Instance removed."))
              (Quiet-delete_instances (r.pk ∷ [])) (λ _ s h. (h, tt)))

    pub Quiet-remove : (pk : ℕ) → Quiet (remove_instance t q lib pk)
    unfolding remove_instance remove_found
    Quiet-remove pk = Keeps-administered HasCredentials Any t q pk (remove_found t q lib) (λ r _.
        in_turn (require_action_mfa lib q r removal r.db_identifier) (remove_if t q lib r)
          (Quiet-mfa r removal r.db_identifier) (Quiet-remove_if r))

    Quiet-remove_all_if : (rs : List RdsInstance) (b : Bool) → Quiet (remove_all_if t q lib rs b)
    Quiet-remove_all_if rs false = λ s h. (h, tt)
    Quiet-remove_all_if rs true =
        in_turn (log_each t q removal (λ r. r.db_identifier) rs)
          (λ _. delete_instances (map (λ r. r.pk) rs) >> done)
          (Quiet-log_each removal (λ r. r.db_identifier) rs)
          (λ _.
            in_turn (delete_instances (map (λ r. r.pk) rs)) (λ _. done)
              (Quiet-delete_instances (map (λ r. r.pk) rs)) (λ _ s h. (h, tt)))
      where
        done : Exec State (Unit {0})
        done = flash (
            Flash.success ("Removed instance and " <> (show (length rs) <> " database target(s).")))

    Quiet-remove_members : (rs : List RdsInstance) → Quiet (remove_members t q lib rs)
    unfolding remove_members
    Quiet-remove_members [] = λ s h. (h, tt)
    Quiet-remove_members (r ∷ rs) =
        in_turn (require_action_mfa lib q r removal r.db_identifier)
          (remove_all_if t q lib (r ∷ rs)) (Quiet-mfa r removal r.db_identifier)
          (Quiet-remove_all_if (r ∷ rs))

    pub Quiet-remove_group : (group : ℕ) → Quiet (remove_instance_group t q lib group)
    unfolding remove_instance_group
    Quiet-remove_group group =
        Keeps-guard (Rows HasCredentials) Any
          (q.user.is_active && (q.user.is_staff && q.user.is_superuser)) permission_denied _
          (in_turn (gets (λ s. select (λ r. r.is_active && in_group group r) (s.target).rows))
            (remove_members t q lib) (λ s h. (h, tt)) Quiet-remove_members)
