-- ===== src/Views/Registry/Reachable.antt =====
-- The registries that the handlers of monitor/views.py can build up, by whichever accounts.
use mathlib.Core.Path.{subst}
use healthgrid.Prelude.{ℕ, String, Bool, All, sym, ◌≡◌}
use healthgrid.Results.{Exn}
use healthgrid.Models.Accounts.{AccessTables}
use healthgrid.Models.Instances.{RdsInstance}
use healthgrid.Models.Credentials.{HasCredentials}
use healthgrid.Mfa.{MfaLibrary}
use healthgrid.Serializers.{ValidatedData}
use healthgrid.Serializers.Credentials.{Encrypts}
use healthgrid.Views.{Request}
use healthgrid.Views.Registry.{State}
use healthgrid.Views.Registry.Credentials.{
  CredentialForm, update_control_credentials, update_query_runner_credentials,
}
use healthgrid.Views.Registry.Instances.{
  rename_instance, update_owner_webhook, remove_instance, remove_instance_group,
}
use healthgrid.Views.Registry.Api.{perform_create, perform_update, perform_destroy}
use healthgrid.Views.Registry.Adding.{AddForm}
use healthgrid.Views.Registry.Addition.{add_instance}
use healthgrid.Views.Registry.Complete.{Keeps-control, Keeps-runner}
use healthgrid.Views.Registry.Kept.{Quiet-rename, Quiet-webhook, Quiet-remove, Quiet-remove_group}
use healthgrid.Views.Registry.Served.{Quiet-create, Quiet-update, Quiet-destroy}
use healthgrid.Views.Registry.Extended.{Quiet-add}

module _ (lib : MfaLibrary) where
  -- One request, whether it is answered or refused.
  pub data Step (t : AccessTables) (q : Request) (s u : State) : Type 0 where
    create :
        (group : ℕ) (d : ValidatedData) → u ≡ (perform_create lib t q group d s).1 → Step t q s u
    update : (pk : ℕ) (d : ValidatedData) → u ≡ (perform_update lib t q pk d s).1 → Step t q s u
    destroy : (pk : ℕ) → u ≡ (perform_destroy lib t q pk s).1 → Step t q s u
    add :
        (accepts : RdsInstance → Bool) (exn_text : Exn → String) (group : ℕ) (form : AddForm)
        → u ≡ (add_instance lib accepts exn_text t q group form s).1
        → Step t q s u
    rename : (pk : ℕ) (posted : String) → u ≡ (rename_instance t q pk posted s).1 → Step t q s u
    webhook :
        (valid_url : String → Bool) (pk : ℕ) (posted : String) (excluded : Bool)
        → u ≡ (update_owner_webhook t q valid_url pk posted excluded s).1
        → Step t q s u
    control :
        (pk : ℕ) (form : CredentialForm)
        → u ≡ (update_control_credentials lib t q pk form s).1
        → Step t q s u
    runner :
        (pk : ℕ) (form : CredentialForm)
        → u ≡ (update_query_runner_credentials lib t q pk form s).1
        → Step t q s u
    remove : (pk : ℕ) → u ≡ (remove_instance t q lib pk s).1 → Step t q s u
    remove_group : (group : ℕ) → u ≡ (remove_instance_group t q lib group s).1 → Step t q s u

  -- Any number of requests, each by its own account and under the grants of its time.
  pub data Reach (s : State) : State → Type 0 where
    here : Reach s s
    next : {u v : State} → Reach s u → (t : AccessTables) (q : Request) → Step t q u v → Reach s v

  abbrev pub AllComplete : State → Type 0
  AllComplete s = All HasCredentials (s.target).rows

  module _ (encrypts : Encrypts lib) where
    Step-AllComplete :
        (t : AccessTables) (q : Request) (s u : State)
        → Step t q s u
        → AllComplete s
        → AllComplete u
    Step-AllComplete t q s u (create group d e) h =
        subst AllComplete (sym e) (Quiet-create t q lib encrypts group d s h).0
    Step-AllComplete t q s u (update pk d e) h =
        subst AllComplete (sym e) (Quiet-update t q lib encrypts pk d s h).0
    Step-AllComplete t q s u (destroy pk e) h =
        subst AllComplete (sym e) (Quiet-destroy t q lib encrypts pk s h).0
    Step-AllComplete t q s u (add accepts exn_text group form e) h =
        subst AllComplete (sym e) (Quiet-add lib encrypts accepts exn_text t q group form s h).0
    Step-AllComplete t q s u (rename pk posted e) h =
        subst AllComplete (sym e) (Quiet-rename t q pk posted s h).0
    Step-AllComplete t q s u (webhook valid_url pk posted excluded e) h =
        subst AllComplete (sym e) (Quiet-webhook t q valid_url pk posted excluded s h).0
    Step-AllComplete t q s u (control pk form e) h =
        subst AllComplete (sym e) (Keeps-control lib encrypts t q pk form s h).0
    Step-AllComplete t q s u (runner pk form e) h =
        subst AllComplete (sym e) (Keeps-runner lib encrypts t q pk form s h).0
    Step-AllComplete t q s u (remove pk e) h =
        subst AllComplete (sym e) (Quiet-remove t q lib pk s h).0
    Step-AllComplete t q s u (remove_group group e) h =
        subst AllComplete (sym e) (Quiet-remove_group t q lib group s h).0

    -- From a registry whose credentials are complete, such as the empty one, no sequence of
    -- requests to the API and the forms, by whatever accounts, leads to an instance whose
    -- lock-control username is in use without a password, or whose query runner is switched on
    -- without a username and a password, if a ciphertext is never blank.
    pub Reach-AllComplete : {s u : State} → AllComplete s → Reach s u → AllComplete u
    Reach-AllComplete h here = h
    Reach-AllComplete h (next {u} {v} r t q step) =
        Step-AllComplete t q u v step (Reach-AllComplete h r)
