-- ===== src/Views/Registry/Complete.antt =====
-- Every handler of the registry keeps the credentials of every instance complete.
use healthgrid.Prelude.{
  ℕ, String, Bool, true, false, ◌&&◌, ◌||◌, is_blank, strip, string_eq, nat_eq, ◌≡◌, refl, arith,
  if◌then◌else◌,
}
use healthgrid.Effects.{Exec}
use healthgrid.Models.Accounts.{AccessTables}
use healthgrid.Models.Instances.{RdsInstance}
use healthgrid.Models.Credentials.{HasCredentials}
use healthgrid.Mfa.{MfaLibrary, encrypt_password}
use healthgrid.Serializers.Credentials.{Encrypts}
use healthgrid.Views.{Request}
use healthgrid.Views.Registry.{State}
use healthgrid.Views.Keeps.{Keeps, Any, Keeps-if}
use healthgrid.Views.Registry.Keeps.{Keeps-save_fields, Keeps-administered, Rows}
use healthgrid.Views.Registry.Credentials.{
  CredentialForm, posted_username, posted_password, lacks_control_password, lacks_runner_password,
  with_control, with_runner, save_control, save_runner, update_control_credentials,
  update_query_runner_credentials,
}

-- A form that is switched off posts no username.
pub blank_off : (on : Bool) (u : String) → (on || is_blank (if on then u else "")) ≡ true
blank_off true u = refl
blank_off false u = refl

module _ (lib : MfaLibrary) (encrypts : Encrypts lib) where
  with_control-HasCredentials :
      (r row : RdsInstance) (form : CredentialForm)
      → lacks_control_password r form ≡ false
      → HasCredentials row
      → HasCredentials (with_control lib r form row)
  unfolding with_control lacks_control_password encrypt_password
  with_control-HasCredentials r row form fits h = record {
    control = ground (arith, encrypts (posted_password form));
    control_off = blank_off form.enabled (strip form.username);
    runner = h.runner;
  }

  with_runner-HasCredentials :
      (r row : RdsInstance) (form : CredentialForm)
      → (form.enabled && is_blank (posted_username form)) ≡ false
      → lacks_runner_password r form ≡ false
      → HasCredentials row
      → HasCredentials (with_runner lib r form row)
  unfolding with_runner lacks_runner_password encrypt_password
  with_runner-HasCredentials r row form named fits h = record {
    control = h.control;
    control_off = h.control_off;
    runner = ground (arith, encrypts (posted_password form));
  }

  module _ (t : AccessTables) (q : Request) where
    abbrev Quiet : {A : Type 0} → Exec State A → Type 0
    Quiet m = Keeps (Rows HasCredentials) Any m

    pub Keeps-control :
        (pk : ℕ) (form : CredentialForm) → Quiet (update_control_credentials lib t q pk form)
    unfolding update_control_credentials save_control
    Keeps-control pk form =
        Keeps-administered HasCredentials Any t q pk (save_control lib form) (λ r good.
          Keeps-if (Rows HasCredentials) Any (lacks_control_password r form) _ _ (λ _ s h. (h, tt))
            (λ fits.
              Keeps-save_fields HasCredentials r.pk _
                (λ row. with_control-HasCredentials r row form fits)))

    pub Keeps-runner :
        (pk : ℕ) (form : CredentialForm) → Quiet (update_query_runner_credentials lib t q pk form)
    unfolding update_query_runner_credentials save_runner
    Keeps-runner pk form =
        Keeps-administered HasCredentials Any t q pk (save_runner lib form) (λ r good.
          Keeps-if (Rows HasCredentials) Any (form.enabled && is_blank (posted_username form)) _ _
            (λ _ s h. (h, tt))
            (λ named.
              Keeps-if (Rows HasCredentials) Any (lacks_runner_password r form) _ _
                (λ _ s h. (h, tt))
                (λ fits.
                  Keeps-save_fields HasCredentials r.pk _
                    (λ row. with_runner-HasCredentials r row form named fits))))
