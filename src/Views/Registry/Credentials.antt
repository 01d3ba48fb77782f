-- ===== src/Views/Registry/Credentials.antt =====
-- `update_control_credentials` and `update_query_runner_credentials` of monitor/views.py.
use healthgrid.Prelude.{
  ℕ, String, Bool, not, ◌&&◌, ◌||◌, is_blank, strip, string_eq, ◌==◌, if◌then◌else◌,
}
use healthgrid.Effects.{Exec, ◌>>◌}
use healthgrid.Models.Accounts.{AccessTables}
use healthgrid.Models.Instances.{RdsInstance}
use healthgrid.Mfa.{MfaLibrary, encrypt_password}
use healthgrid.Views.{Flash, Request, flash}
use healthgrid.Views.Registry.{State, save_fields, administered}

-- The three fields of either form: the switch, the username and the password.
pub record CredentialForm : Type 0 where
  pub enabled : Bool
  pub username : String
  pub password : String

-- The values that the handlers read; a form that is switched off has none.
abbrev pub posted_username : CredentialForm → String
posted_username form = if form.enabled then strip form.username else ""

abbrev pub posted_password : CredentialForm → String
posted_password form = if form.enabled then form.password else ""

-- The test for a password that is missing: none is stored that the new values could keep.
unfoldable pub lacks_control_password : RdsInstance → CredentialForm → Bool
lacks_control_password r form =
    form.enabled
    && (not (is_blank (posted_username form))
        && (is_blank (posted_password form)
            && (is_blank r.control_password_encrypted
                || (not r.lock_control_enabled
                    || not (posted_username form == r.control_username)))))

unfoldable pub lacks_runner_password : RdsInstance → CredentialForm → Bool
lacks_runner_password r form =
    form.enabled
    && (not (is_blank (posted_username form))
        && (is_blank (posted_password form)
            && (is_blank r.query_runner_password_encrypted
                || (not r.query_runner_enabled
                    || not (posted_username form == r.query_runner_username)))))

-- The encrypted password that is saved: a new one, the stored one, or none without a username.
abbrev pub kept_password : MfaLibrary → CredentialForm → String → String
kept_password lib form stored =
    if is_blank (posted_username form)
    then ""
    else if is_blank (posted_password form)
    then stored
    else encrypt_password lib (posted_password form)

module _ (lib : MfaLibrary) where
  -- The fields that are saved; `r` is the instance as it was read.
  unfoldable pub with_control : RdsInstance → CredentialForm → RdsInstance → RdsInstance
  unfolding encrypt_password
  with_control r form row = record row {
    lock_control_enabled = form.enabled;
    control_username = posted_username form;
    control_password_encrypted = kept_password lib form r.control_password_encrypted;
  }

  unfoldable pub with_runner : RdsInstance → CredentialForm → RdsInstance → RdsInstance
  unfolding encrypt_password
  with_runner r form row = record row {
    query_runner_enabled = form.enabled;
    query_runner_username = posted_username form;
    query_runner_password_encrypted = kept_password lib form r.query_runner_password_encrypted;
  }

  -- `update_control_credentials`, once the instance is found
  unfoldable pub save_control : CredentialForm → RdsInstance → Exec State (Unit {0})
  unfolding lacks_control_password with_control
  save_control form r =
      if lacks_control_password r form
      then flash (
          Flash.error
            "Enter the lock-control password, or clear the username to use the DB username.")
      else save_fields r.pk (with_control r form)
        >> flash (
            Flash.success
              "Lock-control credentials saved. They are enabled only when the Administrator switch is on.")

  -- `update_query_runner_credentials`, once the instance is found
  unfoldable pub save_runner : CredentialForm → RdsInstance → Exec State (Unit {0})
  unfolding lacks_runner_password with_runner
  save_runner form r =
      if form.enabled && is_blank (posted_username form)
      then flash
          (Flash.error "A dedicated query-runner username is required to enable this feature.")
      else if lacks_runner_password r form
      then flash (Flash.error "Enter the query-runner password.")
      else save_fields r.pk (with_runner r form)
        >> flash (
            Flash.success
              "Query-runner credentials saved. They are enabled only when the Administrator switch is on.")

  module _ (t : AccessTables) (q : Request) where
    unfoldable pub update_control_credentials : ℕ → CredentialForm → Exec State (Unit {0})
    unfolding administered save_control
    update_control_credentials pk form = administered t q pk (save_control form)

    unfoldable pub update_query_runner_credentials : ℕ → CredentialForm → Exec State (Unit {0})
    unfolding administered save_runner
    update_query_runner_credentials pk form = administered t q pk (save_runner form)
