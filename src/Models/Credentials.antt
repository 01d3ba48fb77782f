-- ===== src/Models/Credentials.antt =====
-- What the columns of `RDSInstance` for the two dedicated roles owe each other.
use healthgrid.Prelude.{true, not, ◌&&◌, ◌||◌, ◌≡◌, is_blank}
use healthgrid.Models.Instances.{RdsInstance}

-- A lock-control username that is in use has a password, and one that is switched off is blank; a
-- query runner that is switched on has both.
pub record HasCredentials (r : RdsInstance) : Type 0 where
  pub control :
      (not r.lock_control_enabled
        || (is_blank r.control_username || not (is_blank r.control_password_encrypted)))
      ≡ true
  pub control_off : (r.lock_control_enabled || is_blank r.control_username) ≡ true
  pub runner :
      (not r.query_runner_enabled
        || (not (is_blank r.query_runner_username)
            && not (is_blank r.query_runner_password_encrypted)))
      ≡ true
