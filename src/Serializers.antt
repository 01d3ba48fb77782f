-- ===== src/Serializers.antt =====
-- `RDSInstanceSerializer` of monitor/serializers.py: the instance API creates and changes rows of
-- the registry.
pub mod Endpoint
pub mod Credentials
pub mod Restricted
pub mod Repointed
use healthgrid.Prelude.{
  given, ℕ, String, Bool, true, false, not, ◌&&◌, ◌||◌, Option, none, some, List, [], ◌∷◌, any,
  is_some, is_blank, string_eq, nat_eq, ◌==◌, if◌then◌else◌,
}
use healthgrid.Results.{Result, ok, raise, validation_error, ◌>>=◌}
use healthgrid.Models.Accounts.{User, AccessTables}
use healthgrid.Models.Instances.{RdsInstance, Engine, postgresql, mysql, mariadb, mssql}
use healthgrid.Access.{can_manage_instance_notifications}
use healthgrid.Mfa.{MfaLibrary, encrypt_password}

-- `validated_data`: the fields that the request gave.
pub record ValidatedData : Type 0 where
  pub name : Option String
  pub engine : Option Engine
  pub db_identifier : Option String
  pub region : Option String
  pub host : Option String
  pub port : Option ℕ
  pub db_name : Option String
  pub username : Option String
  pub password : Option String
  pub lock_control_enabled : Option Bool
  pub control_username : Option String
  pub control_password : Option String
  pub owner_teams_webhook_url : Option String
  pub exclude_from_global_notifications : Option Bool
  pub ssl_required : Option Bool
  pub is_active : Option Bool

-- `request and request.user.is_superuser`
abbrev pub is_superuser_of : Option User → Bool
is_superuser_of none = false
is_superuser_of (some u) = u.is_superuser

abbrev engine_code : Engine → ℕ
engine_code postgresql = 0
engine_code mysql = 1
engine_code mariadb = 2
engine_code mssql = 3

-- `field in validated_data and validated_data[field] != getattr(instance, field)`
abbrev pub differs : {A : Type 0} → (A → Bool) → Option A → Bool
differs same none = false
differs same (some a) = not (same a)

-- The test over `_CONNECTION_FIELDS`.
unfoldable pub connection_changed : RdsInstance → ValidatedData → Bool
connection_changed r d =
    differs (λ host. host == r.host) d.host
    || (differs (λ port. port == r.port) d.port
        || (differs (λ e. engine_code e == engine_code r.engine) d.engine
            || differs (λ u. u == r.username) d.username))

-- The loops that refuse the first field of a list that is given.
abbrev pub refuse_fields : List Bool → String → Result (Unit {0})
refuse_fields given_fields message =
    if any (λ b. b) given_fields then raise (validation_error message) else ok tt

-- The lock-control fields, and `_ADMIN_ONLY_UPDATE_FIELDS`: which are given.
abbrev pub control_fields : ValidatedData → List Bool
control_fields d =
    is_some d.lock_control_enabled ∷ is_some d.control_username ∷ is_some d.control_password ∷ []

abbrev pub admin_only_fields : ValidatedData → List Bool
admin_only_fields d =
    is_some d.host
    ∷ is_some d.port
    ∷ is_some d.engine
    ∷ is_some d.username
    ∷ is_some d.db_name
    ∷ is_some d.ssl_required
    ∷ is_some d.is_active
    ∷ is_some d.exclude_from_global_notifications
    ∷ []

abbrev pub may_write_webhook : AccessTables → Option User → RdsInstance → Bool
may_write_webhook t none r = false
may_write_webhook t (some u) r = can_manage_instance_notifications t u r

-- The checks of `update` for an account that is no Administrator.
unfoldable pub check_fields :
    AccessTables → Option User → RdsInstance → ValidatedData → Result (Unit {0})
check_fields t user r d = if is_superuser_of user then ok tt else (do
  _ ←
      refuse_fields (control_fields d)
        "Only an Administrator can configure lock-control credentials."
  _ ← refuse_fields (admin_only_fields d) "Only an Administrator can change this field."
  refuse_fields ((is_some d.owner_teams_webhook_url && not (may_write_webhook t user r)) ∷ [])
      "Notification-management permission is required for this instance.")

-- `setattr` for the fields that are left once the passwords are taken out.
unfoldable pub set_fields : ValidatedData → RdsInstance → RdsInstance
set_fields d r = record r {
  name = given d.name r.name;
  engine = given d.engine r.engine;
  db_identifier = given d.db_identifier r.db_identifier;
  region = given d.region r.region;
  host = given d.host r.host;
  port = given d.port r.port;
  db_name = given d.db_name r.db_name;
  username = given d.username r.username;
  lock_control_enabled = given d.lock_control_enabled r.lock_control_enabled;
  control_username = given d.control_username r.control_username;
  owner_teams_webhook_url = given d.owner_teams_webhook_url r.owner_teams_webhook_url;
  exclude_from_global_notifications =
      given d.exclude_from_global_notifications r.exclude_from_global_notifications;
  ssl_required = given d.ssl_required r.ssl_required;
  is_active = given d.is_active r.is_active;
}

-- `validated_data.pop` of the two passwords
abbrev pub without_passwords : ValidatedData → ValidatedData
without_passwords d = record d { password = none; control_password = none }

abbrev pub without_control : RdsInstance → RdsInstance
without_control r = record r {
  lock_control_enabled = false;
  control_username = "";
  control_password_encrypted = "";
}

-- `if connection_changed and "control_password" not in validated_data`
abbrev pub reset_control : Bool → ValidatedData → RdsInstance → RdsInstance
reset_control changed d r =
    if changed && not (is_some d.control_password) then without_control r else r

-- The branches on `instance.lock_control_enabled`.
unfoldable pub settle_control : ValidatedData → String → RdsInstance → Result RdsInstance
settle_control d control_password r =
    if not r.lock_control_enabled
    then ok (record r { control_username = ""; control_password_encrypted = "" })
    else if not (is_some d.control_username)
    then ok r
    else if not (is_blank r.control_username) && is_blank control_password
    then raise (validation_error "Required when control_username is set.")
    else ok
        (if is_blank r.control_username then record r { control_password_encrypted = "" } else r)

-- What `create` leaves of the lock-control fields.
unfoldable pub permitted_control : Option User → ValidatedData → ValidatedData
permitted_control user d =
    let mine = if is_superuser_of user then d else record d {
      lock_control_enabled = none;
      control_username = none;
      control_password = none;
    } in
    if given mine.lock_control_enabled false
    then mine
    else record mine { control_username = some ""; control_password = none }

-- `RDSInstance(**validated_data)`: a field that is not given has its default. The key and the
-- group are new.
unfoldable pub new_instance : ℕ → ℕ → Option ℕ → ValidatedData → RdsInstance
new_instance pk connection_group added_by d = record {
  pk = pk;
  name = given d.name "";
  connection_group = connection_group;
  engine = given d.engine postgresql;
  db_identifier = given d.db_identifier "";
  region = given d.region "us-east-1";
  host = given d.host "";
  port = given d.port 5432;
  db_name = given d.db_name "";
  username = given d.username "";
  lock_control_enabled = given d.lock_control_enabled false;
  control_username = given d.control_username "";
  owner_teams_webhook_url = given d.owner_teams_webhook_url "";
  exclude_from_global_notifications = given d.exclude_from_global_notifications false;
  password_encrypted = "";
  control_password_encrypted = "";
  query_runner_enabled = false;
  query_runner_username = "";
  query_runner_password_encrypted = "";
  ssl_required = given d.ssl_required true;
  is_active = given d.is_active true;
  added_by = added_by;
}

module _ (lib : MfaLibrary) where
  -- `if password: instance.set_password(password)`, and the same for the control password
  abbrev pub set_password_if : String → RdsInstance → RdsInstance
  set_password_if password r =
      if is_blank password
      then r
      else record r { password_encrypted = encrypt_password lib password }

  abbrev pub set_control_password_if : String → RdsInstance → RdsInstance
  set_control_password_if password r =
      if is_blank password
      then r
      else record r { control_password_encrypted = encrypt_password lib password }

  -- `update` after the checks: the row to save.
  unfoldable pub updated : RdsInstance → ValidatedData → Result RdsInstance
  unfolding connection_changed set_fields settle_control encrypt_password
  updated r d =
      let rest = without_passwords d in
      let control_password = given d.control_password "" in
      do
        settled ← settle_control rest control_password (
            set_password_if (given d.password "")
              (reset_control (connection_changed r d) rest (set_fields rest r)))
        ok (set_control_password_if control_password settled)

  unfoldable pub update :
      AccessTables → Option User → RdsInstance → ValidatedData → Result RdsInstance
  unfolding check_fields updated
  update t user r d = do _ ← check_fields t user r d; updated r d

  unfoldable pub create : ℕ → ℕ → Option ℕ → Option User → ValidatedData → Result RdsInstance
  unfolding permitted_control new_instance encrypt_password
  create pk connection_group added_by user d =
      let mine = permitted_control user d in
      let control_password = given mine.control_password "" in
      let r = new_instance pk connection_group added_by mine in
      if not (is_blank r.control_username) && is_blank control_password
      then raise (validation_error "Required when control_username is set.")
      else ok (
          set_control_password_if control_password
            (record r { password_encrypted = encrypt_password lib (given mine.password "") }))
