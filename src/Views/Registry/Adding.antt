-- ===== src/Views/Registry/Adding.antt =====
-- `add_instance` of monitor/views.py: the form that registers the databases of a new server, or
-- further databases of one that is registered.
use healthgrid.Prelude.{
  ℕ, String, Bool, true, false, not, ◌&&◌, Option, none, some, List, [], ◌∷◌, ◌++◌, map, contains,
  insert_key, sorted, leb_text, is_blank, strip, split_at, string_eq, nat_eq, if◌then◌else◌,
}
use healthgrid.Prelude.Tables.{select}
use healthgrid.Results.{Result, ok, raise, key_error, value_error, ◌>>=◌}
use healthgrid.Models.Instances.{RdsInstance, Engine, postgresql, mysql, mariadb, mssql}
use healthgrid.Mfa.{MfaLibrary, encrypt_password, decrypt_password}
use healthgrid.Views.{Request}

-- The posted fields. One that `request.POST[…]` reads may be missing; a port is blank, a number or
-- another text; the engine is one of the choices.
pub data PostedPort : Type 0 where
  blank : PostedPort
  number : ℕ → PostedPort
  garbage : PostedPort

pub record AddForm : Type 0 where
  pub extend_instance : Option ℕ
  pub name : Option String
  pub engine : Engine
  pub db_identifier : Option String
  pub region : String
  pub host : Option String
  pub port : PostedPort
  pub database_names : String
  pub username : Option String
  pub password : Option String
  pub lock_control_enabled : Bool
  pub control_username : String
  pub control_password : String
  pub owner_teams_webhook_url : String
  pub exclude_from_global_notifications : Bool
  pub ssl_required : Bool

-- `_default_port_for_engine`
unfoldable pub default_port_for_engine : Engine → ℕ
default_port_for_engine mysql = 3306
default_port_for_engine mariadb = 3306
default_port_for_engine mssql = 1433
default_port_for_engine postgresql = 5432

-- The lists one after another.
abbrev concat : List (List String) → List String
concat [] = []
concat (xs ∷ rest) = xs ++ concat rest

-- `value.replace("\n", ",").split(",")`, stripped, without blanks
unfoldable pub split_names : String → List String
unfolding strip
split_names text =
    select (λ name. not (is_blank name)) (map strip (concat (map (split_at 44) (split_at 10 text))))

-- `set(names)`, in the order in which `sorted` does not look
abbrev distinct : List String → List String
distinct [] = []
distinct (x ∷ xs) = insert_key x (distinct xs)

-- `sorted(set(names) & existing)`
unfoldable pub duplicates_of : List String → List String → List String
unfolding sorted
duplicates_of names existing =
    sorted leb_text (distinct (select (λ name. contains name existing) names))

-- The lock-control values: those of the extended instance, or the posted ones.
abbrev pub lock_control_of : Request → AddForm → Option RdsInstance → Bool
lock_control_of q form (some source) = source.lock_control_enabled
lock_control_of q form none = q.user.is_superuser && form.lock_control_enabled

abbrev pub control_username_of : AddForm → Bool → Option RdsInstance → String
control_username_of form enabled (some source) = source.control_username
control_username_of form enabled none = if enabled then strip form.control_username else ""

abbrev pub posted_control_password : AddForm → Bool → String
posted_control_password form enabled = if enabled then form.control_password else ""

abbrev pub control_password_of : MfaLibrary → AddForm → Bool → Option RdsInstance → String
control_password_of lib form enabled none = posted_control_password form enabled
control_password_of lib form enabled (some source) =
    if is_blank source.control_password_encrypted
    then posted_control_password form enabled
    else decrypt_password lib source.control_password_encrypted

-- `request.POST["…"]`
abbrev field : Option String → Result String
field none = raise key_error
field (some s) = ok s

-- The port that is saved, which has to be a number.
abbrev port_of : Engine → PostedPort → Result ℕ
port_of engine blank = ok (default_port_for_engine engine)
port_of engine (number n) = ok n
port_of engine garbage = raise value_error

-- The posted fields that have to be there, and the port.
pub record PostedFields : Type 0 where
  pub name : String
  pub db_identifier : String
  pub host : String
  pub port : ℕ
  pub username : String
  pub password : String

unfoldable pub posted_fields : AddForm → Result PostedFields
unfolding strip default_port_for_engine
posted_fields form = do
  name ← field form.name
  db_identifier ← field form.db_identifier
  host ← field form.host
  username ← field form.username
  password ← field form.password
  port ← port_of form.engine form.port
  ok (record {
    name = strip name;
    db_identifier = strip db_identifier;
    host = strip host;
    port = port;
    username = strip username;
    password = password;
  })

-- `common`, with the group and the encrypted password: a row but for its key and its database.
unfoldable pub common_row :
    MfaLibrary → Request → AddForm → Option RdsInstance → ℕ → Bool → String → Result RdsInstance
unfolding posted_fields strip encrypt_password decrypt_password
common_row lib q form (some source) group enabled control_username = ok (record source {
  lock_control_enabled = enabled;
  control_username = control_username;
  password_encrypted = encrypt_password lib (decrypt_password lib source.password_encrypted);
  control_password_encrypted = "";
  query_runner_enabled = false;
  query_runner_username = "";
  query_runner_password_encrypted = "";
  is_active = true;
})
common_row lib q form none group enabled control_username = posted_fields form >>= λ posted.
    ok (record {
      pk = 0;
      name = posted.name;
      connection_group = group;
      engine = form.engine;
      db_identifier = posted.db_identifier;
      region = strip form.region;
      host = posted.host;
      port = posted.port;
      db_name = "";
      username = posted.username;
      lock_control_enabled = enabled;
      control_username = control_username;
      owner_teams_webhook_url = strip form.owner_teams_webhook_url;
      exclude_from_global_notifications =
          q.user.is_superuser && form.exclude_from_global_notifications;
      password_encrypted = encrypt_password lib posted.password;
      control_password_encrypted = "";
      query_runner_enabled = false;
      query_runner_username = "";
      query_runner_password_encrypted = "";
      ssl_required = form.ssl_required;
      is_active = true;
      added_by = some q.user.pk;
    })
