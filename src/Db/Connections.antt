-- ===== src/Db/Connections.antt =====
-- `get_connection` and `get_query_runner_connection`.
use healthgrid.Prelude.{
  ℕ, String, Bool, true, false, not, ◌&&◌, ◌||◌, is_blank, or_text, if◌then◌else◌,
}
use healthgrid.Results.{Exn, Result, ok, raise, connection_error, connection_message}
use healthgrid.Models.Instances.{RdsInstance, is_mysql, is_mssql}
use healthgrid.Mfa.{MfaLibrary, decrypt_password}

-- The driver that is called.
pub data Driver : Type 0 where
  pymysql pymssql psycopg2 : Driver

-- The arguments of a driver's `connect` that decide what the connection is and does. `tls` is the
-- `ssl` mapping of pymysql, or the `sslmode` of psycopg2 with its certificate.
pub record Connection : Type 0 where
  pub driver : Driver
  pub host : String
  pub port : ℕ
  pub database : String
  pub user : String
  pub password : String
  pub autocommit : Bool
  -- rows are mappings from column names
  pub dict_rows : Bool
  pub tls : String
  pub sslrootcert : String
  pub program_name : String

-- `settings.DB_SSL_MODE` and `settings.DB_SSL_ROOT_CERT`, and the drivers: whether a connection
-- comes about, or else the text of the exception.
pub record Network : Type 0 where
  pub ssl_mode : String
  pub ssl_root_cert : String
  pub connect : Connection → Result (Unit {0})

abbrev pub ssl_refusal : String
ssl_refusal =
    "MSSQL connections cannot honor 'SSL required' with the bundled driver. Uncheck SSL required for this instance to connect."

-- `raise ConnectionError(str(exc)) from exc`, where only the text of a `connection_error` is kept
abbrev pub as_connection_error : Exn → Exn
as_connection_error e = connection_error (or_text (connection_message e) "")

abbrev pub connected : Connection → Result (Unit {0}) → Result Connection
connected c (ok _) = ok c
connected c (raise e) = raise (as_connection_error e)

-- `settings.DB_SSL_ROOT_CERT` where TLS is asked for
abbrev pub root_cert : Network → RdsInstance → String
root_cert net r = if r.ssl_required then net.ssl_root_cert else ""

abbrev pub mysql_connection : Network → RdsInstance → String → String → String → Connection
mysql_connection net r username password program_name = record {
  driver = pymysql;
  host = r.host;
  port = r.port;
  database = r.db_name;
  user = username;
  password = password;
  autocommit = true;
  dict_rows = true;
  tls = if r.ssl_required then "ssl" else "";
  sslrootcert = root_cert net r;
  program_name = program_name;
}

abbrev pub mssql_connection : Network → RdsInstance → String → String → String → Connection
mssql_connection net r username password program_name = record {
  driver = pymssql;
  host = r.host;
  port = r.port;
  database = r.db_name;
  user = username;
  password = password;
  autocommit = true;
  dict_rows = true;
  tls = "";
  sslrootcert = "";
  program_name = program_name;
}

abbrev pub postgres_connection : Network → RdsInstance → String → String → String → Connection
postgres_connection net r username password program_name = record {
  driver = psycopg2;
  host = r.host;
  port = r.port;
  database = r.db_name;
  user = username;
  password = password;
  autocommit = false;
  dict_rows = false;
  tls = if r.ssl_required then net.ssl_mode else "prefer";
  sslrootcert = root_cert net r;
  program_name = program_name;
}

abbrev pub connect_with : Network → Connection → Result Connection
connect_with net c = connected c (net.connect c)

-- The three `connect` calls, which both functions make alike.
unfoldable pub open_connection :
    Network → RdsInstance → String → String → String → Result Connection
open_connection net r username password program_name =
    if is_mysql r
    then connect_with net (mysql_connection net r username password program_name)
    else if is_mssql r
    then if r.ssl_required
      then raise (connection_error ssl_refusal)
      else connect_with net (mssql_connection net r username password program_name)
    else connect_with net (postgres_connection net r username password program_name)

unfoldable pub uses_control_credentials : RdsInstance → Bool
uses_control_credentials r = r.lock_control_enabled && not (is_blank r.control_username)

unfoldable pub get_connection : MfaLibrary → Network → RdsInstance → Result Connection
unfolding open_connection uses_control_credentials decrypt_password
get_connection lib net r =
    open_connection net r (if uses_control_credentials r then r.control_username else r.username)
      (decrypt_password lib
        (if uses_control_credentials r then r.control_password_encrypted else r.password_encrypted))
      "healthgrid-control"

unfoldable pub get_query_runner_connection : MfaLibrary → Network → RdsInstance → Result Connection
unfolding open_connection decrypt_password
get_query_runner_connection lib net r =
    if not r.query_runner_enabled || is_blank r.query_runner_username
    then raise (connection_error "Query-runner credentials are not configured for this instance.")
    else open_connection net r r.query_runner_username
        (decrypt_password lib r.query_runner_password_encrypted) "healthgrid-query-runner"
