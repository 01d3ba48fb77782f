-- ===== src/Db/Shapes.antt =====
-- Which connections commit by themselves and give rows as mappings: those of MySQL, MariaDB and SQL
-- Server.
use healthgrid.Prelude.{
  String, Bool, true, false, not, ◌||◌, is_blank, if◌then◌else◌, ◌≡◌, refl, sym, ap, ◌∙◌,
}
use healthgrid.Results.{Exn, Result, ok, raise, connection_error}
use healthgrid.Models.Instances.{RdsInstance, is_mysql, is_mssql}
use healthgrid.Mfa.{MfaLibrary, decrypt_password}
use healthgrid.Db.Connections.{
  Connection, Network, ssl_refusal, connect_with, mysql_connection, mssql_connection,
  postgres_connection, connected, open_connection, get_query_runner_connection, get_connection,
  uses_control_credentials,
}

pub connected-ok :
    (c conn : Connection) (res : Result (Unit {0})) → connected c res ≡ ok conn → c ≡ conn
connected-ok c conn (ok _) e = ap (λ r. connection_of c r) e
  where
    connection_of : Connection → Result Connection → Connection
    connection_of default (ok x) = x
    connection_of default (raise x) = default
connected-ok c conn (raise x) e = cc

-- Every connection that the call returns commits by itself and gives rows as mappings, or none does.
abbrev pub IsShaped : Bool → Result Connection → Type 0
IsShaped b res = (conn : Connection) → res ≡ ok conn → (conn.autocommit ≡ b) × (conn.dict_rows ≡ b)

connect-IsShaped :
    (b : Bool) (net : Network) (c : Connection)
    → c.autocommit ≡ b
    → c.dict_rows ≡ b
    → IsShaped b (connect_with net c)
connect-IsShaped b net c auto rows conn e =
    let same = sym (connected-ok c conn (net.connect c) e) in
    (ap (λ x. x.autocommit) same ∙ auto, ap (λ x. x.dict_rows) same ∙ rows)

if-IsShaped :
    (b c : Bool) (x y : Result Connection)
    → IsShaped true x
    → IsShaped c y
    → IsShaped (b || c) (if b then x else y)
if-IsShaped true c x y hx hy = hx
if-IsShaped false c x y hx hy = hy

refused-IsShaped :
    (b c : Bool) (e : Exn) (y : Result Connection)
    → IsShaped c y
    → IsShaped c (if b then raise e else y)
refused-IsShaped true c e y hy conn h = cc
refused-IsShaped false c e y hy conn h = hy conn h

open_connection-IsShaped :
    (net : Network) (r : RdsInstance) (username password program_name : String)
    → IsShaped
        (is_mysql r || (is_mssql r || false))
        (open_connection net r username password program_name)
unfolding open_connection
open_connection-IsShaped net r username password program_name =
    let postgres = connect_with net (postgres_connection net r username password program_name) in
    let mssql = connect_with net (mssql_connection net r username password program_name) in
    let mysql = connect_with net (mysql_connection net r username password program_name) in
    let checked : Result Connection =
      if r.ssl_required then raise (connection_error ssl_refusal) else mssql in
    if-IsShaped (is_mysql r) (is_mssql r || false) mysql (if is_mssql r then checked else postgres)
      (connect-IsShaped true net (mysql_connection net r username password program_name) refl refl)
      (if-IsShaped (is_mssql r) false checked postgres
        (refused-IsShaped r.ssl_required true (connection_error ssl_refusal) mssql (
          connect-IsShaped true net (mssql_connection net r username password program_name) refl
            refl))
        (connect-IsShaped false net (postgres_connection net r username password program_name) refl
          refl))

-- The connections of the query runner commit by themselves, but for PostgreSQL.
pub query_runner-IsShaped :
    (crypto : MfaLibrary) (net : Network) (r : RdsInstance)
    → IsShaped (is_mysql r || (is_mssql r || false)) (get_query_runner_connection crypto net r)
unfolding get_query_runner_connection
query_runner-IsShaped crypto net r =
    refused-IsShaped (not r.query_runner_enabled || is_blank r.query_runner_username)
      (is_mysql r || (is_mssql r || false))
      (connection_error "Query-runner credentials are not configured for this instance.")
      (open_connection net r r.query_runner_username
        (decrypt_password crypto r.query_runner_password_encrypted) "healthgrid-query-runner")
      (open_connection-IsShaped net r r.query_runner_username
        (decrypt_password crypto r.query_runner_password_encrypted) "healthgrid-query-runner")

-- The control connections of `get_connection` likewise.
pub control-IsShaped :
    (crypto : MfaLibrary) (net : Network) (r : RdsInstance)
    → IsShaped (is_mysql r || (is_mssql r || false)) (get_connection crypto net r)
unfolding get_connection
control-IsShaped crypto net r =
    open_connection-IsShaped net r
      (if uses_control_credentials r then r.control_username else r.username)
      (decrypt_password crypto
        (if uses_control_credentials r then r.control_password_encrypted else r.password_encrypted))
      "healthgrid-control"
