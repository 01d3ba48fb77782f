-- ===== src/Db/Registered.antt =====
-- Which database the connections of `get_connection` lead to.
use healthgrid.Prelude.{String, Bool, true, false, if◌then◌else◌, ◌≡◌, sym, ap}
use healthgrid.Results.{Exn, Result, ok, raise, connection_error}
use healthgrid.Models.Instances.{RdsInstance, is_mysql, is_mssql}
use healthgrid.Mfa.{MfaLibrary}
use healthgrid.Db.Connections.{
  Connection, Network, ssl_refusal, connect_with, open_connection, get_connection,
}
use healthgrid.Db.Shapes.{connected-ok}

-- Every connection that the call returns is to the database.
abbrev IsTo : String → Result Connection → Type 0
IsTo database res = (conn : Connection) → res ≡ ok conn → conn.database ≡ database

connect-IsTo : (net : Network) (c : Connection) → IsTo c.database (connect_with net c)
connect-IsTo net c conn e = ap (λ x. x.database) (sym (connected-ok c conn (net.connect c) e))

if-IsTo :
    (database : String) (b : Bool) (x y : Result Connection)
    → IsTo database x
    → IsTo database y
    → IsTo database (if b then x else y)
if-IsTo database true x y hx hy = hx
if-IsTo database false x y hx hy = hy

raise-IsTo : (database : String) (e : Exn) → IsTo database (raise e)
raise-IsTo database e conn h = cc

-- A connection of `get_connection` is to the registered database of the instance.
pub get_connection-database :
    (lib : MfaLibrary) (net : Network) (r : RdsInstance) (conn : Connection)
    → get_connection lib net r ≡ ok conn
    → conn.database ≡ r.db_name
unfolding get_connection open_connection
get_connection-database lib net r = if-IsTo r.db_name (is_mysql r) _ _ (connect-IsTo net _) (
    if-IsTo r.db_name (is_mssql r) _ _
      (if-IsTo r.db_name r.ssl_required (raise (connection_error ssl_refusal)) _
        (raise-IsTo r.db_name (connection_error ssl_refusal)) (connect-IsTo net _))
      (connect-IsTo net _))
