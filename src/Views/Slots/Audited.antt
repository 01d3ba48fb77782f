-- ===== src/Views/Slots/Audited.antt =====
-- The audit entry of a drop, and the exceptions that it handles.
use healthgrid.Prelude.{
  String, Bool, true, false, Option, none, some, ◌++◌, [], ◌∷◌, is_some, ◌≡◌, refl, arith,
  if◌then◌else◌, ◌||◌, ap, ◌∙◌,
}
use healthgrid.Results.{Exn, Result, ok, raise, connection_error, connection_message}
use healthgrid.Effects.{Exec}
use healthgrid.Models.Accounts.{AccessTables}
use healthgrid.Models.Audit.{AuditAction, AuditResult, success, failed}
use healthgrid.Models.Instances.{RdsInstance, is_mysql, is_mssql}
use healthgrid.Access.{can_view_instance, can_operate_instance, can_manage_replication_slot}
use healthgrid.Mfa.{MfaLibrary}
use healthgrid.Db.Connections.{
  Network, Connection, connect_with, connected, open_connection, get_connection, ssl_refusal,
}
use healthgrid.Db.Slots.{SlotServer, dropped, caught, drop_on}
use healthgrid.Db.Slots
use healthgrid.Views.{ViewState, Request, check_mfa, require_action_mfa}
use healthgrid.Views.Killing.{entry}
use healthgrid.Views.Slots.{report_failed, report_dropped, drop_if, drop_replication_slot}
use healthgrid.Views.Unchanged.{Same}
use healthgrid.Views.Slots.Guarded.{may_touch, drop}

-- The view handles what the call gave: a value, or an exception that has a connection message.
abbrev is_handled {ℓ} : {A : Type ℓ} → Result A → Bool
is_handled (ok a) = true
is_handled (raise e) = is_some (connection_message e)

connect_with-is_handled : (net : Network) (c : Connection) → is_handled (connect_with net c) ≡ true
connect_with-is_handled net c = go (net.connect c)
  where
    go : (r : Result (Unit {0})) → is_handled (connected c r) ≡ true
    go (ok u) = refl
    go (raise e) = refl

if-is_handled :
    (b : Bool) (x y : Result Connection)
    → is_handled x ≡ true
    → is_handled y ≡ true
    → is_handled (if b then x else y) ≡ true
if-is_handled true x y hx hy = hx
if-is_handled false x y hx hy = hy

-- `get_connection` raises nothing but its `ConnectionError`.
open_connection-is_handled :
    (net : Network) (r : RdsInstance) (username password program_name : String)
    → is_handled (open_connection net r username password program_name) ≡ true
unfolding open_connection
open_connection-is_handled net r username password program_name =
    if-is_handled (is_mysql r) _ _ (connect_with-is_handled net _) (
      if-is_handled (is_mssql r) _ _
        (if-is_handled r.ssl_required (raise (connection_error ssl_refusal)) _ refl
          (connect_with-is_handled net _))
        (connect_with-is_handled net _))

get_connection-is_handled :
    (lib : MfaLibrary) (net : Network) (r : RdsInstance)
    → is_handled (get_connection lib net r) ≡ true
unfolding get_connection
get_connection-is_handled lib net r = open_connection-is_handled net r _ _ "healthgrid-control"

module _ {S Row : Type 0} (server : SlotServer S Row) (exn_text : Exn → String) where
  dropped-is_handled : (r : Result (Unit {0})) → is_handled (dropped server exn_text r) ≡ true
  dropped-is_handled (ok u) = refl
  dropped-is_handled (raise e) = go (connection_message e) refl
    where
      go :
          (m : Option String)
          → connection_message e ≡ m
          → is_handled (caught server exn_text e m) ≡ true
      go none h = refl
      go (some message) h = ap is_some h

  drop_replication_slot-is_handled :
      (r : RdsInstance) (c : Result Connection) (slot_name : String) (s : S)
      → is_handled c ≡ true
      → is_handled (Slots.drop_replication_slot server exn_text r c slot_name s).0 ≡ true
  unfolding Slots.drop_replication_slot
  drop_replication_slot-is_handled r c slot_name s h = go (is_mysql r || is_mssql r) c h
    where
      go :
          (b : Bool) (c : Result Connection)
          → is_handled c ≡ true
          → is_handled
              (if b
                then (ok (some "Replication slots are only supported for PostgreSQL."), s)
                else drop_on server exn_text slot_name c s).0
            ≡ true
      go true c h = refl
      go false (ok conn) h = dropped-is_handled (server.drop_slot conn slot_name s).0
      go false (raise e) h = h

-- The result that the view writes for what the call gave.
abbrev result_of : Result (Option String) → AuditResult
result_of (ok none) = success
result_of (ok (some error)) = failed
result_of (raise e) = failed

module _ {S Row : Type 0} (lib : MfaLibrary) (net : Network) (server : SlotServer S Row)
    (exn_text : Exn → String) (t : AccessTables) (q : Request) where
  abbrev pub drop_view : RdsInstance → String → Exec (ViewState S) (Unit {0})
  drop_view r slot_name = drop_replication_slot lib net server exn_text t q (some r) slot_name

  -- What the call on the server gives.
  abbrev drop_outcome : RdsInstance → String → S → Result (Option String) × S
  drop_outcome r slot_name =
      Slots.drop_replication_slot server exn_text r (get_connection lib net r) slot_name

  -- The request returns, with one new audit entry that ends in `detail`.
  abbrev pub Audits :
      Exec (ViewState S) (Unit {0}) → RdsInstance → AuditResult → ViewState S → Type 0
  Audits m r result s =
      ((m s).0 ≡ ok tt)
      × ((detail : String) × ((m s).1.audit_logs
            ≡ s.audit_logs
              ++ entry q r AuditAction.drop_replication_slot none "" result detail ∷ []))

  report_failed-Audits :
      (r : RdsInstance) (slot_name : String) (e : Exn) (m : Option String) (s : ViewState S)
      → is_some m ≡ true
      → Audits
          (report_failed lib net server exn_text t q AuditAction.drop_replication_slot r slot_name e
            m)
          r
          failed
          s
        × Same
            (report_failed lib net server exn_text t q AuditAction.drop_replication_slot r slot_name
              e m)
            s
  report_failed-Audits r slot_name e none s h = cc
  report_failed-Audits r slot_name e (some message) s h = ((refl, (_, refl)), refl)

  report_dropped-Audits :
      (r : RdsInstance) (slot_name : String) (o : Result (Option String)) (s : ViewState S)
      → is_handled o ≡ true
      → Audits (report_dropped lib net server exn_text t q r slot_name o) r (result_of o) s
        × Same (report_dropped lib net server exn_text t q r slot_name o) s
  unfolding report_dropped
  report_dropped-Audits r slot_name (ok none) s h = ((refl, (_, refl)), refl)
  report_dropped-Audits r slot_name (ok (some error)) s h = ((refl, (_, refl)), refl)
  report_dropped-Audits r slot_name (raise e) s h =
      report_failed-Audits r slot_name e (connection_message e) s h

  -- Past the checks, the handler is the call and its report.
  drop_view-passed :
      (r : RdsInstance) (slot_name : String) (s : ViewState S)
      → may_touch lib net server exn_text t q drop r s ≡ true
      → drop_view r slot_name s
        ≡ drop_if lib net server exn_text t q slot_name r true (check_mfa lib q s).1
  unfolding drop_replication_slot require_action_mfa
  drop_view-passed r slot_name s h =
      let granted : can_manage_replication_slot t q.user "drop" ≡ true = ground (arith, h) in
      let view : can_view_instance t q.user r ≡ true = ground (arith, h) in
      let operate : can_operate_instance t q.user r ≡ true = ground (arith, h) in
      let verified : (check_mfa lib q s).0 ≡ true = ground (arith, h) in
      rw granted (rw view (rw operate (rw verified refl)))

  -- Past the checks, by what the call gives.
  drop_view-Audits :
      (r : RdsInstance) (slot_name : String) (s : ViewState S)
      → may_touch lib net server exn_text t q drop r s ≡ true
      → Audits (drop_view r slot_name) r (result_of (drop_outcome r slot_name s.target).0) s
        × ((drop_view r slot_name s).1.target ≡ (drop_outcome r slot_name s.target).1)
  unfolding check_mfa
  drop_view-Audits r slot_name s h =
      let outcome = drop_outcome r slot_name s.target in
      let after : ViewState S = record (check_mfa lib q s).1 { target = outcome.1 } in
      rw (drop_view-passed r slot_name s h) (
        report_dropped-Audits r slot_name outcome.0 after (
          drop_replication_slot-is_handled server exn_text r (get_connection lib net r) slot_name
            s.target (get_connection-is_handled lib net r)))

  -- What the audit entry should say of `pg_drop_replication_slot`.
  abbrev pub result_of_statement : Result (Unit {0}) → AuditResult
  result_of_statement (ok _) = success
  result_of_statement (raise e) = failed

  -- What a drop should leave: on PostgreSQL, with a connection, what the statement does; else
  -- nothing is dropped.
  abbrev pub expected_on : Result Connection → String → S → AuditResult × S
  expected_on (raise e) slot_name s = (failed, s)
  expected_on (ok conn) slot_name s =
      let (ran, s') = server.drop_slot conn slot_name s in (result_of_statement ran, s')

  abbrev pub expected : RdsInstance → String → S → AuditResult × S
  expected r slot_name s =
      if is_mysql r || is_mssql r
      then (failed, s)
      else expected_on (get_connection lib net r) slot_name s

  result_of-caught : (e : Exn) (m : Option String) → result_of (caught server exn_text e m) ≡ failed
  result_of-caught e none = refl
  result_of-caught e (some message) = refl

  result_of-drop_outcome :
      (r : RdsInstance) (slot_name : String) (s : S)
      → (result_of (drop_outcome r slot_name s).0 ≡ (expected r slot_name s).0)
        × ((drop_outcome r slot_name s).1 ≡ (expected r slot_name s).1)
  unfolding Slots.drop_replication_slot
  result_of-drop_outcome r slot_name s = go (is_mysql r || is_mssql r) (get_connection lib net r)
    where
      by_statement :
          (ran : Result (Unit {0}))
          → result_of (dropped server exn_text ran) ≡ result_of_statement ran
      by_statement (ok u) = refl
      by_statement (raise e) = result_of-caught e (connection_message e)

      go :
          (b : Bool) (c : Result Connection)
          → let outcome =
              if b
              then (ok (some "Replication slots are only supported for PostgreSQL."), s)
              else drop_on server exn_text slot_name c s in
            let wanted = if b then (failed, s) else expected_on c slot_name s in
            (result_of outcome.0 ≡ wanted.0) × (outcome.1 ≡ wanted.1)
      go true c = (refl, refl)
      go false (raise e) = (refl, refl)
      go false (ok conn) = (by_statement (server.drop_slot conn slot_name s).0, refl)

  -- A drop that passes the checks returns whatever the server does: an error of the connection or
  -- of the statement is handled. It leaves one new audit entry: of success where the instance is on
  -- PostgreSQL, the connection opened and `pg_drop_replication_slot` ran without an error, of
  -- failure in every other case. And what the server keeps of the slots is what that statement left,
  -- or, where it was never reached, what was there.
  pub drop_replication_slot-Audits :
      (r : RdsInstance) (slot_name : String) (s : ViewState S)
      → may_touch lib net server exn_text t q drop r s ≡ true
      → Audits (drop_view r slot_name) r (expected r slot_name s.target).0 s
        × ((drop_view r slot_name s).1.target ≡ (expected r slot_name s.target).1)
  drop_replication_slot-Audits r slot_name s h =
      let (audits, target) = drop_view-Audits r slot_name s h in
      let (result, left) = result_of-drop_outcome r slot_name s.target in
      (rw⁻¹ result audits, target ∙ left)
