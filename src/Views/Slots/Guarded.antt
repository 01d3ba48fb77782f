-- ===== src/Views/Slots/Guarded.antt =====
-- Who may touch the replication slots of a server.
use healthgrid.Prelude.{String, Bool, true, false, ◌&&◌, some, ◌≡◌, refl, arith}
use healthgrid.Results.{Exn, ok, permission_denied}
use healthgrid.Effects.{Exec, ◌>>◌}
use healthgrid.Models.Accounts.{AccessTables}
use healthgrid.Models.Audit.{AuditAction}
use healthgrid.Models.Instances.{RdsInstance}
use healthgrid.Access.{can_view_instance, can_operate_instance, can_manage_replication_slot}
use healthgrid.Mfa.{MfaLibrary}
use healthgrid.Db.Connections.{Network}
use healthgrid.Db.Slots.{SlotServer}
use healthgrid.Views.{ViewState, Request, require_instance_access, check_mfa, require_action_mfa}
use healthgrid.Views.Slots.{
  terminate_slot, drop_if, drop_checked, kill_replication_slot, drop_replication_slot,
}
use healthgrid.Views.Unchanged.{Same, guard-Same, access-Same, bind-Same, mfa-Same, mfa-ok}

-- The two requests.
pub data SlotRequest : Type 0 where
  terminate drop : SlotRequest

module _ {S Row : Type 0} (lib : MfaLibrary) (net : Network) (server : SlotServer S Row)
    (exn_text : Exn → String) (t : AccessTables) (q : Request) where
  abbrev pub handle : SlotRequest → RdsInstance → String → Exec (ViewState S) (Unit {0})
  handle terminate r slot_name =
      kill_replication_slot lib net server exn_text t q (some r) slot_name
  handle drop r slot_name = drop_replication_slot lib net server exn_text t q (some r) slot_name

  abbrev pub may_operate_slots : String → RdsInstance → Bool
  may_operate_slots action r =
      can_manage_replication_slot t q.user action
      && (can_view_instance t q.user r && can_operate_instance t q.user r)

  -- What the requests need: the grant for the action and an operator's role on the instance, and
  -- for a drop a valid code of the second factor with the request.
  abbrev pub may_touch : SlotRequest → RdsInstance → ViewState S → Bool
  may_touch terminate r s = may_operate_slots "terminate" r
  may_touch drop r s = may_operate_slots "drop" r && (check_mfa lib q s).0

  drop_checked-Same :
      (r : RdsInstance) (slot_name : String) (s : ViewState S)
      → (check_mfa lib q s).0 ≡ false
      → Same (drop_checked lib net server exn_text t q slot_name r) s
  drop_checked-Same r slot_name s unverified =
      bind-Same (require_action_mfa lib q r AuditAction.drop_replication_slot slot_name)
        (drop_if lib net server exn_text t q slot_name r) s
        (mfa-Same lib q r AuditAction.drop_replication_slot slot_name s) (go unverified)
    where
      check : Exec (ViewState S) Bool
      check = require_action_mfa lib q r AuditAction.drop_replication_slot slot_name

      go :
          (check_mfa lib q s).0 ≡ false
          → (passed : Bool) → (check s).0 ≡ ok passed
          → Same (drop_if lib net server exn_text t q slot_name r passed) (check s).1
      go unverified false e = refl
      go unverified true e =
          let verified = mfa-ok lib q r AuditAction.drop_replication_slot slot_name s e in
          absurd (ground (arith, verified, unverified))

  -- A request to terminate the backend of a replication slot, or to drop the slot, leaves the
  -- slots of the server untouched unless the user has the grant for that action and may operate the
  -- instance and, for a drop, a valid code of the second factor came with the request.
  pub slots_refused :
      (request : SlotRequest) (r : RdsInstance) (slot_name : String) (s : ViewState S)
      → may_touch request r s ≡ false
      → (handle request r slot_name s).1.target ≡ s.target
  unfolding kill_replication_slot drop_replication_slot
  slots_refused terminate r slot_name s refused =
      guard-Same (can_manage_replication_slot t q.user "terminate") permission_denied
        (require_instance_access t q.user r true
          >> terminate_slot lib net server exn_text t q slot_name r)
        s
        (λ granted.
          access-Same t q.user r (terminate_slot lib net server exn_text t q slot_name r) s
            (λ view operate. absurd (ground (arith, refused, granted, view, operate))))
  slots_refused drop r slot_name s refused =
      guard-Same (can_manage_replication_slot t q.user "drop") permission_denied
        (require_instance_access t q.user r true
          >> drop_checked lib net server exn_text t q slot_name r)
        s
        (λ granted.
          access-Same t q.user r (drop_checked lib net server exn_text t q slot_name r) s
            (λ view operate.
              drop_checked-Same r slot_name s (ground (arith, refused, granted, view, operate))))
