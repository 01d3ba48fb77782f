-- ===== src/Tests/Slots.antt =====
-- Replication slots: a drop by an Administrator, and one without the grant.
use healthgrid.Prelude.{String, true, false, none, some, List, [], ◌∷◌, ◌≡◌, refl, string_eq, ◌==◌}
use healthgrid.Prelude.Tables.{delete_where}
use healthgrid.Results.{ok}
use healthgrid.Access.{
  can_view_instance, can_operate_instance, can_manage_replication_slot, instance_role,
}
use healthgrid.Mfa.{
  new_profile, empty_session, require_mfa_for_action, verify_code, verify_totp, decrypt_password,
}
use healthgrid.Db.Slots.{SlotServer}
use healthgrid.Views.{ViewState, check_mfa}
use healthgrid.Views.Slots.Guarded.{handle, may_touch, drop, slots_refused}
use healthgrid.Views.Slots.Audited.{Audits, drop_view, expected, drop_replication_slot-Audits}
use healthgrid.Tests.Data.{orders}
use healthgrid.Tests.Servers.{crypto, net, no_grants, request}
use healthgrid.Tests.Registry.{administrator}

-- The slots by name, none of which has a backend.
abbrev slot_server : SlotServer (List String) String
slot_server = record {
  slot_rows = λ conn s. ok s;
  active_pid = λ conn name s. ok none;
  terminate_backend = λ conn pid s. (ok false, s);
  drop_slot = λ conn name s. (ok tt, delete_where (λ x. x == name) s);
}

abbrev state : ViewState (List String)
state = record {
  target = "archive" ∷ "standby" ∷ [];
  locks = record { rows = []; next_pk = 1 };
  audit_logs = [];
  executions = [];
  next_execution = 1;
  session = empty_session;
  profile = some (record (new_profile 1) { secret_encrypted = "s"; enabled = true });
  messages = [];
}

has_no_grant :
    may_touch crypto net slot_server (λ _. "") no_grants request drop orders state ≡ false
unfolding can_manage_replication_slot
has_no_grant = refl

slots_refused_example :
    (handle crypto net slot_server (λ _. "") no_grants request drop orders "standby" state).1.target
    ≡ "archive" ∷ "standby" ∷ []
slots_refused_example =
    slots_refused crypto net slot_server (λ _. "") no_grants request drop orders "standby" state
      has_no_grant

may_drop :
    may_touch crypto net slot_server (λ _. "") no_grants administrator drop orders state ≡ true
unfolding can_manage_replication_slot can_view_instance can_operate_instance instance_role check_mfa
    require_mfa_for_action verify_code verify_totp decrypt_password
may_drop = refl

drop_replication_slot-Audits_example :
    let wanted =
      expected crypto net slot_server
        (λ _. "")
        no_grants
        administrator
        orders
        "standby"
        (state.target) in
    let view =
      drop_view crypto net slot_server (λ _. "") no_grants administrator orders "standby" in
    Audits crypto net slot_server (λ _. "") no_grants administrator view orders wanted.0 state
    × ((view state).1.target ≡ wanted.1)
drop_replication_slot-Audits_example =
    drop_replication_slot-Audits crypto net slot_server (λ _. "") no_grants administrator orders
      "standby" state may_drop
