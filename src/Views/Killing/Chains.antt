-- ===== src/Views/Killing/Chains.antt =====
-- When a request to kill several sessions can touch the monitored server.
use healthgrid.Prelude.{
  ℕ, String, Bool, true, false, not, ◌&&◌, ◌||◌, some, List, is_empty, nat_eq, ◌≡◌, refl, ap, ◌∙◌,
  arith, ◌<>◌,
}
use healthgrid.Results.{ok, permission_denied}
use healthgrid.Effects.{pure, ◌>>=◌, ◌>>◌}
use healthgrid.Models.Accounts.{AccessTables}
use healthgrid.Models.Audit.{AuditAction}
use healthgrid.Models.Instances.{RdsInstance}
use healthgrid.Access.{can_view_instance, can_operate_instance}
use healthgrid.Mfa.{MfaLibrary}
use healthgrid.Db.Kills.{Server}
use healthgrid.Views.{
  Flash, ViewState, Request, flash, require_instance_access, check_mfa, require_action_mfa,
  show_pids,
}
use healthgrid.Views.Killing.{
  Upstream, chain_check, try_kills, kill_chain_impl, mfa_check, after_mfa, kill_chosen,
  kill_chain_pids, chain_action, with_pids,
}
use healthgrid.Views.Unchanged.{
  Same, guard-Same, access-Same, bind-Same, bind-ok, if-Same, mfa-Same, mfa-ok,
}
use healthgrid.Views.Killing.Guards.{are_locked, lock_check-Same, lock_check-ok}

module _ (lib : MfaLibrary) (t : AccessTables) (q : Request) (up : Upstream) where
  chain_check-Same :
      (r : RdsInstance) (action : AuditAction) (pids : List ℕ) (lock_only require_mfa : Bool)
      (s : ViewState Server)
      → Same (chain_check lib t q up r action pids lock_only require_mfa) s
  unfolding chain_check mfa_check
  chain_check-Same r action pids lock_only require_mfa s =
      bind-Same (mfa_check lib t q up r action pids require_mfa)
        (after_mfa lib t q up pids lock_only) s
        (if-Same require_mfa (require_action_mfa lib q r action ("pids=" <> show_pids pids))
          (pure true) s (λ _. mfa-Same lib q r action ("pids=" <> show_pids pids) s) (λ _. refl))
        (λ verified e. go verified lock_only (mfa_check lib t q up r action pids require_mfa s).1)
    where
      go :
          (verified only : Bool) (s : ViewState Server)
          → Same (after_mfa lib t q up pids only verified) s
      go false only s = refl
      go true false s = refl
      go true true s = lock_check-Same lib t q up pids s

  chain_check-ok :
      (r : RdsInstance) (action : AuditAction) (pids : List ℕ) (lock_only require_mfa : Bool)
      (s : ViewState Server)
      → (chain_check lib t q up r action pids lock_only require_mfa s).0 ≡ ok true
      → ((not require_mfa || (check_mfa lib q s).0) ≡ true)
        × ((not lock_only || are_locked lib t q up pids up.fetched) ≡ true)
  unfolding chain_check mfa_check
  chain_check-ok r action pids lock_only require_mfa s e =
      let (verified, passed, rest) =
        bind-ok (mfa_check lib t q up r action pids require_mfa)
          (after_mfa lib t q up pids lock_only) s true e in
      let (yes_, locked) =
        after verified lock_only (mfa_check lib t q up r action pids require_mfa s).1 rest in
      (code require_mfa (passed ∙ ap ok yes_), locked)
    where
      after :
          (verified only : Bool) (s : ViewState Server)
          → (after_mfa lib t q up pids only verified s).0 ≡ ok true
          → (verified ≡ true) × ((not only || are_locked lib t q up pids up.fetched) ≡ true)
      after false only s e = cc
      after true false s e = (refl, refl)
      after true true s e = (refl, lock_check-ok lib t q up pids s e)

      code :
          (require : Bool)
          → (mfa_check lib t q up r action pids require s).0 ≡ ok true
          → (not require || (check_mfa lib q s).0) ≡ true
      code false e = refl
      code true e = mfa-ok lib q r action ("pids=" <> show_pids pids) s e

  -- What a kill of several pids needs.
  abbrev pub may_kill_chain : RdsInstance → List ℕ → Bool → Bool → ViewState Server → Bool
  may_kill_chain r pids lock_only require_mfa s =
      q.user.is_staff
      && (can_view_instance t q.user r
          && (can_operate_instance t q.user r
              && ((not require_mfa || (check_mfa lib q s).0)
                  && (not lock_only || are_locked lib t q up pids up.fetched))))

  -- A request to kill selected pids leaves the monitored server untouched unless the user is staff,
  -- may operate the instance, gave a valid code of the second factor where the route asks for one,
  -- and, on the routes for locks, every pid is part of a lock the server reports.
  pub kill_chain_impl-refused :
      (r : RdsInstance) (pids : List ℕ) (query : String) (is_chain lock_only require_mfa : Bool)
      (s : ViewState Server)
      → may_kill_chain r pids lock_only require_mfa s ≡ false
      → (kill_chain_impl lib t q up
          (some r)
          (some pids)
          query
          is_chain
          lock_only
          require_mfa
          s).1.target
        ≡ s.target
  unfolding kill_chain_impl kill_chain_pids
  kill_chain_impl-refused r pids query is_chain lock_only require_mfa s refused =
      let action = chain_action lib t q up is_chain in
      guard-Same q.user.is_staff permission_denied
        (require_instance_access t q.user r true
          >> with_pids lib t q up r query is_chain lock_only require_mfa (some pids))
        s
        (λ staff.
          access-Same t q.user r
            (with_pids lib t q up r query is_chain lock_only require_mfa (some pids)) s
            (λ view operate.
              if-Same (is_empty pids) (flash (Flash.error "Select at least one backend PID first."))
                (chain_check lib t q up r action pids lock_only require_mfa
                  >>= kill_chosen lib t q up r action pids query)
                s (λ _. refl)
                (λ _.
                  bind-Same (chain_check lib t q up r action pids lock_only require_mfa)
                    (kill_chosen lib t q up r action pids query) s
                    (chain_check-Same r action pids lock_only require_mfa s)
                    (λ passed e.
                      if-Same passed (try_kills lib t q up r action pids query up.connection)
                        (pure tt) (chain_check lib t q up r action pids lock_only require_mfa s).1
                        (λ on.
                          let (code, locked) =
                            chain_check-ok r action pids lock_only require_mfa s (e ∙ ap ok on) in
                          absurd (ground (arith, refused, staff, view, operate, code, locked)))
                        (λ _. refl)))))
