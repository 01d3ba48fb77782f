-- ===== src/Views/Killing/Sessions.antt =====
-- When a request to kill one session can touch the monitored server.
use healthgrid.Prelude.{
  ℕ, String, Bool, true, false, ◌&&◌, some, ◌≡◌, refl, ap, ◌∙◌, arith, if◌then◌else◌, ◌<>◌, [], ◌∷◌,
  show,
}
use healthgrid.Results.{ok, permission_denied}
use healthgrid.Effects.{Exec, pure, ◌>>=◌, ◌>>◌}
use healthgrid.Models.Accounts.{AccessTables}
use healthgrid.Models.Audit.{kill_session}
use healthgrid.Models.Instances.{RdsInstance}
use healthgrid.Access.{can_view_instance, can_operate_instance}
use healthgrid.Mfa.{MfaLibrary}
use healthgrid.Db.Kills.{Server}
use healthgrid.Views.{ViewState, Request, require_instance_access, check_mfa}
use healthgrid.Views.Killing.{Upstream, session_check, try_kill, kill_session_impl}
use healthgrid.Views.Unchanged.{Same, guard-Same, access-Same, bind-Same, if-Same, mfa-Same, mfa-ok}
use healthgrid.Views.Killing.Guards.{are_locked, not_locked-Same, not_locked-ok}

module _ (lib : MfaLibrary) (t : AccessTables) (q : Request) (up : Upstream) where
  -- What the route asks for: the pid in a lock, or a valid code of the second factor.
  abbrev pub session_checked : ℕ → Bool → ViewState Server → Bool
  session_checked pid true s = are_locked lib t q up (pid ∷ []) up.fetched
  session_checked pid false s = (check_mfa lib q s).0

  session_check-Same :
      (r : RdsInstance) (pid : ℕ) (lock_only : Bool) (s : ViewState Server)
      → Same (session_check lib t q up r pid lock_only) s
  unfolding session_check
  session_check-Same r pid true s =
      not_locked-Same lib t q up ("pid " <> (show pid <> " is no longer part of an active lock."))
        ("Could not verify the lock before killing pid " <> (show pid <> ": ")) (pid ∷ []) s
  session_check-Same r pid false s = mfa-Same lib q r kill_session ("pid=" <> show pid) s

  session_check-ok :
      (r : RdsInstance) (pid : ℕ) (lock_only : Bool) (s : ViewState Server)
      → (session_check lib t q up r pid lock_only s).0 ≡ ok true
      → session_checked pid lock_only s ≡ true
  unfolding session_check
  session_check-ok r pid true s e =
      not_locked-ok lib t q up ("pid " <> (show pid <> " is no longer part of an active lock."))
        ("Could not verify the lock before killing pid " <> (show pid <> ": ")) (pid ∷ []) s e
  session_check-ok r pid false s e = mfa-ok lib q r kill_session ("pid=" <> show pid) s e

  -- What a kill of one session needs.
  abbrev pub may_kill_session : RdsInstance → ℕ → Bool → ViewState Server → Bool
  may_kill_session r pid lock_only s =
      q.user.is_staff
      && (can_view_instance t q.user r
          && (can_operate_instance t q.user r && session_checked pid lock_only s))

  -- A request to kill one session leaves the monitored server untouched unless the user is staff,
  -- may operate the instance and, on the route for locks, the pid is part of a lock that the server
  -- reports, or else a valid code of the second factor came with the request.
  pub kill_session_impl-refused :
      (r : RdsInstance) (pid : ℕ) (query : String) (lock_only : Bool) (s : ViewState Server)
      → may_kill_session r pid lock_only s ≡ false
      → (kill_session_impl lib t q up (some r) (some pid) query lock_only s).1.target ≡ s.target
  unfolding kill_session_impl
  kill_session_impl-refused r pid query lock_only s refused =
      let attempt : Bool → Exec (ViewState Server) (Unit {0}) =
        λ passed. if passed then try_kill lib t q up r pid query up.connection else pure tt in
      let rest = session_check lib t q up r pid lock_only >>= attempt in
      guard-Same q.user.is_staff permission_denied (require_instance_access t q.user r true >> rest)
        s
        (λ staff. access-Same t q.user r rest s (λ view operate.
          bind-Same (session_check lib t q up r pid lock_only) attempt s
            (session_check-Same r pid lock_only s)
            (λ passed e.
              if-Same passed (try_kill lib t q up r pid query up.connection) (pure tt)
                (session_check lib t q up r pid lock_only s).1
                (λ on.
                  let checked = session_check-ok r pid lock_only s (e ∙ ap ok on) in
                  absurd (ground (arith, refused, staff, view, operate, checked)))
                (λ _. refl))))
