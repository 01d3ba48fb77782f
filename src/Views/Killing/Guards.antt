-- ===== src/Views/Killing/Guards.antt =====
-- Lemmas on the checks that the kill requests of views.py share, and on the server they act on.
use healthgrid.Prelude.{
  ℕ, String, Bool, true, false, Option, none, some, List, all, contains, nat_eq, ◌≡◌, refl,
  Bool-cases, inl, inr,
}
use healthgrid.Results.{Exn, Result, ok, raise, connection_message}
use healthgrid.Effects.{lift, ◌>>=◌}
use healthgrid.Models.Alerts.{ActivityRow, BlockingRow}
use healthgrid.Models.Accounts.{AccessTables}
use healthgrid.Mfa.{MfaLibrary}
use healthgrid.Db.Kills.{Server}
use healthgrid.Views.{ViewState, Request}
use healthgrid.Views.Unchanged.{Same, bind-Same}
use healthgrid.Views.Killing.{
  Upstream, current_lock_pids, not_locked, shown_or_raised, go_on, lock_check,
}

module _ (lib : MfaLibrary) (t : AccessTables) (q : Request) (up : Upstream) where
  -- The pids are all part of the locks that the server reports.
  abbrev pub are_locked : List ℕ → Result (List ActivityRow × List BlockingRow) → Bool
  are_locked pids (ok (activity, blocking)) =
      all (λ pid. contains pid (current_lock_pids blocking)) pids
  are_locked pids (raise e) = false

  module _ (gone failure : String) where
    pub not_locked-Same :
        (pids : List ℕ) (s : ViewState Server)
        → Same (lift (not_locked gone failure pids up.fetched) >>= go_on lib t q up) s
    not_locked-Same pids s =
        bind-Same (lift (not_locked gone failure pids up.fetched)) (go_on lib t q up) s refl
          (λ problem e. go problem)
      where
        go : (problem : Option String) → Same (go_on lib t q up problem) s
        go none = refl
        go (some message) = refl

    pub not_locked-ok :
        (pids : List ℕ) (s : ViewState Server)
        → ((lift (not_locked gone failure pids up.fetched) >>= go_on lib t q up) s).0 ≡ ok true
        → are_locked pids up.fetched ≡ true
    unfolding not_locked
    not_locked-ok pids s e = go up.fetched e
      where
        answer : Result (Option String) → Result Bool
        answer problem = ((lift problem >>= go_on lib t q up) s).0

        raised :
            (x : Exn) (message : Option String)
            → answer (shown_or_raised failure x message) ≡ ok true
            → false ≡ true
        raised x none e = cc
        raised x (some message) e = cc

        go :
            (fetched : Result (List ActivityRow × List BlockingRow))
            → answer (not_locked gone failure pids fetched) ≡ ok true
            → are_locked pids fetched ≡ true
        go (raise x) e = raised x (connection_message x) e
        go (ok (activity, blocking)) e =
            elim (Bool-cases (all (λ pid. contains pid (current_lock_pids blocking)) pids)) [
              | inl locked ↦ locked
              | inr free ↦
                  let refused : answer (not_locked gone failure pids (ok (activity, blocking)))
                      ≡ ok false =
                    rw free refl in
                  cc
            ]

  pub lock_check-Same : (pids : List ℕ) (s : ViewState Server) → Same (lock_check lib t q up pids) s
  unfolding lock_check
  lock_check-Same pids s =
      not_locked-Same "One or more selected PIDs are no longer part of an active lock."
        "Could not verify the lock before killing the selected PIDs: " pids s

  pub lock_check-ok :
      (pids : List ℕ) (s : ViewState Server)
      → (lock_check lib t q up pids s).0 ≡ ok true
      → are_locked pids up.fetched ≡ true
  unfolding lock_check
  lock_check-ok pids s e =
      not_locked-ok "One or more selected PIDs are no longer part of an active lock."
        "Could not verify the lock before killing the selected PIDs: " pids s e
