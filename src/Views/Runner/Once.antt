-- ===== src/Views/Runner/Once.antt =====
-- A preview is committed at most once.
use healthgrid.Prelude.{
  ℕ, String, Bool, true, false, ◌||◌, Option, none, some, List, [], ◌∷◌, ◌<>◌, any, show, nat_eq,
  ◌==◌, ◌≡◌, refl, ap, ◌∙◌, ◌⊎◌, inl, inr, arith, Bool-cases, Option-cases,
}
use healthgrid.Prelude.Tables.{select, update_where}
use healthgrid.Results.{Exn, Result, ok, raise, connection_message, permission_denied, not_found}
use healthgrid.Effects.{Exec, guard, continue, ◌>>=◌, ◌>>◌}
use healthgrid.Models.Accounts.{User, AccessTables}
use healthgrid.Models.Audit.{QueryRunnerExecution, run_query}
use healthgrid.Models.Instances.{RdsInstance}
use healthgrid.Access.{first, can_view_instance, can_run_queries}
use healthgrid.Mfa.{MfaLibrary, same_user}
use healthgrid.Db.Connections.{Connection, Network}
use healthgrid.Db.Queries.{
  Statements, ServerData, executed, committed_or_back, commit_on, prepared, commit_write_query,
}
use healthgrid.Views.{ViewState, Request, check_mfa, require_instance_access, require_action_mfa}
use healthgrid.Views.Runner.{
  is_open, Slices, get_own_pending_execution, commit_execution, commit_if, after_commit,
  commit_raised, commit_query,
}

first-select :
    {A : Type 0} (p : A → Bool) (xs : List A) (x : A) → first (select p xs) ≡ some x → p x ≡ true
first-select p [] x found = cc
first-select p (y ∷ ys) x found = elim (Bool-cases (p y)) [
  | inl here ↦ ground (arith, found)
  | inr there ↦ first-select p ys x (ground arith)
]

none-first :
    {A : Type 0} (p : A → Bool) (xs : List A) → any p xs ≡ false → first (select p xs) ≡ none
none-first p [] none_of = refl
none-first p (x ∷ xs) none_of = ground (arith, none-first p xs)

-- Rows that are all changed to rows outside `q` are outside `q`.
any-update_where_out :
    {A : Type 0} (p q : A → Bool) (f : A → A) (xs : List A)
    → ((x : A) → p x ≡ false → q x ≡ false)
    → ((x : A) → q (f x) ≡ false)
    → any q (update_where p f xs) ≡ false
any-update_where_out p q f [] out changed = refl
any-update_where_out p q f (x ∷ xs) out changed =
    ground (arith, out x, changed x, any-update_where_out p q f xs out changed)

module _ {T : Type 0} (Q : ViewState T → Type 0) where
  guard-Ends :
      {A : Type 0} (b : Bool) (e : Exn) (k : Exec (ViewState T) A) (s : ViewState T)
      → Q s
      → Q (k s).1
      → Q ((guard b e >> k) s).1
  guard-Ends true e k s here there = there
  guard-Ends false e k s here there = here

  access-Ends :
      {A : Type 0} (t : AccessTables) (u : User) (r : RdsInstance) (k : Exec (ViewState T) A)
      (s : ViewState T)
      → Q s
      → Q (k s).1
      → Q ((require_instance_access t u r false >> k) s).1
  access-Ends t u r k s here there = go (can_view_instance t u r)
    where
      go : (v : Bool) → Q (((guard v permission_denied >> guard true permission_denied) >> k) s).1
      go true = there
      go false = here

-- What a commit does on the server if it raises something else than a ConnectionError: nothing.
commit_on-raised :
    {D Seq : Type 0} (run : String → D → Seq → Result (ℕ × D) × Seq)
    (p : Result (String × Connection)) (s : ServerData D Seq) (x : Exn)
    → (commit_on run p s).0 ≡ raise x
    → connection_message x ≡ none
    → (commit_on run p s).1 ≡ s
commit_on-raised run (raise e) s x h quiet = refl
commit_on-raised {D} {Seq} run (ok (statement, conn)) s x h quiet =
    go (run statement s.working s.sequences) h
  where
    message_of : Result ℕ → Option String
    message_of (ok n) = none
    message_of (raise e) = connection_message e

    go :
        (res : Result (ℕ × D) × Seq)
        → (committed_or_back run (executed run conn.autocommit s res)).0 ≡ raise x
        → (committed_or_back run (executed run conn.autocommit s res)).1 ≡ s
    go (ok (rowcount, d), sequences) h = cc
    go (raise y, sequences) h = let shown = ap message_of h in cc

module _ {D Seq : Type 0} (run : String → D → Seq → Result (ℕ × D) × Seq) (lib : Statements)
    (crypto : MfaLibrary) (net : Network) (slices : Slices) (t : AccessTables)
    (r : RdsInstance) where
  -- The lookup of a pending execution changes nothing.
  get_own-cases :
      (q : Request) (id : ℕ) (s : ViewState (ServerData D Seq))
      → ((x : Exn) × (get_own_pending_execution run lib crypto net slices t q r id s
            ≡ (raise x, s)))
        ⊎ ((e : QueryRunnerExecution) × (get_own_pending_execution run lib crypto net slices t q r
                id s
              ≡ (ok e, s))
            × (first (select (is_open r id) s.executions) ≡ some e))
  unfolding get_own_pending_execution
  get_own-cases q id s = elim (Option-cases (first (select (is_open r id) s.executions))) [
    | inl missing ↦ inl (not_found, rw missing refl)
    | inr (e, found) ↦
        elim (Bool-cases (same_user e.user_id (some q.user.pk) || q.user.is_superuser)) [
          | inl own ↦ inr (e, rw found (rw own refl), found)
          | inr other ↦ inl (permission_denied, rw found (rw other refl))
        ]
  ]

  mfa_kept :
      (q : Request) (detail : String) (s : ViewState (ServerData D Seq))
      → let after = (require_action_mfa crypto q r run_query detail s).1 in
        (after.target ≡ s.target) × (after.executions ≡ s.executions)
  unfolding require_action_mfa check_mfa
  mfa_kept q detail s = elim (Bool-cases (check_mfa crypto q s).0) [
    | inl yes_ ↦ rw yes_ (refl, refl)
    | inr no_ ↦ rw no_ (refl, refl)
  ]

  -- Once a commit wrote to the execution, no pending row with its key is left; otherwise it raised.
  after_commit-cases :
      (q : Request) (id : ℕ) (e : QueryRunnerExecution) (res : Result ℕ)
      (s : ViewState (ServerData D Seq))
      → (e.pk == id) ≡ true
      → let after = (after_commit run lib crypto net slices t q r e res s).1 in
        (any (is_open r id) after.executions ≡ false)
        ⊎ ((x : Exn) × (res ≡ raise x) × (connection_message x ≡ none) × (after.target ≡ s.target))
  unfolding after_commit
  after_commit-cases q id e (ok rowcount) s own = inl (
      any-update_where_out (λ row. row.pk == e.pk) (is_open r id) _ s.executions
        (λ row other. ground arith) (λ row. ground arith))
  after_commit-cases q id e (raise x) s own = go (connection_message x) refl
    where
      go :
          (message : Option String)
          → connection_message x ≡ message
          → let after = (commit_raised run lib crypto net slices t q r e x message s).1 in
            (any (is_open r id) after.executions ≡ false)
            ⊎ ((y : Exn) × (Path (Result ℕ) (raise x) (raise y))
                × (connection_message y ≡ none)
                × (after.target ≡ s.target))
      go none m = inr (x, refl, m, refl)
      go (some message) m = inl (
          any-update_where_out (λ row. row.pk == e.pk) (is_open r id) _ s.executions
            (λ row other. ground arith) (λ row. ground arith))

  -- After a commit the server is as before, or the preview is no longer pending.
  abbrev Closed : ℕ → ViewState (ServerData D Seq) → ViewState (ServerData D Seq) → Type 0
  Closed id s s' = (s'.target ≡ s.target) ⊎ (any (is_open r id) s'.executions ≡ false)

  commit_if-Closed :
      (q : Request) (id : ℕ) (e : QueryRunnerExecution) (passed : Bool)
      (s : ViewState (ServerData D Seq))
      → (e.pk == id) ≡ true
      → Closed id s (commit_if run lib crypto net slices t q r e passed s).1
  unfolding commit_write_query
  commit_if-Closed q id e false s own = inl refl
  commit_if-Closed q id e true s own =
      let p = prepared run lib crypto net r e.sql in
      let call = commit_write_query run lib crypto net r e.sql s.target in
      let s' = record s { target = call.1 } in
      elim (after_commit-cases q id e call.0 s' own) [
        | inl closed ↦ inr closed
        | inr (x, raised, quiet, same) ↦ inl (same ∙ commit_on-raised run p s.target x raised quiet)
      ]

  commit_execution-Closed :
      (q : Request) (id : ℕ) (e : QueryRunnerExecution) (s : ViewState (ServerData D Seq))
      → (e.pk == id) ≡ true
      → Closed id s (commit_execution run lib crypto net slices t q r e s).1
  unfolding commit_execution
  commit_execution-Closed q id e s own =
      let detail = "[commit] execution_id=" <> show e.pk in
      let asked = require_action_mfa crypto q r run_query detail s in
      go asked.0 asked.1 (mfa_kept q detail s).0
    where
      go :
          (res : Result Bool) (s' : ViewState (ServerData D Seq))
          → s'.target ≡ s.target
          → Closed id s (continue res (commit_if run lib crypto net slices t q r e) s').1
      go (raise x) s' kept = inl kept
      go (ok passed) s' kept = elim (commit_if-Closed q id e passed s' own) [
        | inl same ↦ inl (same ∙ kept)
        | inr closed ↦ inr closed
      ]

  -- A handler's first checks leave the state to what follows them, or stop with the state unchanged.
  runner-Ends :
      (Q : ViewState (ServerData D Seq) → Type 0) (q : Request)
      (k : Exec (ViewState (ServerData D Seq)) (Unit {0})) (s : ViewState (ServerData D Seq))
      → Q s
      → Q (k s).1
      → Q
          ((require_instance_access t q.user r false
              >> (guard (can_run_queries t q.user r) permission_denied >> k))
            s).1
  runner-Ends Q q k s here there =
      access-Ends Q t q.user r (guard (can_run_queries t q.user r) permission_denied >> k) s here
        (guard-Ends Q (can_run_queries t q.user r) permission_denied k s here there)

  commit_query-Closed :
      (q : Request) (id : ℕ) (s : ViewState (ServerData D Seq))
      → Closed id s (commit_query run lib crypto net slices t q (some r) id s).1
  unfolding commit_query
  commit_query-Closed q id s =
      runner-Ends (Closed id s) q
        (get_own_pending_execution run lib crypto net slices t q r id
          >>= commit_execution run lib crypto net slices t q r)
        s (inl refl)
        (elim (get_own-cases q id s) [
          | inl (x, missing) ↦ rw missing (inl refl)
          | inr (e, found, first_one) ↦
              let open_ = first-select (is_open r id) s.executions e first_one in
              rw found (commit_execution-Closed q id e s (ground arith))
        ])

  commit_query-none :
      (q : Request) (id : ℕ) (s : ViewState (ServerData D Seq))
      → any (is_open r id) s.executions ≡ false
      → (commit_query run lib crypto net slices t q (some r) id s).1.target ≡ s.target
  unfolding commit_query
  commit_query-none q id s closed =
      runner-Ends (λ s'. s'.target ≡ s.target) q
        (get_own_pending_execution run lib crypto net slices t q r id
          >>= commit_execution run lib crypto net slices t q r)
        s refl
        (elim (get_own-cases q id s) [
          | inl (x, missing) ↦ rw missing refl
          | inr (e, found, first_one) ↦
              let none_one = none-first (is_open r id) s.executions closed in cc
        ])

  -- Of two commits of one preview, by whomever and whatever their outcome, at most one changes the
  -- server: what the first does settles the execution, and the second finds it no longer pending.
  pub commit_query-once :
      (q q' : Request) (id : ℕ) (s : ViewState (ServerData D Seq))
      → let s1 = (commit_query run lib crypto net slices t q (some r) id s).1 in
        let s2 = (commit_query run lib crypto net slices t q' (some r) id s1).1 in
        (s1.target ≡ s.target) ⊎ (s2.target ≡ s1.target)
  commit_query-once q q' id s = elim (commit_query-Closed q id s) [
    | inl same ↦ inl same
    | inr closed ↦ inr (
        commit_query-none q' id (commit_query run lib crypto net slices t q (some r) id s).1 closed)
  ]
