-- ===== src/Views/Registry/Extended.antt =====
-- The form that adds databases keeps the credentials of every instance complete.
use healthgrid.Prelude.{
  ℕ, String, Bool, true, false, not, ◌&&◌, ◌||◌, Option, none, some, List, [], ◌∷◌, ◌<>◌, is_blank,
  is_empty, strip, ltb, length, nat_eq, string_eq, ◌≡◌, refl, arith, if◌then◌else◌,
}
use healthgrid.Prelude.Tables.{All-append}
use healthgrid.Results.{
  Post, Exn, Result, ok, raise, permission_denied, database_error, ◌>>=◌ as ◌>>>◌,
}
use healthgrid.Effects.{Exec, pure, gets, atomic, settle, ◌>>=◌, ◌>>◌}
use healthgrid.Models.Accounts.{AccessTables}
use healthgrid.Models.Instances.{RdsInstance}
use healthgrid.Models.Credentials.{HasCredentials}
use healthgrid.Mfa.{MfaLibrary, encrypt_password}
use healthgrid.Serializers.Credentials.{Encrypts}
use healthgrid.Views.{Flash, Request, flash, log_audit, require_instance_access}
use healthgrid.Models.Audit.{add_instance as addition}
use healthgrid.Views.Registry.{State, get_instance, entry}
use healthgrid.Views.Registry.Api.{insert_instance}
use healthgrid.Views.Keeps.{
  Keeps, Any, Keeps-if, Keeps-bind, Keeps-guard, Keeps-require_instance_access,
}
use healthgrid.Views.Registry.Keeps.{Keeps-get_instance, Rows}
use healthgrid.Views.Registry.Complete.{blank_off}
use healthgrid.Views.Registry.Kept.{Quiet, in_turn}
use healthgrid.Views.Registry.Adding.{
  AddForm, lock_control_of, control_username_of, control_password_of, posted_fields, split_names,
  duplicates_of, common_row,
}
use healthgrid.Views.Registry.Addition.{
  database_row, add_database, add_databases, after_adding, add_row, is_caught, names_message,
  taken_message, password_message, add_unless, add_all, existing_names, label_of, group_of,
  add_checked, extended, add_instance,
}

-- What every row of one form shares.
abbrev Fits : Bool → String → RdsInstance → Type 0
Fits enabled username common =
    (common.lock_control_enabled ≡ enabled)
    × (common.control_username ≡ username)
    × (common.query_runner_enabled ≡ false)

Post-and_then :
    {A B : Type 0} (Q : B → Type 0) (m : Result A) (f : A → Result B)
    → ((a : A) → Post Q (f a))
    → Post Q (m >>> f)
Post-and_then Q (ok a) f h = h a
Post-and_then Q (raise e) f h = tt

module _ (lib : MfaLibrary) (encrypts : Encrypts lib) where
  common_row-Fits :
      (q : Request) (form : AddForm) (source : Option RdsInstance) (group : ℕ) (enabled : Bool)
      (username : String)
      → Post (Fits enabled username) (common_row lib q form source group enabled username)
  unfolding common_row
  common_row-Fits q form (some source) group enabled username = (refl, refl, refl)
  common_row-Fits q form none group enabled username =
      Post-and_then (Fits enabled username) (posted_fields form) _ (λ posted. done)
    where
      done : (enabled ≡ enabled) × (username ≡ username) × (false ≡ false)
      done = (refl, refl, refl)

  database_row-HasCredentials :
      (enabled : Bool) (username password : String) (common : RdsInstance) (pk : ℕ) (name : String)
      → Fits enabled username common
      → (enabled && (not (is_blank username) && is_blank password)) ≡ false
      → (enabled || is_blank username) ≡ true
      → HasCredentials (database_row lib common password pk name)
  unfolding encrypt_password
  database_row-HasCredentials enabled username password common pk name fits given off = record {
    control = ground (arith, fits.0, fits.1, given, encrypts password);
    control_off = ground (arith, fits.0, fits.1, off);
    runner = ground (arith, fits.2);
  }

  -- The property of the instance that a form extends, if any.
  abbrev OptionGood : Option RdsInstance → Type 0
  OptionGood none = Unit
  OptionGood (some r) = HasCredentials r

  -- A username is in use only where lock control is on.
  username-off :
      (q : Request) (form : AddForm) (source : Option RdsInstance)
      → OptionGood source
      → (lock_control_of q form source
          || is_blank (control_username_of form (lock_control_of q form source) source))
        ≡ true
  username-off q form (some r) good = good.control_off
  username-off q form none good =
      blank_off (lock_control_of q form none) (strip form.control_username)

  module _ (accepts : RdsInstance → Bool) (exn_text : Exn → String) (t : AccessTables)
      (q : Request) where
    Quiet-add_row :
        (r : RdsInstance) → HasCredentials r → Quiet (add_row lib accepts exn_text t q r)
    Quiet-add_row r good =
        Keeps-guard (Rows HasCredentials) Any (accepts r) database_error
          (insert_instance r >> log_audit (entry q r addition r.db_identifier))
          (λ s h. (All-append HasCredentials (s.target).rows (r ∷ []) h (good, tt), tt))

    Quiet-add_databases :
        (common : RdsInstance) (password : String) (names : List String)
        → ((pk : ℕ) (name : String) → HasCredentials (database_row lib common password pk name))
        → Quiet (add_databases lib accepts exn_text t q common password names)
    unfolding add_databases
    Quiet-add_databases common password [] good = λ s h. (h, tt)
    Quiet-add_databases common password (name ∷ rest) good =
        in_turn (add_database lib accepts exn_text t q common password name)
          (λ _. add_databases lib accepts exn_text t q common password rest)
          (in_turn (gets (λ s. (s.target).next_pk))
            (λ pk. add_row lib accepts exn_text t q (database_row lib common password pk name))
            (λ s h. (h, tt))
            (λ pk. Quiet-add_row (database_row lib common password pk name) (good pk name)))
          (λ _. Quiet-add_databases common password rest good)

    Quiet-after_adding :
        (done : String) (res : Result (Unit {0}))
        → Quiet (after_adding lib accepts exn_text t q done res)
    Quiet-after_adding done (ok u) = λ s h. (h, tt)
    Quiet-after_adding done (raise e) =
        Keeps-if (Rows HasCredentials) Any (is_caught e) _ _ (λ _ s h. (h, tt)) (λ _ s h. (h, tt))

    -- A raise takes the table back to what it was.
    Good-settle :
        (before : State) (r : Result (Unit {0}) × State)
        → Rows HasCredentials before.target
        → Rows HasCredentials r.1.target
        → Rows HasCredentials (settle (λ before after. before) before r).1.target
    Good-settle before (ok u, after) h g = g
    Good-settle before (raise e, after) h g = h

    Quiet-add_all :
        (m : Result RdsInstance) (password : String) (names : List String) (label : String)
        → Post
            (λ common.
              (pk : ℕ) (name : String) → HasCredentials (database_row lib common password pk name))
            m
        → Quiet (add_all lib accepts exn_text t q m password names label)
    unfolding add_all
    Quiet-add_all (raise e) password names label good = Quiet-after_adding "" (raise e)
    Quiet-add_all (ok common) password names label good = λ s h.
        Quiet-after_adding (label <> (" " <> (common.name <> ".")))
          (atomic (λ before after. before)
            (add_databases lib accepts exn_text t q common password names) s).0
          _
          (Good-settle s (add_databases lib accepts exn_text t q common password names s) h
            (Quiet-add_databases common password names good s h).0)

    Quiet-add_unless :
        (group : ℕ) (form : AddForm) (source : Option RdsInstance) (existing : List String)
        → OptionGood source
        → Quiet (add_unless lib accepts exn_text t q group form source existing)
    unfolding add_unless
    Quiet-add_unless group form source existing good =
        Keeps-if (Rows HasCredentials) Any (is_empty names || ltb 50 (length names))
          (refused names_message)
          (if taken then refused (taken_message (duplicates_of names existing)) else secured)
          (λ _ s h. (h, tt))
          (λ _.
            Keeps-if (Rows HasCredentials) Any taken
              (refused (taken_message (duplicates_of names existing))) secured (λ _ s h. (h, tt))
              (λ _.
                Keeps-if (Rows HasCredentials) Any lacking (refused password_message) added
                  (λ _ s h. (h, tt))
                  (λ given.
                    Quiet-add_all common password names (label_of lib accepts exn_text t q source) (
                      rows_good common given (
                        common_row-Fits q form source
                          (group_of lib accepts exn_text t q group source) enabled username)))))
      where
        enabled : Bool
        enabled = lock_control_of q form source

        username : String
        username = control_username_of form enabled source

        password : String
        password = control_password_of lib form enabled source

        names : List String
        names = split_names form.database_names

        taken : Bool
        taken = not (is_empty (duplicates_of names existing))

        lacking : Bool
        lacking = enabled && (not (is_blank username) && is_blank password)

        common : Result RdsInstance
        common =
            common_row lib q form source (group_of lib accepts exn_text t q group source) enabled
              username

        refused : String → Exec State (Unit {0})
        refused message = flash (Flash.error message)

        added : Exec State (Unit {0})
        added =
            add_all lib accepts exn_text t q common password names
              (label_of lib accepts exn_text t q source)

        secured : Exec State (Unit {0})
        secured = if lacking then refused password_message else added

        rows_good :
            (m : Result RdsInstance)
            → lacking ≡ false
            → Post (Fits enabled username) m
            → Post
                (λ row.
                  (pk : ℕ) (name : String) → HasCredentials (database_row lib row password pk name))
                m
        rows_good (raise e) given fits = tt
        rows_good (ok row) given fits = λ pk name.
            database_row-HasCredentials enabled username password row pk name fits given
              (username-off q form source good)

    Quiet-add_checked :
        (group : ℕ) (form : AddForm) (source : Option RdsInstance)
        → OptionGood source
        → Quiet (add_checked lib accepts exn_text t q group form source)
    unfolding add_checked
    Quiet-add_checked group form source good =
        in_turn (gets (existing_names lib accepts exn_text t q source))
          (add_unless lib accepts exn_text t q group form source) (λ s h. (h, tt))
          (λ existing. Quiet-add_unless group form source existing good)

    Keeps-extended :
        (found : Option ℕ)
        → Keeps (Rows HasCredentials) OptionGood (extended lib accepts exn_text t q found)
    Keeps-extended none = λ s h. (h, tt)
    Keeps-extended (some pk) =
        Keeps-bind (Rows HasCredentials) HasCredentials OptionGood (get_instance pk)
          (λ r. require_instance_access t q.user r true >> pure (some r))
          (Keeps-get_instance HasCredentials pk)
          (λ r good.
            Keeps-require_instance_access (Rows HasCredentials) OptionGood t q r true
              (pure (some r)) (λ s h. (h, good)))

    pub Quiet-add :
        (group : ℕ) (form : AddForm) → Quiet (add_instance lib accepts exn_text t q group form)
    unfolding add_instance
    Quiet-add group form =
        Keeps-guard (Rows HasCredentials) Any q.user.is_staff permission_denied
          (extended lib accepts exn_text t q form.extend_instance
            >>= add_checked lib accepts exn_text t q group form)
          (Keeps-bind (Rows HasCredentials) OptionGood Any
            (extended lib accepts exn_text t q form.extend_instance)
            (add_checked lib accepts exn_text t q group form) (Keeps-extended form.extend_instance)
            (Quiet-add_checked group form))
