-- ===== src/Views/Registry/Addition.antt =====
-- `add_instance` of monitor/views.py, once the form is read: the transaction and the handler.
use healthgrid.Prelude.{
  ℕ, String, Bool, true, false, not, ◌&&◌, ◌||◌, Option, none, some, List, [], ◌∷◌, ◌<>◌, map,
  is_blank, is_empty, join, ltb, length, string_eq, nat_eq, ◌==◌, if◌then◌else◌,
}
use healthgrid.Prelude.Tables.{select}
use healthgrid.Results.{Exn, Result, ok, raise, key_error, value_error, database_error}
use healthgrid.Effects.{Exec, pure, throw, gets, guard, atomic, ◌>>=◌, ◌>>◌}
use healthgrid.Models.Accounts.{AccessTables}
use healthgrid.Models.Audit.{add_instance as addition}
use healthgrid.Models.Instances.{RdsInstance}
use healthgrid.Mfa.{MfaLibrary, encrypt_password, decrypt_password}
use healthgrid.Views.{Flash, Request, flash, require_staff, require_instance_access, log_audit}
use healthgrid.Views.Registry.{State, get_instance, entry}
use healthgrid.Views.Registry.Api.{insert_instance}
use healthgrid.Views.Registry.Adding.{
  AddForm, lock_control_of, control_username_of, control_password_of, split_names, duplicates_of,
  common_row,
}

-- The row of one database; `if control_password` sets the second password.
abbrev pub database_row : MfaLibrary → RdsInstance → String → ℕ → String → RdsInstance
database_row lib common control_password pk database = record common {
  pk = pk;
  db_name = database;
  control_password_encrypted = encrypt_password lib control_password;
}

-- `except (KeyError, ValueError, DatabaseError)`
abbrev pub is_caught : Exn → Bool
is_caught key_error = true
is_caught value_error = true
is_caught database_error = true
is_caught e = false

-- What the user is told when the form is refused.
abbrev pub names_message : String
names_message = "Enter between 1 and 50 database names, separated by commas or new lines."

abbrev pub taken_message : List String → String
taken_message duplicates = "These databases are already registered: " <> join ", " duplicates

abbrev pub password_message : String
password_message = "Lock-control password is required when a lock-control username is provided."

-- `accepts` says whether the database takes a row, and `exn_text` is the text of an exception.
module _ (lib : MfaLibrary) (accepts : RdsInstance → Bool) (exn_text : Exn → String)
    (t : AccessTables) (q : Request) where
  -- `instance.save()` and the entry of the audit history.
  abbrev pub add_row : RdsInstance → Exec State (Unit {0})
  add_row r = do
    guard (accepts r) database_error
    insert_instance r
    log_audit (entry q r addition r.db_identifier)

  -- One round of the loop in the transaction.
  abbrev pub add_database : RdsInstance → String → String → Exec State (Unit {0})
  add_database common control_password database = gets (λ s. (s.target).next_pk) >>= λ pk.
      add_row (database_row lib common control_password pk database)

  unfoldable pub add_databases : RdsInstance → String → List String → Exec State (Unit {0})
  unfolding encrypt_password
  add_databases common control_password [] = pure tt
  add_databases common control_password (database ∷ rest) =
      add_database common control_password database >> add_databases common control_password rest

  abbrev pub after_adding : String → Result (Unit {0}) → Exec State (Unit {0})
  after_adding done (ok _) = flash (Flash.success done)
  after_adding done (raise e) =
      if is_caught e
      then flash (Flash.error ("Could not add the database target(s): " <> exn_text e))
      else throw e

  -- The `try`: the transaction, and its handlers.
  unfoldable pub add_all :
      Result RdsInstance → String → List String → String → Exec State (Unit {0})
  unfolding add_databases
  add_all (raise e) control_password names label = after_adding "" (raise e)
  add_all (ok common) control_password names label = λ s.
      let (res, s') =
        atomic (λ before after. before) (add_databases common control_password names) s in
      after_adding (label <> (" " <> (common.name <> "."))) res s'

  abbrev pub existing_names : Option RdsInstance → State → List String
  existing_names none s = []
  existing_names (some source) s =
      map (λ r. r.db_name)
        (select (λ r. r.connection_group == source.connection_group) (s.target).rows)

  abbrev pub label_of : Option RdsInstance → String
  label_of none = "Added"
  label_of (some source) = "Added database target(s) to"

  abbrev pub group_of : ℕ → Option RdsInstance → ℕ
  group_of group none = group
  group_of group (some source) = source.connection_group

  -- The tests of the form, once the extended instance and the names of its group are known.
  unfoldable pub add_unless : ℕ → AddForm → Option RdsInstance → List String → Exec State (Unit {0})
  unfolding split_names duplicates_of common_row add_all decrypt_password
  add_unless group form source existing =
      let enabled = lock_control_of q form source in
      let username = control_username_of form enabled source in
      let password = control_password_of lib form enabled source in
      let names = split_names form.database_names in
      if is_empty names || ltb 50 (length names)
      then flash
          (Flash.error "Enter between 1 and 50 database names, separated by commas or new lines.")
      else if not (is_empty (duplicates_of names existing))
      then flash (Flash.error (taken_message (duplicates_of names existing)))
      else if enabled && (not (is_blank username) && is_blank password)
      then flash (Flash.error password_message)
      else add_all (common_row lib q form source (group_of group source) enabled username) password
          names (label_of source)

  unfoldable pub add_checked : ℕ → AddForm → Option RdsInstance → Exec State (Unit {0})
  unfolding add_unless
  add_checked group form source = gets (existing_names source) >>= add_unless group form source

  -- The instance that the form extends, which the user has to operate.
  abbrev pub extended : Option ℕ → Exec State (Option RdsInstance)
  extended none = pure none
  extended (some pk) = do
    r ← get_instance pk
    require_instance_access t q.user r true
    pure (some r)

  unfoldable pub add_instance : ℕ → AddForm → Exec State (Unit {0})
  unfolding get_instance add_checked
  add_instance group form = do
    require_staff q.user
    source ← extended form.extend_instance
    add_checked group form source
