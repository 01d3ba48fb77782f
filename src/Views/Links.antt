-- ===== src/Views/Links.antt =====
-- `dashboard_links` of monitor/views.py: the links that Administrators keep to other dashboards.
pub mod Valid
use healthgrid.Prelude.{
  ℕ, ◌+◌, ℤ, pos, negsuc, max_zero, ltb_ℤ, String, Bool, true, false, not, ◌&&◌, ◌||◌, Option, none,
  some, List, [], ◌∷◌, ◌++◌, given, strip, is_blank, text_length, ltb, nat_eq, string_eq, ◌==◌,
  if◌then◌else◌,
}
use healthgrid.Prelude.Tables.{select, update_where, delete_where}
use healthgrid.Results.{
  validation_message, Exn, validation_error, Result, ok, raise, not_found, require, ◌>>=◌ as ◌>>>◌,
}
use healthgrid.Effects.{Exec, pure, throw, gets, modify, or_raise, ◌>>=◌, ◌>>◌}
use healthgrid.Models.Alerts.{Table}
use healthgrid.Models.Links.{DashboardLink}
use healthgrid.Notifications.Webhooks.{SplitUrl, is_filled}
use healthgrid.Access.{first}
use healthgrid.Views.{Flash, ViewState, Request, flash, require_administrator}

abbrev pub State : Type 0
State = ViewState (Table DashboardLink)

-- The posted fields. `link_id` is none where it is blank, `sort_order` where it is no number.
pub record LinkForm : Type 0 where
  pub action : Option String
  pub link_id : Option ℕ
  pub name : String
  pub url : String
  pub description : String
  pub category : String
  pub sort_order : Option ℤ
  pub is_active : Bool

-- The fields once they are read.
pub record LinkValues : Type 0 where
  pub name : String
  pub url : String
  pub description : String
  pub category : String
  pub sort_order : ℤ
  pub is_active : Bool

unfoldable pub read_link : LinkForm → LinkValues
unfolding strip
read_link form = record {
  name = strip form.name;
  url = strip form.url;
  description = strip form.description;
  category = strip form.category;
  sort_order = given form.sort_order (negsuc 0);
  is_active = form.is_active;
}

unfoldable pub has_bad_fields : LinkValues → Bool
unfolding text_length
has_bad_fields v =
    is_blank v.name
    || (ltb 100 (text_length v.name)
        || (ltb 255 (text_length v.description)
            || (ltb 80 (text_length v.category) || ltb_ℤ v.sort_order (pos 0))))

abbrev pub write_link : LinkValues → DashboardLink → DashboardLink
write_link v link = record link {
  name = v.name;
  url = v.url;
  description = v.description;
  category = v.category;
  sort_order = max_zero v.sort_order;
  is_active = v.is_active;
}

-- `urlsplit`, which may raise, and `URLValidator`: the message of what is wrong with a URL.
pub record UrlLibrary : Type 0 where
  pub urlsplit : String → Result SplitUrl
  pub url_error : String → Option String

abbrev pub is_web_url : SplitUrl → Bool
is_web_url parts =
    (parts.scheme == "http" || parts.scheme == "https")
    && (is_filled parts.hostname
        && (not (is_filled parts.username) && not (is_filled parts.password)))

abbrev pub no_error : Option String → Result (Unit {0})
no_error none = ok tt
no_error (some message) = raise (validation_error message)

abbrev pub check_parts : Result SplitUrl → Result (Unit {0}) → Result (Unit {0})
check_parts (raise e) valid = raise e
check_parts (ok parts) valid =
    if is_web_url parts
    then valid
    else raise (validation_error "Use an HTTP(S) URL without embedded credentials.")

module _ (lib : UrlLibrary) where
  -- `_validate_dashboard_url`
  unfoldable pub validate_dashboard_url : String → Result (Unit {0})
  validate_dashboard_url value = check_parts (lib.urlsplit value) (no_error (lib.url_error value))

  module _ (q : Request) where
    abbrev pub set_rows : (List DashboardLink → List DashboardLink) → Exec State (Unit {0})
    set_rows change =
        modify (λ s. record s { target = record (s.target) { rows = change (s.target).rows } })

    abbrev pub find_link : ℕ → Exec State DashboardLink
    find_link pk s = or_raise (first (select (λ l. l.pk == pk) (s.target).rows)) not_found s

    -- The action `delete`; a blank id finds nothing.
    unfoldable pub delete_link : Option ℕ → Exec State (Unit {0})
    delete_link none = throw not_found
    delete_link (some pk) = do
      link ← find_link pk
      set_rows (delete_where (λ l. l.pk == link.pk))
      flash (Flash.success "Dashboard link removed.")

    abbrev pub new_link : ℕ → DashboardLink
    new_link pk = record {
      pk = pk;
      name = "";
      url = "";
      description = "";
      category = "";
      sort_order = 0;
      is_active = true;
      created_by = some q.user.pk;
    }

    abbrev pub insert_link : LinkValues → Exec State (Unit {0})
    insert_link v = modify (λ s. record s {
      target = record {
        rows = (s.target).rows ++ write_link v (new_link (s.target).next_pk) ∷ [];
        next_pk = (s.target).next_pk + 1;
      };
    })

    unfoldable pub save_link : Option ℕ → LinkValues → Exec State (Unit {0})
    save_link none v = insert_link v >> flash (Flash.success "Dashboard link saved.")
    save_link (some pk) v = do
      link ← find_link pk
      set_rows (update_where (λ l. l.pk == link.pk) (write_link v))
      flash (Flash.success "Dashboard link saved.")

    -- The `try`: `except ValidationError` shows the message, another exception goes on.
    abbrev pub refuse_link : Exn → Option String → Exec State (Unit {0})
    refuse_link e none = throw e
    refuse_link e (some message) = flash (Flash.error message)

    abbrev pub save_checked : Option ℕ → LinkValues → Result (Unit {0}) → Exec State (Unit {0})
    save_checked link_id v (ok _) = save_link link_id v
    save_checked link_id v (raise e) = refuse_link e (validation_message e)

    unfoldable pub post_link : LinkForm → LinkValues → Exec State (Unit {0})
    unfolding has_bad_fields save_link validate_dashboard_url
    post_link form v =
        if has_bad_fields v
        then flash (
            Flash.error
              "Enter a name, valid description/category lengths, and a non-negative display order.")
        else save_checked form.link_id v (validate_dashboard_url v.url)

    -- A POST.
    unfoldable pub dashboard_links : LinkForm → Exec State (Unit {0})
    unfolding post_link delete_link read_link
    dashboard_links form = do
      require_administrator q.user
      (if given form.action "save" == "delete"
          then delete_link form.link_id
          else post_link form (read_link form))
