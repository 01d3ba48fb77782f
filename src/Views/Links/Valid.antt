-- ===== src/Views/Links/Valid.antt =====
-- The links of the table stay within their bounds, and lead to web addresses.
use healthgrid.Prelude.{
  ℕ, ◌≤◌, String, Bool, true, false, not, ◌&&◌, Option, none, some, All, given, is_blank,
  text_length, string_eq, nat_eq, ◌==◌, ◌≡◌, ◌⊎◌, inl, inr, Bool-cases, eq_iff, refl, arith,
  if◌then◌else◌,
}
use healthgrid.Prelude.Tables.{select, All-append}
use healthgrid.Prelude.Tables.Rows.{All-select, All-update_where}
use healthgrid.Results.{Exn, Result, ok, raise, not_found, permission_denied, validation_message}
use healthgrid.Effects.{Exec, or_raise, ◌>>=◌}
use healthgrid.Models.Alerts.{Table}
use healthgrid.Models.Links.{DashboardLink}
use healthgrid.Notifications.Webhooks.{SplitUrl, is_filled}
use healthgrid.Access.{first}
use healthgrid.Views.{Request}
use healthgrid.Views.Keeps.{Keeps, Any, Keeps-if, Keeps-guard}
use healthgrid.Views.Links.{
  State, LinkForm, LinkValues, UrlLibrary, read_link, has_bad_fields, write_link,
  validate_dashboard_url, delete_link, refuse_link, new_link, is_web_url, no_error, check_parts,
  save_link, save_checked, post_link, dashboard_links,
}

if-ok :
    (b : Bool) (valid : Result (Unit {0})) (x : Exn)
    → (if b then valid else raise x) ≡ ok tt
    → (b ≡ true) × (valid ≡ ok tt)
if-ok true valid x h = (refl, h)
if-ok false valid x h = cc

scheme-web :
    (parts : SplitUrl)
    → is_web_url parts ≡ true
    → (parts.scheme ≡ "http") ⊎ (parts.scheme ≡ "https")
scheme-web parts h = elim (Bool-cases (parts.scheme == "http")) [
  | inl http ↦ inl ((eq_iff parts.scheme "http").0 http)
  | inr other ↦ inr ((eq_iff parts.scheme "https").0 (ground (arith, h, other)))
]

module _ (lib : UrlLibrary) where
  -- An address with a scheme of the web and a host, without credentials, that `URLValidator` takes.
  abbrev pub IsWebAddress : String → Type 0
  IsWebAddress url =
      (parts : SplitUrl) × (lib.urlsplit url ≡ ok parts)
      × ((parts.scheme ≡ "http") ⊎ (parts.scheme ≡ "https"))
      × (is_filled parts.hostname ≡ true)
      × (is_filled parts.username ≡ false)
      × (is_filled parts.password ≡ false)
      × (lib.url_error url ≡ none)

  validate-IsWebAddress : (url : String) → validate_dashboard_url lib url ≡ ok tt → IsWebAddress url
  unfolding validate_dashboard_url
  validate-IsWebAddress url e = by_parts (lib.urlsplit url) refl (lib.url_error url) refl e
    where
      by_parts :
          (r : Result SplitUrl)
          → lib.urlsplit url ≡ r
          → (error : Option String) → lib.url_error url ≡ error
          → check_parts r (no_error error) ≡ ok tt
          → IsWebAddress url
      by_parts (raise x) split error e h = cc
      by_parts (ok parts) split (some m) e h = let valid = (if-ok (is_web_url parts) _ _ h).1 in cc
      by_parts (ok parts) split none e h =
          let web = (if-ok (is_web_url parts) _ _ h).0 in
          (
            parts,
            split,
            scheme-web parts web,
            ground (arith, web),
            ground (arith, web),
            ground (arith, web),
            e,
          )

  -- A named link within the lengths of its columns, with an address of the web.
  pub record IsValid (l : DashboardLink) : Type 0 where
    pub named : is_blank l.name ≡ false
    pub name_length : text_length l.name ≤ 100
    pub description_length : text_length l.description ≤ 255
    pub category_length : text_length l.category ≤ 80
    pub address : IsWebAddress l.url

  write_link-IsValid :
      (v : LinkValues) (l : DashboardLink)
      → has_bad_fields v ≡ false
      → validate_dashboard_url lib v.url ≡ ok tt
      → IsValid (write_link v l)
  unfolding has_bad_fields
  write_link-IsValid v l h checked = record {
    named = ground (arith, h);
    name_length = ground (arith, h);
    description_length = ground (arith, h);
    category_length = ground (arith, h);
    address = validate-IsWebAddress v.url checked;
  }

  abbrev pub AllValid : Table DashboardLink → Type 0
  AllValid t = All IsValid t.rows

  abbrev Quiet : Exec State (Unit {0}) → Type 0
  Quiet m = Keeps AllValid Any m

  -- What follows the lookup of a link.
  found-Quiet :
      (found : Option DashboardLink) (k : DashboardLink → Exec State (Unit {0}))
      → ((l : DashboardLink) → Quiet (k l))
      → Quiet (or_raise found not_found >>= k)
  found-Quiet none k h = λ s g. (g, tt)
  found-Quiet (some l) k h = h l

  module _ (q : Request) where
    delete_link-Quiet : (id : Option ℕ) → Quiet (delete_link lib q id)
    unfolding delete_link
    delete_link-Quiet none = λ s h. (h, tt)
    delete_link-Quiet (some pk) = λ s h.
        found-Quiet (first (select (λ l. l.pk == pk) (s.target).rows)) _
          (λ link s h. (All-select IsValid (λ l. not (l.pk == link.pk)) (s.target).rows h, tt)) s h

    save_link-Quiet :
        (id : Option ℕ) (v : LinkValues)
        → has_bad_fields v ≡ false
        → validate_dashboard_url lib v.url ≡ ok tt
        → Quiet (save_link lib q id v)
    unfolding save_link
    save_link-Quiet none v fine checked = λ s h. (
      All-append IsValid (s.target).rows _ h
          (write_link-IsValid v (new_link lib q (s.target).next_pk) fine checked, tt),
      tt,
    )
    save_link-Quiet (some pk) v fine checked = λ s h.
        found-Quiet (first (select (λ l. l.pk == pk) (s.target).rows)) _
          (λ link s h. (
            All-update_where (λ l. l.pk == link.pk) (write_link v)
                (λ l _. write_link-IsValid v l fine checked) (s.target).rows h,
            tt,
          ))
          s h

    refuse_link-Quiet : (e : Exn) (m : Option String) → Quiet (refuse_link lib q e m)
    refuse_link-Quiet e none = λ s h. (h, tt)
    refuse_link-Quiet e (some message) = λ s h. (h, tt)

    save_checked-Quiet :
        (id : Option ℕ) (v : LinkValues) (r : Result (Unit {0}))
        → has_bad_fields v ≡ false
        → validate_dashboard_url lib v.url ≡ r
        → Quiet (save_checked lib q id v r)
    save_checked-Quiet id v (ok u) fine e = save_link-Quiet id v fine e
    save_checked-Quiet id v (raise x) fine e = refuse_link-Quiet x (validation_message x)

    post_link-Quiet : (form : LinkForm) (v : LinkValues) → Quiet (post_link lib q form v)
    unfolding post_link
    post_link-Quiet form v =
        Keeps-if AllValid Any (has_bad_fields v) _ _ (λ _ s h. (h, tt))
          (λ fine. save_checked-Quiet form.link_id v (validate_dashboard_url lib v.url) fine refl)

    -- No post to `dashboard_links`, by whomever and whatever it holds, leads to a link without a
    -- name, with a name, description or category that is too long for its column, or with an address
    -- that is not of the web or holds credentials, if there was none before.
    pub dashboard_links-AllValid :
        (form : LinkForm) (s : State)
        → AllValid s.target
        → AllValid (dashboard_links lib q form s).1.target
    unfolding dashboard_links
    dashboard_links-AllValid form s h =
        (Keeps-guard AllValid Any (q.user.is_active && (q.user.is_staff && q.user.is_superuser))
          permission_denied _
          (Keeps-if AllValid Any (given form.action "save" == "delete") _ _
            (λ _. delete_link-Quiet form.link_id) (λ _. post_link-Quiet form (read_link form)))
          s h).0
