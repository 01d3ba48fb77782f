-- ===== src/Tests/Links.antt =====
-- The links to other dashboards: one is added.
use healthgrid.Prelude.{pos, true, none, some, [], ◌≡◌, refl, strip, text_length}
use healthgrid.Results.{ok}
use healthgrid.Models.Alerts.{empty_table}
use healthgrid.Mfa.{empty_session}
use healthgrid.Views.Links.{
  State, LinkForm, UrlLibrary, read_link, has_bad_fields, validate_dashboard_url, save_link,
  post_link, dashboard_links,
}
use healthgrid.Views.Links.Valid.{AllValid, dashboard_links-AllValid}
use healthgrid.Tests.Registry.{administrator}

-- A stand-in that takes every text for the host of an HTTPS address.
abbrev urls : UrlLibrary
urls = record {
  urlsplit = λ url.
      ok (record { scheme = "https"; hostname = some url; username = none; password = none });
  url_error = λ url. none;
}

abbrev before : State
before = record {
  target = empty_table;
  locks = empty_table;
  audit_logs = [];
  executions = [];
  next_execution = 1;
  session = empty_session;
  profile = none;
  messages = [];
}

abbrev form : LinkForm
form = record {
  action = none;
  link_id = none;
  name = " Grafana ";
  url = "https://grafana";
  description = "";
  category = "";
  sort_order = some (pos 1);
  is_active = true;
}

abbrev after : State
after = (dashboard_links urls administrator form before).1

dashboard_links-AllValid_example : AllValid urls (after.target)
dashboard_links-AllValid_example = dashboard_links-AllValid urls administrator form before tt

next_key : (after.target).next_pk ≡ 2
unfolding dashboard_links post_link read_link has_bad_fields validate_dashboard_url save_link strip
    text_length
next_key = refl
