-- ===== src/Tests/Reports.antt =====
-- The weekly report of one incident.
use healthgrid.Prelude.{
  Option, leb, if◌then◌else◌, ℕ, String, none, some, [], ◌∷◌, ◌≡◌, refl, length, show,
  insert_sorted, sorted, zero, suc, without_final,
}
use healthgrid.Prelude.Tables.Adds.{Adds}
use healthgrid.Models.Instances.{instance_label}
use healthgrid.Models.Settings.{NotificationSettings}
use healthgrid.Notifications.Csv.{write_row, utf8_length}
use healthgrid.Notifications.Webhooks.{post_webhook, is_plain_https, is_allowed_host, is_public}
use healthgrid.Notifications.Weekly.{
  ReportLibrary, ReportState, weekly_alerts, in_report, comes_before, csv_fields, csv_report,
  report_url, send_report_to_webhook, send_to_owners, send_weekly_reports,
}
use healthgrid.Notifications.Weekly.Sent.{IsReport, send_weekly_reports-IsReport}
use healthgrid.Tests.Data.{orders, settings, morning, one_lock, up}

abbrev times : ReportLibrary
times = record { local_time = λ t. "T"; file_time = λ t. "1"; sign = λ s. s; quote = λ s. s }

abbrev before : ReportState
before = record { reports = []; next_report = 1; sent = [] }

abbrev after : ReportState
after = (send_weekly_reports times up [] settings morning (orders ∷ []) one_lock before).1

send_weekly_reports-IsReport_example :
    Adds (IsReport times up [] settings morning (orders ∷ []) one_lock) [] (after.sent)
send_weekly_reports-IsReport_example =
    send_weekly_reports-IsReport times up [] settings morning (orders ∷ []) one_lock before

-- One report to the channel and one to the owner, although the instance is excluded from alerts.
two_reports : length (after.sent) ≡ 2
unfolding send_weekly_reports send_to_owners send_report_to_webhook weekly_alerts in_report
    comes_before sorted insert_sorted csv_report csv_fields report_url write_row utf8_length
    post_webhook is_plain_https is_allowed_host is_public instance_label show
two_reports = refl

-- A field with a quote and a comma.
quoted : write_row ("a" ∷ "b\"," ∷ []) ≡ "a,\"b\"\",\"\r\n"
unfolding write_row
quoted = refl

two_bytes : utf8_length "é\r" ≡ 3
unfolding utf8_length
two_bytes = refl

-- A signature that is good for seven days from the time 0.
abbrev unsign : ℕ → String → Option ℕ
unsign at token = if leb at 604800 then some 1 else none

abbrev linked : NotificationSettings
linked = record settings { report_base_url = "b/" }

-- The router of URLs "b/reports/weekly/…/"
abbrev last_chars : ℕ → String → String
last_chars zero s = s
last_chars (suc n) String.[] = ""
last_chars (suc n) (String.◌∷◌ c s) = last_chars n s

abbrev token_of : String → String
token_of url = without_final b'/' (last_chars 16 (last_chars 1 url))
