-- ===== src/Notifications/Weekly/Sent.antt =====
-- Where a weekly report may go, and what it holds.
use mathlib.Core.List.{append-nil, Memᴰ}
use healthgrid.Prelude.{
  ℕ, ◌≤◌, String, Bool, true, false, not, ◌&&◌, ◌||◌, Option, none, some, List, [], ◌∷◌, All,
  length, ltb, is_blank, is_empty, nat_eq, ◌≡◌, ◌⊎◌, inl, inr, refl, sym, ◌∙◌, arith, if◌then◌else◌,
  Bool-cases,
}
use healthgrid.Prelude.Tables.{delete_where}
use healthgrid.Prelude.Tables.Rows.{All-imp}
use healthgrid.Prelude.Tables.Adds.{Adds, Adds-none, Adds-trans}
use healthgrid.Notifications.Delivery.{succeeded}
use healthgrid.Results.{Result}
use healthgrid.Models.Alerts.{LockAlert}
use healthgrid.Models.Instances.{RdsInstance, instance_label}
use healthgrid.Models.Settings.{NotificationSettings}
use healthgrid.Notifications.Cards.{Payload, ReportCard, Request, weekly_report}
use healthgrid.Notifications.Csv.{utf8_length}
use healthgrid.Notifications.Webhooks.{Web, post_webhook}
use healthgrid.Notifications.Delivery.Sent.{IsSafe, Posted, post_webhook-Posted}
use healthgrid.Notifications.Weekly.Scope.{OfScope, weekly_alerts-OfScope}
use healthgrid.Prelude.Tables.Held.{select-held}
use healthgrid.Notifications.Weekly.{
  ReportLibrary, Incident, weekly_alerts, csv_report, report_url, ReportState,
  max_inline_report_bytes, store_report, report_payload, post_report, send_report_to_webhook,
  send_to_owners, owners, send_to_channel, send_weekly_reports,
}

module _ (lib : ReportLibrary) (web : Web) (allowed : List String) (config : NotificationSettings)
    (now : ℕ) where
  -- A report on the incidents of a scope: the CSV text itself, of at most 20 KB, or else a link.
  pub record Carries (scope : Option ℕ) (incidents : List Incident) (payload : Payload)
      : Type 0 where
    pub of_one_scope : OfScope scope incidents
    pub card : ReportCard
    pub is_report : payload ≡ weekly_report card
    pub counted : card.report_rows ≡ length incidents
    pub content :
        ((card.csv_content ≡ "") × (is_blank card.report_url ≡ false))
        ⊎ ((card.csv_content ≡ csv_report lib incidents) × (utf8_length card.csv_content ≤ 20480))

  post_report-Adds :
      (scope : Option ℕ) (label webhook_url url : String) (incidents : List Incident)
      (st : ReportState)
      → OfScope scope incidents
      → Adds
          (λ q.
            IsSafe web allowed q.url × ((q.url ≡ webhook_url) × Carries scope incidents q.payload))
          st.sent
          (post_report lib web allowed config now webhook_url label incidents
            (csv_report lib incidents)
            url
            st).1.sent
  unfolding Posted
  post_report-Adds scope label webhook_url url incidents st h =
      go (is_blank url && ltb max_inline_report_bytes (utf8_length csv)) refl
        (post_webhook-Posted web allowed webhook_url payload st.sent)
    where
      csv : String
      csv = csv_report lib incidents

      payload : Payload
      payload = report_payload lib web allowed config now label csv url (length incidents)

      posted : Result Bool × List Request
      posted = post_webhook web allowed webhook_url payload st.sent

      after : Bool → Bool × ReportState
      after b = if b then (false, st) else (succeeded posted.0, record st { sent = posted.1 })

      carries :
          (is_blank url && ltb max_inline_report_bytes (utf8_length csv)) ≡ false
          → Carries scope incidents payload
      carries fits = record {
        of_one_scope = h;
        card = _;
        is_report = refl;
        counted = refl;
        content = elim (Bool-cases (is_blank url)) [
          | inl inline ↦ rw inline (inr (refl, ground (arith, inline, fits)))
          | inr linked ↦ rw linked (inl (refl, refl))
        ];
      }

      go :
          (b : Bool)
          → (is_blank url && ltb max_inline_report_bytes (utf8_length csv)) ≡ b
          → Posted web allowed webhook_url payload st.sent posted
          → Adds
              (λ q.
                IsSafe web allowed q.url
                × ((q.url ≡ webhook_url) × Carries scope incidents q.payload))
              st.sent
              (after b).1.sent
      go true e p = Adds-none _ st.sent
      go false e (inl (safe, sent_one)) = (_ ∷ [], sent_one, ((safe, (refl, carries e)), tt))
      go false e (inr (kept, failed)) = ([], kept ∙ sym (append-nil st.sent), tt)

  module _ (scope : Option ℕ) (webhook_url : String) (incidents : List Incident) where
    abbrev ToOne : Request → Type 0
    ToOne q = IsSafe web allowed q.url × ((q.url ≡ webhook_url) × Carries scope incidents q.payload)

    -- One report goes to its webhook, if at all.
    send_report-Adds :
        (label : String) (st : ReportState)
        → OfScope scope incidents
        → Adds ToOne st.sent
            (send_report_to_webhook lib web allowed config now webhook_url label incidents
              st).1.sent
    unfolding send_report_to_webhook
    send_report-Adds label st h = go (is_blank webhook_url)
      where
        stored : ReportState
        stored = store_report lib web allowed config now (csv_report lib incidents) st

        url : String
        url = report_url lib st.next_report config.report_base_url

        after : Bool → Bool × ReportState
        after b =
            if b
            then (false, st)
            else post_report lib web allowed config now webhook_url label incidents
                (csv_report lib incidents) url stored

        go : (b : Bool) → Adds ToOne st.sent (after b).1.sent
        go true = Adds-none ToOne st.sent
        go false = post_report-Adds scope label webhook_url url incidents stored h

  module _ (instances : List RdsInstance) (alerts : List LockAlert) where
    abbrev pub incidents_of : Option ℕ → List Incident
    incidents_of scope = weekly_alerts now scope instances alerts

    -- A report to the shared channel, or to the owner of an active instance, on that instance only.
    abbrev pub IsReport : Request → Type 0
    IsReport q =
        IsSafe web allowed q.url
        × (((q.url ≡ config.channel_webhook_url) × Carries none (incidents_of none) q.payload)
            ⊎ ((r : RdsInstance) × Memᴰ r instances
                × (r.is_active ≡ true)
                × (q.url ≡ r.owner_teams_webhook_url)
                × Carries (some r.pk) (incidents_of (some r.pk)) q.payload))

    -- Who an owner's report may be for.
    abbrev IsOwner : RdsInstance → Type 0
    IsOwner r = Memᴰ r instances × (r.is_active ≡ true)

    owner-IsReport :
        (r : RdsInstance) (q : Request)
        → IsOwner r
        → ToOne (some r.pk) r.owner_teams_webhook_url (incidents_of (some r.pk)) q
        → IsReport q
    owner-IsReport r q (held, active) (safe, (e, carries)) =
        (safe, inr (r, held, active, e, carries))

    send_to_owners-Adds :
        (rs : List RdsInstance) (delivered : Bool) (st : ReportState)
        → All IsOwner rs
        → Adds IsReport st.sent
            (send_to_owners lib web allowed config now instances alerts rs delivered st).1.sent
    unfolding send_to_owners
    send_to_owners-Adds [] delivered st h = Adds-none IsReport st.sent
    send_to_owners-Adds (r ∷ rs) delivered st h =
        let incidents = weekly_alerts now (some r.pk) instances alerts in
        let one : Bool × ReportState =
          send_report_to_webhook lib web allowed config now r.owner_teams_webhook_url
            (instance_label r) incidents st in
        let (new, e, safe) =
          send_report-Adds (some r.pk) r.owner_teams_webhook_url incidents (instance_label r) st
            (weekly_alerts-OfScope now (some r.pk) instances alerts) in
        Adds-trans IsReport st.sent one.1.sent _
          (new, e, All-imp (λ q. owner-IsReport r q h.0) new safe)
          (send_to_owners-Adds rs (one.0 || delivered) one.1 h.1)

    channel-Adds :
        (st : ReportState)
        → Adds IsReport st.sent
            (send_to_channel lib web allowed config now
              (weekly_alerts now none instances alerts)
              st).1.sent
    channel-Adds st = go (not (is_blank config.channel_webhook_url) && not (is_empty incidents)) (
        send_report-Adds none config.channel_webhook_url incidents "All monitored databases" st
          (weekly_alerts-OfScope now none instances alerts))
      where
        incidents : List Incident
        incidents = weekly_alerts now none instances alerts

        one : Bool × ReportState
        one =
            send_report_to_webhook lib web allowed config now config.channel_webhook_url
              "All monitored databases" incidents st

        after : Bool → Bool × ReportState
        after b = if b then one else (false, st)

        go :
            (b : Bool)
            → Adds (ToOne none config.channel_webhook_url incidents) st.sent one.1.sent
            → Adds IsReport st.sent (after b).1.sent
        go true (new, e, safe) = (new, e, All-imp (λ q h. (h.0, inl (h.1.0, h.1.1))) new safe)
        go false sent = Adds-none IsReport st.sent

    -- Whatever the network answers, every request that a weekly run adds goes to a destination that
    -- passes the guard. It is a report on all incidents of the week to the shared channel, or one on
    -- those of an active instance, and of no other, to its owner. It carries the CSV text of its
    -- incidents, of at most 20480 bytes, or else no text and a link.
    pub send_weekly_reports-IsReport :
        (st : ReportState)
        → Adds IsReport st.sent
            (send_weekly_reports lib web allowed config now instances alerts st).1.sent
    unfolding send_weekly_reports
    send_weekly_reports-IsReport st =
        let kept : ReportState = record st {
          reports = delete_where (λ r. ltb r.expires_at now) st.reports;
        } in
        let channel : Bool × ReportState =
          send_to_channel lib web allowed config now (weekly_alerts now none instances alerts)
            kept in
        Adds-trans IsReport st.sent channel.1.sent _ (channel-Adds kept) (
          send_to_owners-Adds (owners lib web allowed config now instances) channel.0 channel.1 (
            All-imp (λ r h. (h.0, ground (arith, h.1)))
              (owners lib web allowed config now instances) (select-held _ instances)))
