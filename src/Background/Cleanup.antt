-- ===== src/Background/Cleanup.antt =====
-- The cleanup removes nothing that is still wanted.
use healthgrid.Prelude.{
  ℕ, ◌+◌, ◌<◌, Bool, true, false, Option, none, some, List, [], ◌∷◌, length, leb, ◌≡◌, refl, arith,
  Bool-cases, inl, inr, ◌*◌, ◌||◌, All, lt→ltb,
}
use healthgrid.Prelude.Tables.{select, delete_where, count_where}
use healthgrid.Prelude.Tables.Rows.{All-imp}
use healthgrid.Models.Settings.{NotificationSettings}
use healthgrid.Background.{
  is_old_alert, is_old_query, cleaned_recently, History, retention_days, resolved_before,
  is_expired, cleanup_monitor_history,
}

-- Rows that no deletion may touch are selected as before.
select-delete_where :
    {A : Type 0} (p q : A → Bool) (xs : List A)
    → ((x : A) → q x ≡ true → p x ≡ false)
    → select q (delete_where p xs) ≡ select q xs
select-delete_where p q [] apart = refl
select-delete_where p q (x ∷ xs) apart = ground (arith, apart x, select-delete_where p q xs apart)

length-delete_where :
    {A : Type 0} (p : A → Bool) (xs : List A)
    → length (delete_where p xs) + count_where p xs ≡ length xs
length-delete_where p [] = refl
length-delete_where p (x ∷ xs) = ground (arith, length-delete_where p xs)

-- Every row that a deletion leaves fails its test.
delete_where-All :
    {A : Type 0} (p : A → Bool) (xs : List A) → All (λ x. p x ≡ false) (delete_where p xs)
delete_where-All p [] = tt
delete_where-All p (x ∷ xs) = ground (arith, delete_where-All p xs)

-- An incident that is active, or was resolved within a day or within the configured days.
abbrev pub is_kept : ℕ → NotificationSettings → Option ℕ → Bool
is_kept now config none = true
is_kept now config (some resolved_at) =
    leb now (resolved_at + 86400)
    || leb now (resolved_at + config.resolved_alert_retention_days * 86400)

kept-apart :
    (now : ℕ) (config : NotificationSettings) (resolved : Option ℕ)
    → is_kept now config resolved ≡ true
    → resolved_before now (retention_days config) resolved ≡ false
kept-apart now config none k = refl
kept-apart now config (some at) k = ground arith

apart-kept :
    (now : ℕ) (config : NotificationSettings) (resolved : Option ℕ)
    → resolved_before now (retention_days config) resolved ≡ false
    → is_kept now config resolved ≡ true
apart-kept now config none k = refl
apart-kept now config (some at) k = ground arith

-- What a cleanup that runs leaves: nothing that is past its time.
pub record Current (now : ℕ) (config : NotificationSettings) (h : History) : Type 0 where
  pub alerts : All (λ a. is_kept now config a.resolved_at ≡ true) h.alerts
  pub queries : All (λ a. is_kept now config a.resolved_at ≡ true) h.long_queries
  pub reports : All (λ r. leb now r.expires_at ≡ true) h.reports

pub record Cleaned (now : ℕ) (h h' : History) (counts : ℕ × ℕ) : Type 0 where
  pub alerts :
      select (λ a. is_kept now h.config a.resolved_at) h'.alerts
      ≡ select (λ a. is_kept now h.config a.resolved_at) h.alerts
  pub queries :
      select (λ a. is_kept now h.config a.resolved_at) h'.long_queries
      ≡ select (λ a. is_kept now h.config a.resolved_at) h.long_queries
  pub reports :
      select (λ r. leb now r.expires_at) h'.reports ≡ select (λ r. leb now r.expires_at) h.reports
  pub incidents :
      length h'.alerts + length h'.long_queries + counts.0 ≡ length h.alerts + length h.long_queries
  pub expired : length h'.reports + counts.1 ≡ length h.reports

-- Whatever the configured retention, even 0 days, every incident and every tracked query that is
-- active, or was resolved within a day or within the configured days, survives a cleanup, and so
-- does every report that has not expired; and the counts returned are those of the rows removed.
-- A call with no cleanup in the last 24 hours leaves no other incident, query or report, and a call
-- within 24 hours of that one removes nothing.
pub cleanup_monitor_history-Cleaned :
    (now later : ℕ) (h : History)
    → let (counts, h') = cleanup_monitor_history now h in
      Cleaned now h h' counts
      × (cleaned_recently now h.config.last_cleanup_at ≡ false
          → Current now h.config h'
            × (later < now + 24 * 3600 → cleanup_monitor_history later h' ≡ ((0, 0), h')))
unfolding cleanup_monitor_history
cleanup_monitor_history-Cleaned now later h =
    elim (Bool-cases (cleaned_recently now h.config.last_cleanup_at)) [
      | inl recent ↦ rw recent (
        record {
          alerts = refl;
          queries = refl;
          reports = refl;
          incidents = omega arith;
          expired = omega arith;
        },
        λ stale. cc,
      )
      | inr due ↦ rw due (
        record {
          alerts =
              select-delete_where (is_old_alert now h.config) _ h.alerts
                (λ a. kept-apart now h.config a.resolved_at);
          queries =
              select-delete_where (is_old_query now h.config) _ h.long_queries
                (λ a. kept-apart now h.config a.resolved_at);
          reports = select-delete_where (is_expired now) _ h.reports (λ r k. ground arith);
          incidents = omega (
            arith,
            length-delete_where (is_old_alert now h.config) h.alerts,
            length-delete_where (is_old_query now h.config) h.long_queries,
          );
          expired = length-delete_where (is_expired now) h.reports;
        },
        λ _. (
          record {
            alerts =
                All-imp (λ a. apart-kept now h.config a.resolved_at) _
                  (delete_where-All (is_old_alert now h.config) h.alerts);
            queries =
                All-imp (λ a. apart-kept now h.config a.resolved_at) _
                  (delete_where-All (is_old_query now h.config) h.long_queries);
            reports = All-imp (λ r k. ground arith) _ (delete_where-All (is_expired now) h.reports);
          },
          λ soon. rw (lt→ltb later (now + 24 * 3600) soon) refl,
        ),
      )
    ]
