-- ===== src/Background/Weekly.antt =====
-- The weekly report goes out once a week.
use healthgrid.Prelude.{
  ℕ, Bool, true, false, some, nat_eq, ◌≡◌, refl, arith, Bool-cases, inl, inr, sym, nat_beq_iff,
}
use healthgrid.Models.Settings.{NotificationSettings}
use healthgrid.Background.{iso_week, is_report_due, maybe_send_weekly_report}

-- A report that was sent this week is not due.
not_due :
    (now other : ℕ) (config : NotificationSettings)
    → iso_week other ≡ iso_week now
    → is_report_due (record config { last_weekly_report_at = some now }) other ≡ false
unfolding is_report_due
not_due now other config same =
    ground (arith, (nat_beq_iff (iso_week now) (iso_week other)).1 (sym same))

module _ {S : Type 0} (send : ℕ → S → Bool × S) where
  -- Once a call has delivered the report, no later or earlier call in the same week sends anything:
  -- it answers False and leaves configuration and state as they are. A call that does not deliver
  -- leaves the configuration unchanged, so that the next one is due just the same.
  pub maybe_send_weekly_report-once :
      (now other : ℕ) (config : NotificationSettings) (s : S)
      → let (delivered, config', s') = maybe_send_weekly_report send now config s in
        (delivered ≡ true
          → iso_week other ≡ iso_week now
          → maybe_send_weekly_report send other config' s' ≡ (false, config', s'))
        × (delivered ≡ false → config' ≡ config)
  unfolding maybe_send_weekly_report
  maybe_send_weekly_report-once now other config s = elim (Bool-cases (is_report_due config now)) [
    | inr late ↦ rw late ((λ h. cc), λ _. refl)
    | inl due ↦ elim (Bool-cases (send now s).0) [
      | inr lost ↦ rw (due, lost) ((λ h. cc), λ _. refl)
      | inl sent ↦ rw (due, sent) ((λ _ same. rw (not_due now other config same) refl), λ h. cc)
    ]
  ]
