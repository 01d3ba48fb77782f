-- ===== src/Monitor/Keys.antt =====
-- `lock_key` of monitor_locks.py, and the collapse of catalog rows that describe one PID pair.
pub mod Collapse
use healthgrid.Prelude.{
  ℕ, String, Bool, true, Option, none, some, List, [], ◌∷◌, ℤ, pos, ◌<>◌, show, ltb_ℤ, string_eq,
  if◌then◌else◌,
}
use healthgrid.Prelude.Dict.{Dict, get, put}
use healthgrid.Models.Alerts.{BlockingRow}

-- `f"{pid}"`
unfoldable pub pid_text : Option ℕ → String
pid_text none = "None"
pid_text (some n) = show n

unfoldable pub lock_key : BlockingRow → String
unfolding pid_text
lock_key row = pid_text row.blocked_pid <> (":" <> pid_text row.blocking_pid)

-- `int(row.get("waiting_seconds") or 0)`
abbrev pub int_or_zero : Option ℤ → ℤ
int_or_zero none = pos 0
int_or_zero (some n) = n

-- `current is None or int(…) > int(…)`
abbrev pub is_longer : BlockingRow → Option BlockingRow → Bool
is_longer row none = true
is_longer row (some current) =
    ltb_ℤ (int_or_zero current.waiting_seconds) (int_or_zero row.waiting_seconds)

-- The loop of `process_instance` that keeps one row for each PID pair, the longest wait.
unfoldable pub collapse_onto : Dict String BlockingRow → List BlockingRow → Dict String BlockingRow
unfolding lock_key
collapse_onto d [] = d
collapse_onto d (row ∷ rows) =
    let key = lock_key row in
    collapse_onto (if is_longer row (get key d) then put key row d else d) rows

unfoldable pub collapse : List BlockingRow → Dict String BlockingRow
unfolding collapse_onto
collapse rows = collapse_onto [] rows
