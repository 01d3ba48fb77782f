-- ===== src/Serializers/Endpoint.antt =====
-- `mask_endpoint` of monitor/security.py, and the host in the representation of an instance.
use healthgrid.Prelude.{
  ℕ, ◌/◌, String, Bool, ◌&&◌, Option, none, some, List, [], ◌∷◌, ◌<>◌, all, is_blank, leb, ltb,
  strip, length, text_length, first_chars, split_at, join, if◌then◌else◌,
}
use healthgrid.Models.Accounts.{User}
use healthgrid.Models.Instances.{RdsInstance}

-- `s[-2:]`
abbrev pub last_two : String → String
last_two String.[] = ""
last_two (String.◌∷◌ c s) =
    let rest = last_two s in if leb 2 (text_length s) then rest else String.◌∷◌ c s

-- `min(5, max(2, n))`
abbrev pub clamped : ℕ → ℕ
clamped n = if ltb n 2 then 2 else if ltb 5 n then 5 else n

-- The branches on the number of labels.
abbrev pub mask_labels : (String → Bool) → String → List String → String
mask_labels isdigit value [] = "••••"
mask_labels isdigit value (one ∷ []) =
    if leb (text_length value) 4 then "••••" else first_chars 2 value <> ("••••" <> last_two value)
mask_labels isdigit value (first ∷ second ∷ rest) =
    if leb 2 (length rest) && all isdigit (first ∷ second ∷ rest)
    then join "." (first ∷ second ∷ "•••" ∷ "•••" ∷ [])
    else first_chars (clamped (text_length first / 2)) first
      <> ("••••" <> ("." <> join "." (second ∷ rest)))

-- `isdigit` is that of Python's texts.
unfoldable pub mask_endpoint : (String → Bool) → String → String
unfolding strip text_length first_chars
mask_endpoint isdigit value =
    if is_blank (strip value)
    then "—"
    else mask_labels isdigit (strip value) (split_at 46 (strip value))

-- `to_representation`: the host that the API shows
unfoldable pub shown_host : (String → Bool) → Option User → RdsInstance → String
unfolding mask_endpoint
shown_host isdigit none r = mask_endpoint isdigit r.host
shown_host isdigit (some u) r = if u.is_superuser then r.host else mask_endpoint isdigit r.host
