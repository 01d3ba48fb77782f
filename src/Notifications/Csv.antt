-- ===== src/Notifications/Csv.antt =====
-- Python's `csv.writer` with its defaults, and the length of a text in UTF-8, as `_csv_report` and
-- `_send_report_to_webhook` of notifications.py use them.
use healthgrid.Prelude.{
  ℕ, ◌+◌, String, Bool, false, ◌||◌, List, [], ◌∷◌, ◌<>◌, ltb, nat_beq, if◌then◌else◌,
}
use Prim.Native.Char.{code}

-- A field that `csv.writer` has to quote, and its quotes doubled.
abbrev is_special : ℕ → Bool
is_special c = nat_beq c 44 || (nat_beq c 34 || (nat_beq c 10 || nat_beq c 13))

abbrev needs_quotes : String → Bool
needs_quotes String.[] = false
needs_quotes (String.◌∷◌ c s) = is_special (code c) || needs_quotes s

abbrev doubled : String → String
doubled String.[] = ""
doubled (String.◌∷◌ c s) =
    let rest = doubled s in String.◌∷◌ c (if nat_beq (code c) 34 then "\"" <> rest else rest)

abbrev csv_field : String → String
csv_field text = if needs_quotes text then "\"" <> (doubled text <> "\"") else text

abbrev joined : List String → String
joined [] = "\r\n"
joined (f ∷ []) = csv_field f <> "\r\n"
joined (f ∷ g ∷ fs) = csv_field f <> ("," <> joined (g ∷ fs))

-- `writer.writerow(fields)`
unfoldable pub write_row : List String → String
write_row fields = joined fields

-- The length of `csv_content.encode("utf-8")`
abbrev utf8_width : ℕ → ℕ
utf8_width c = if ltb c 128 then 1 else if ltb c 2048 then 2 else if ltb c 65536 then 3 else 4

unfoldable pub utf8_length : String → ℕ
utf8_length String.[] = 0
utf8_length (String.◌∷◌ c s) = utf8_width (code c) + utf8_length s
