-- ===== src/Prelude/Text.antt =====
-- Texts: decimal numbers, joins, the order of code points, and `x or y` on optional texts.
use Prim.Native.Nat.{ℕ, zero, suc, ◌/◌, ◌%◌}
use Prim.Native.Char.{Char, code}
use Prim.Native.String.{String, ◌++◌}
use mathlib.Core.Bool.{Bool, true, false, ◌&&◌, ◌||◌}
use mathlib.Core.Option.{Option, none, some}
use mathlib.Core.List.{List, [], ◌∷◌}
use healthgrid.Prelude.Tests.{ltb, leb, nat_beq, ◌==◌, string_eq, if◌then◌else◌}

-- The truth value of a text.
abbrev pub is_blank : String → Bool
is_blank String.[] = true
is_blank (String.◌∷◌ c s) = false

-- `s or fallback` for a text that may be `None`.
abbrev pub or_text : Option String → String → String
or_text none fallback = fallback
or_text (some s) fallback = if is_blank s then fallback else s

abbrev digit : ℕ → Char
digit zero = "0"
digit (suc zero) = "1"
digit (suc (suc zero)) = "2"
digit (suc (suc (suc zero))) = "3"
digit (suc (suc (suc (suc zero)))) = "4"
digit (suc (suc (suc (suc (suc zero))))) = "5"
digit (suc (suc (suc (suc (suc (suc zero)))))) = "6"
digit (suc (suc (suc (suc (suc (suc (suc zero))))))) = "7"
digit (suc (suc (suc (suc (suc (suc (suc (suc zero)))))))) = "8"
digit (suc (suc (suc (suc (suc (suc (suc (suc (suc n))))))))) = "9"

digits_onto : ℕ → ℕ → String → String
digits_onto zero n acc = acc
digits_onto (suc fuel) n acc =
    let rest = digits_onto fuel (n / 10) (String.◌∷◌ (digit (n % 10)) acc) in
    if ltb n 10 then String.◌∷◌ (digit n) acc else rest

-- `str(n)`
unfoldable pub show : ℕ → String
unfolding digits_onto
show n = digits_onto (suc n) n ""

-- `sep.join(parts)`
abbrev pub join : String → List String → String
join sep [] = ""
join sep (s ∷ []) = s
join sep (s ∷ t ∷ rest) = s ++ (sep ++ join sep (t ∷ rest))

-- `s <= t`, by code points
abbrev pub leb_text : String → String → Bool
leb_text String.[] t = true
leb_text (String.◌∷◌ c s) String.[] = false
leb_text (String.◌∷◌ c s) (String.◌∷◌ d t) =
    let rest = leb_text s t in
    if ltb (code c) (code d) then true else if nat_beq (code c) (code d) then rest else false

-- `s.endswith(suffix)`
abbrev pub ends_with : String → String → Bool
ends_with suffix String.[] = is_blank suffix
ends_with suffix (String.◌∷◌ c s) =
    let rest = ends_with suffix s in if String.◌∷◌ c s == suffix then true else rest

-- Puts a character in front of the first part.
abbrev onto_first : Char → List String → List String
onto_first c [] = String.◌∷◌ c "" ∷ []
onto_first c (s ∷ rest) = String.◌∷◌ c s ∷ rest

-- `s.split(sep)` for a separator of one character, given by its code
abbrev pub split_at : ℕ → String → List String
split_at sep String.[] = "" ∷ []
split_at sep (String.◌∷◌ c s) =
    if nat_beq (code c) sep then "" ∷ split_at sep s else onto_first c (split_at sep s)

-- `char in s`, for a character given by its code
abbrev pub has_char : ℕ → String → Bool
has_char c String.[] = false
has_char c (String.◌∷◌ d s) = nat_beq (code d) c || has_char c s

-- `s[:-1] if s.endswith(char) else s`
abbrev pub without_final : ℕ → String → String
without_final c String.[] = ""
without_final c (String.◌∷◌ d String.[]) = if nat_beq (code d) c then "" else String.◌∷◌ d ""
without_final c (String.◌∷◌ d (String.◌∷◌ e s)) = String.◌∷◌ d (without_final c (String.◌∷◌ e s))

-- `c.isspace()`: the code points that `str.strip` takes off
abbrev is_space : ℕ → Bool
is_space c =
    leb 9 c && leb c 13
    || (leb 28 c && leb c 32
        || (nat_beq c 133
            || (nat_beq c 160
                || (nat_beq c 5760
                    || (leb 8192 c && leb c 8202
                        || (nat_beq c 8232
                            || (nat_beq c 8233
                                || (nat_beq c 8239 || (nat_beq c 8287 || nat_beq c 12288)))))))))

abbrev strip_left : String → String
strip_left String.[] = ""
strip_left (String.◌∷◌ c s) = if is_space (code c) then strip_left s else String.◌∷◌ c s

-- Takes characters off the end, by a test of their codes.
abbrev pub strip_right : (ℕ → Bool) → String → String
strip_right p String.[] = ""
strip_right p (String.◌∷◌ c s) =
    let rest = strip_right p s in if is_blank rest && p (code c) then "" else String.◌∷◌ c rest

-- `s.strip()`
unfoldable pub strip : String → String
strip s = strip_right is_space (strip_left s)

-- `len(s)`, in code points
unfoldable pub text_length : String → ℕ
text_length String.[] = 0
text_length (String.◌∷◌ c s) = suc (text_length s)

-- `s[:n]`
unfoldable pub first_chars : ℕ → String → String
first_chars zero s = ""
first_chars (suc n) String.[] = ""
first_chars (suc n) (String.◌∷◌ c s) = String.◌∷◌ c (first_chars n s)
