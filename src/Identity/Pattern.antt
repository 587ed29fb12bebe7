-- ===== src/Identity/Pattern.antt =====
-- The regular expressions of portal/booth_identity.py as functions on code points, and the string
-- methods that the module splits with. Each text that is matched has been stripped, so that it has
-- no final newline, before which `$` would match too.
use Prim.Native.Nat.{suc}
use voxbento.Prelude.{
  ℕ, zero, ◌+◌, ◌-◌, ◌*◌, ◌/◌, ◌%◌, Bool, false, ◌&&◌, ◌||◌, not, Option, none, some, List, [], ◌∷◌,
  ◌++◌, Text, codes, leb, ltb, nat_eq, text_eq, if◌then◌else◌, all, is_empty, length, Result, ok,
  err, value_error,
}

abbrev pub hyphen : ℕ
hyphen = b'-'

abbrev pub slash : ℕ
slash = b'/'

abbrev pub is_digit : ℕ → Bool
is_digit c = leb b'0' c && leb c b'9'

abbrev pub is_letter : ℕ → Bool
is_letter c = leb b'a' c && leb c b'z'

abbrev pub is_slug_char : ℕ → Bool
is_slug_char c = is_letter c || is_digit c

-- `(?:-[a-z0-9]+)*$` after a character, or `[a-z0-9]+(?:-[a-z0-9]+)*$` after none.
unfoldable pub slug_from : Bool → Text → Bool
slug_from after_char [] = after_char
slug_from after_char (c ∷ s) =
    (is_slug_char c || (nat_eq c hyphen && after_char)) && slug_from (is_slug_char c) s

-- `^[a-z0-9]+(?:-[a-z0-9]+)*$`
unfoldable pub matches_slug : Text → Bool
unfolding slug_from
matches_slug s = slug_from false s

-- `^[a-z]{2}$`
unfoldable pub matches_language : Text → Bool
matches_language (a ∷ b ∷ []) = is_letter a && is_letter b
matches_language _ = false

-- `[0-9]+`
unfoldable pub matches_digits : Text → Bool
matches_digits s = not (is_empty s) && all is_digit s

-- `s.rsplit(sep, 1)`, if `sep` occurs.
unfoldable pub rsplit_once : ℕ → Text → Option (Text × Text)
rsplit_once sep [] = none
rsplit_once sep (c ∷ s) = elim (rsplit_once sep s) [
  | some (a, b) ↦ some (c ∷ a, b)
  | none ↦ if nat_eq c sep then some ([], s) else none
]

-- `s.rsplit(sep, 2)`, if that has three parts.
unfoldable pub rsplit_twice : ℕ → Text → Option (Text × Text × Text)
unfolding rsplit_once
rsplit_twice sep s = elim (rsplit_once sep s) [
  | none ↦ none
  | some (ab, c) ↦ elim (rsplit_once sep ab) [ none ↦ none | some (a, b) ↦ some (a, b, c) ]
]

-- `^[a-z0-9]+(?:-[a-z0-9]+)*-[0-9]+-(?:[a-z]{2}|floor)$`: the last two groups hold no hyphen, so
-- they are what the last two hyphens part off.
unfoldable pub matches_booth_id : Text → Bool
matches_booth_id s = elim (rsplit_twice hyphen s) [
  | none ↦ false
  | some (slug, room, code) ↦
      matches_slug slug
      && matches_digits room
      && (matches_language code || text_eq code (codes "floor"))
]

-- `s.split(sep)`
unfoldable pub split : ℕ → Text → List Text
split sep [] = [] ∷ []
split sep (c ∷ s) = elim (split sep s) [
  | [] ↦ []
  | w ∷ ws ↦ if nat_eq c sep then [] ∷ w ∷ ws else (c ∷ w) ∷ ws
]

-- `sys.get_int_max_str_digits()`
abbrev pub max_digits : ℕ
max_digits = 4300

-- Decimal digits, with fuel above the number.
unfoldable pub decimal : ℕ → ℕ → Text
decimal zero n = []
decimal (suc fuel) n =
    let rest = decimal fuel (n / 10) in
    if ltb n 10 then (b'0' + n) ∷ [] else rest ++ (b'0' + n % 10) ∷ []

-- `str(n)`, without its limit.
unfoldable pub digits : ℕ → Text
unfolding decimal
digits n = decimal (suc n) n

unfoldable pub value_of : ℕ → Text → ℕ
value_of acc [] = acc
value_of acc (c ∷ s) = value_of (acc * 10 + (c - b'0')) s

-- `str(n)`: past the limit on digits it raises.
unfoldable pub str : ℕ → Result Text
unfolding digits
str n =
    if leb (length (digits n)) max_digits
    then ok (digits n)
    else err (value_error "Exceeds the limit for integer string conversion")

-- `int(s)` of decimal digits, with the same limit.
unfoldable pub int : Text → Result ℕ
unfolding value_of
int s =
    if leb (length s) max_digits
    then ok (value_of 0 s)
    else err (value_error "Exceeds the limit for integer string conversion")
