-- ===== src/Identity/Ascii.antt =====
-- `str.lower` on ASCII texts: a lower-casing that meets what the booth identity relies on.
use voxbento.Prelude.{
  ℕ, ◌+◌, ◌≡◌, refl, true, ◌&&◌, [], ◌∷◌, Text, leb, if◌then◌else◌, map, all, arith,
}
use voxbento.Identity.Plain.{LowerLaws, is_plain}

unfoldable pub lower_char : ℕ → ℕ
lower_char c = if leb b'A' c && leb c b'Z' then c + 32 else c

unfoldable pub ascii_lower : Text → Text
unfolding lower_char
ascii_lower = map lower_char

pub ascii_lower-LowerLaws : LowerLaws ascii_lower
unfolding ascii_lower
ascii_lower-LowerLaws = record { keeps_plain = keeps }
  where
    keeps : (s : Text) → all is_plain s ≡ true → map lower_char s ≡ s
    keeps [] h = refl
    keeps (c ∷ s) h = ground (arith, keeps s)
