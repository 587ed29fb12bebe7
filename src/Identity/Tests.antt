-- ===== src/Identity/Tests.antt =====
-- Runs and witnesses for portal/booth_identity.py, with `str.lower` on ASCII.
use voxbento.Prelude.{ℕ, ◌≡◌, refl, some, Text, codes, text_eq, strip, ok}
use voxbento.Identity.Pattern.{
  matches_digits, matches_slug, matches_language, matches_booth_id, rsplit_twice, str, int,
}
use voxbento.Identity.Languages.{is_iso_639_1}
use voxbento.Identity.Ascii.{ascii_lower, ascii_lower-LowerLaws}
use voxbento.Identity.{
  nonneg, validate_event_slug, make_booth_id, make_mediamtx_path, parse_booth_id, validate_room_id,
  booth_id_to_mediamtx_path, mediamtx_path_to_booth_id, validate_language_code,
}
use voxbento.Identity.RoundTrip.{Made, parse-make_booth_id, make_booth_id_injective}
use voxbento.Identity.Paths.{booth_id_mediamtx_path}

pycon :
    make_booth_id ascii_lower (codes " PyCon2026 ") (nonneg 14) (codes "EN")
    ≡ ok (codes "pycon2026-14-en")
unfolding make_booth_id validate_event_slug validate_language_code validate_room_id ascii_lower
    strip str matches_slug matches_language is_iso_639_1 text_eq
pycon = refl

parse_zeros :
    parse_booth_id ascii_lower (codes "a-b-007-floor") ≡ ok (codes "a-b", 7, codes "floor")
unfolding parse_booth_id validate_event_slug validate_language_code ascii_lower strip int
    matches_booth_id rsplit_twice matches_digits matches_slug matches_language text_eq
parse_zeros = refl

parse-make_booth_id_example :
    (slug : Text) × (room : ℕ) × (code : Text) × Made ascii_lower
      (codes " PyCon2026 ")
      (nonneg 14)
      (codes "EN")
      slug
      room
      code
    × (parse_booth_id ascii_lower (codes "pycon2026-14-en") ≡ ok (slug, room, code))
parse-make_booth_id_example =
    parse-make_booth_id ascii_lower ascii_lower-LowerLaws (codes " PyCon2026 ") (nonneg 14)
      (codes "EN") (codes "pycon2026-14-en") pycon

make_booth_id_injective_example :
    (validate_event_slug ascii_lower (codes " PyCon2026 ")
      ≡ validate_event_slug ascii_lower (codes " PyCon2026 "))
    × (◌≡◌ {A = ℕ} 14 14)
    × (validate_language_code ascii_lower (codes "EN")
        ≡ validate_language_code ascii_lower (codes "EN"))
make_booth_id_injective_example =
    make_booth_id_injective ascii_lower ascii_lower-LowerLaws (codes " PyCon2026 ")
      (codes " PyCon2026 ") 14 14 (codes "EN") (codes "EN") (codes "pycon2026-14-en") pycon pycon

booth_id_mediamtx_path_example :
    (path : Text) × (make_mediamtx_path ascii_lower
        (codes " PyCon2026 ")
        (some (nonneg 14))
        (codes "EN")
      ≡ ok path)
    × (booth_id_to_mediamtx_path ascii_lower (codes "pycon2026-14-en") ≡ ok path)
    × (mediamtx_path_to_booth_id ascii_lower path ≡ ok (codes "pycon2026-14-en"))
booth_id_mediamtx_path_example =
    booth_id_mediamtx_path ascii_lower ascii_lower-LowerLaws (codes " PyCon2026 ") (nonneg 14)
      (codes "EN") (codes "pycon2026-14-en") pycon
