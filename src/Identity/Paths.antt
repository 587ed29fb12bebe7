-- ===== src/Identity/Paths.antt =====
-- Stream paths and booth IDs: portal/booth_identity.py.
use mathlib.Core.List.{append_assoc}
use voxbento.Prelude.{
  ℕ, ◌≡◌, refl, ◌∙◌, sym, ap, ◌≤◌, true, false, some, [], ◌∷◌, ◌++◌, Text, text_eq, nat_eq, any,
  all, is_empty, length, strip, strip_of, is_space, ok, arith,
}
use voxbento.Identity.Pattern.{hyphen, slash, is_digit, matches_language, split, digits, max_digits}
use voxbento.Identity.Plain.{
  LowerLaws, is_plain, strip_of_ends, plain_no_space, slug_plain, plain_without, digits_plain,
  split_three,
}
use voxbento.Identity.Decimal.{all-digits, matches_digits-digits}
use voxbento.Identity.Normal.{
  IsSlug, is_language, is_language_plain, validate_event_slug-IsSlug,
  validate_language_code-is_language, validate_event_slug_normal, validate_language_code_normal,
}
use voxbento.Identity.RoundTrip.{Made, str_fits, int-digits, make_booth_id-Made, parse-join}
use voxbento.Identity.{
  RoomValue, validate_room_id, join_three, make_booth_id, make_mediamtx_path,
  booth_id_to_mediamtx_path, mediamtx_path_to_booth_id, room_id_or_none, str_or_none,
}

nonempty_language : (c : Text) → is_language c ≡ true → is_empty c ≡ false
unfolding matches_language text_eq
nonempty_language [] h = cc
nonempty_language (x ∷ c) h = refl

-- The path that is made of three coordinates is stripped of nothing and falls into them again.
split_path :
    (slug room code : Text)
    → IsSlug slug
    → all is_digit room ≡ true
    → is_language code ≡ true
    → split slash (strip_of (λ c. nat_eq c slash) (strip (join_three slash slug room code)))
      ≡ slug ∷ room ∷ code ∷ []
unfolding strip
split_path slug room code hs hr hc =
    let slug_ok = slug_plain slug hs.matched in
    let code_ok = is_language_plain code hc in
    let middle : Text = slash ∷ (room ++ slash ∷ []) in
    let shape : join_three slash slug room code ≡ slug ++ (middle ++ code) =
      rw (append_assoc room (slash ∷ []) code) in
    let free : (s : Text) → all is_plain s ≡ true → any (λ c. nat_eq c slash) s ≡ false =
      plain_without slash refl in
    rw shape (
      rw
        (strip_of_ends is_space slug middle code hs.nonempty (plain_no_space slug slug_ok)
          (nonempty_language code hc) (plain_no_space code code_ok))
        (rw
          (strip_of_ends (λ c. nat_eq c slash) slug middle code hs.nonempty (free slug slug_ok)
            (nonempty_language code hc) (free code code_ok))
          (rw (← shape) (
            split_three slash slug room code (free slug slug_ok) (free room (digits_plain room hr))
              (free code code_ok)))))

module _ (lower : Text → Text) (laws : LowerLaws lower) (slug : Text) (room : ℕ) (code : Text)
    (hs : IsSlug slug) (hr : length (digits room) ≤ max_digits) (hc : is_language code ≡ true) where
  to_path :
      booth_id_to_mediamtx_path lower (join_three hyphen slug (digits room) code)
      ≡ ok (join_three slash slug (digits room) code)
  unfolding booth_id_to_mediamtx_path
  to_path = ground (arith, parse-join lower laws slug room code hs hr hc, str_fits room hr)

  from_path :
      mediamtx_path_to_booth_id lower (join_three slash slug (digits room) code)
      ≡ ok (join_three hyphen slug (digits room) code)
  unfolding mediamtx_path_to_booth_id validate_room_id
  from_path = rw (split_path slug (digits room) code hs (all-digits room) hc) (
      ground (
        arith,
        validate_event_slug_normal lower laws slug hs,
        matches_digits-digits room,
        int-digits room hr,
        validate_language_code_normal lower laws code hc,
        str_fits room hr,
      ))

make_path :
    (lower : Text → Text) (event_slug : Text) (room_id : RoomValue) (language_code slug : Text)
    (room : ℕ) (code : Text)
    → Made lower event_slug room_id language_code slug room code
    → make_mediamtx_path lower event_slug (some room_id) language_code
      ≡ ok (join_three slash slug (digits room) code)
unfolding make_mediamtx_path room_id_or_none str_or_none
make_path lower event_slug room_id language_code slug room code m =
    ground (arith, str_fits room m.fits, m)

-- The stream path of a booth ID is the one that is built from the same coordinates, and the path
-- leads back to the ID.
pub booth_id_mediamtx_path :
    (lower : Text → Text) (laws : LowerLaws lower) (event_slug : Text) (room_id : RoomValue)
    (language_code : Text) (id : Text)
    → make_booth_id lower event_slug room_id language_code ≡ ok id
    → (path : Text) × (make_mediamtx_path lower event_slug (some room_id) language_code ≡ ok path)
      × (booth_id_to_mediamtx_path lower id ≡ ok path)
      × (mediamtx_path_to_booth_id lower path ≡ ok id)
booth_id_mediamtx_path lower laws event_slug room_id language_code id h =
    let (slug, room, code, m, e) =
      make_booth_id-Made lower laws event_slug room_id language_code h in
    let hs = validate_event_slug-IsSlug lower event_slug m.slug_valid in
    let hc = validate_language_code-is_language lower language_code m.code_valid in
    (
      join_three slash slug (digits room) code,
      make_path lower event_slug room_id language_code slug room code m,
      ap (booth_id_to_mediamtx_path lower) e ∙ to_path lower laws slug room code hs m.fits hc,
      from_path lower laws slug room code hs m.fits hc ∙ ap ok (sym e),
    )
