-- ===== src/Identity/RoundTrip.antt =====
-- Building an ID and taking it apart: portal/booth_identity.py.
use mathlib.Core.List.{append_assoc}
use voxbento.Prelude.{
  ℕ, ◌≡◌, refl, ◌∙◌, ap, ◌≤◌, true, false, some, ◌∷◌, ◌++◌, Text, codes, text_eq_iff, nat_eq, any,
  all, length, ok, >>=-eq-ok, arith,
}
use voxbento.Identity.Pattern.{
  hyphen, is_digit, matches_slug, matches_digits, matches_booth_id, rsplit_twice, digits, str, int,
  max_digits,
}
use voxbento.Identity.Plain.{
  LowerLaws, is_plain, all-append, slug_plain, digits_without, digits_plain, language_without,
  rsplit_once-append,
}
use voxbento.Identity.Decimal.{value_of-digits, all-digits, matches_digits-digits}
use voxbento.Identity.Normal.{
  IsSlug, is_language, is_language_plain, validate_event_slug-IsSlug,
  validate_language_code-is_language, normal_plain, validate_event_slug_normal,
  validate_language_code_normal,
}
use voxbento.Identity.{
  RoomValue, nonneg, validate_room_id, validate_event_slug, validate_language_code, join_three,
  make_booth_id, parse_booth_id,
}

-- The three coordinates that a call of `make_booth_id` went on with.
pub record Made (lower : Text → Text) (event_slug : Text) (room_id : RoomValue)
    (language_code : Text) (slug : Text) (room : ℕ) (code : Text) : Type 0 where
  pub slug_valid : validate_event_slug lower event_slug ≡ ok slug
  pub room_valid : validate_room_id room_id ≡ ok room
  pub code_valid : validate_language_code lower language_code ≡ ok code
  pub fits : length (digits room) ≤ max_digits

pub str_fits : (n : ℕ) → length (digits n) ≤ max_digits → str n ≡ ok (digits n)
unfolding str
str_fits n h = ground arith

str_ok : (n : ℕ) {t : Text} → str n ≡ ok t → (t ≡ digits n) × (length (digits n) ≤ max_digits)
unfolding str
str_ok n h = ground arith

pub int-digits : (n : ℕ) → length (digits n) ≤ max_digits → int (digits n) ≡ ok n
unfolding int
int-digits n h = ground (arith, value_of-digits n)

language_no_hyphen : (c : Text) → is_language c ≡ true → any (λ x. nat_eq x hyphen) c ≡ false
language_no_hyphen c h = ground (arith, text_eq_iff c (codes "floor"), language_without c)

rsplit_twice_join :
    (slug room code : Text)
    → all is_digit room ≡ true
    → is_language code ≡ true
    → rsplit_twice hyphen (join_three hyphen slug room code) ≡ some (slug, room, code)
unfolding rsplit_twice
rsplit_twice_join slug room code hr hc = rw (← append_assoc slug (hyphen ∷ room) (hyphen ∷ code)) (
    rw
      (
        rsplit_twice,
        rsplit_once-append hyphen (slug ++ (hyphen ∷ room)) code (language_no_hyphen code hc),
      )
      (rw (rsplit_once-append hyphen slug room (digits_without hyphen refl room hr))))

matches_join :
    (slug room code : Text)
    → matches_slug slug ≡ true
    → matches_digits room ≡ true
    → is_language code ≡ true
    → matches_booth_id (join_three hyphen slug room code) ≡ true
unfolding matches_booth_id
matches_join slug room code hs hr hc =
    ground (arith, rsplit_twice_join slug room code (digits_of room hr) hc)
  where
    digits_of : (s : Text) → matches_digits s ≡ true → all is_digit s ≡ true
    digits_of s h = unfold matches_digits in ground arith

join_three_plain :
    (a b c : Text)
    → all is_plain a ≡ true
    → all is_plain b ≡ true
    → all is_plain c ≡ true
    → all is_plain (join_three hyphen a b c) ≡ true
join_three_plain a b c ha hb hc = ground (
  arith,
  all-append is_plain a (hyphen ∷ (b ++ (hyphen ∷ c))),
  all-append is_plain b (hyphen ∷ c),
)

module _ (lower : Text → Text) (laws : LowerLaws lower) where
  pub make_booth_id-Made :
      (event_slug : Text) (room_id : RoomValue) (language_code : Text) {id : Text}
      → make_booth_id lower event_slug room_id language_code ≡ ok id
      → (slug : Text) × (room : ℕ) × (code : Text) × Made lower event_slug room_id language_code
          slug room code
        × (id ≡ join_three hyphen slug (digits room) code)
  unfolding make_booth_id
  make_booth_id-Made event_slug room_id language_code h =
      let (slug, hs, h1) = >>=-eq-ok (validate_event_slug lower event_slug) _ h in
      let (room, hr, h2) = >>=-eq-ok (validate_room_id room_id) _ h1 in
      let (code, hc, h3) = >>=-eq-ok (validate_language_code lower language_code) _ h2 in
      let (t, ht, e) = >>=-eq-ok (str room) _ h3 in
      (
        slug,
        room,
        code,
        record { slug_valid = hs; room_valid = hr; code_valid = hc; fits = (str_ok room ht).1 },
        ground (arith, str_ok room ht, e),
      )

  pub parse-join :
      (slug : Text) (room : ℕ) (code : Text)
      → IsSlug slug
      → length (digits room) ≤ max_digits
      → is_language code ≡ true
      → parse_booth_id lower (join_three hyphen slug (digits room) code) ≡ ok (slug, room, code)
  unfolding parse_booth_id
  parse-join slug room code hs hr hc =
      rw
        (normal_plain lower laws (join_three hyphen slug (digits room) code) (
          join_three_plain slug (digits room) code (slug_plain slug hs.matched)
            (digits_plain (digits room) (all-digits room)) (is_language_plain code hc)))
        (rw
          (
            matches_join slug (digits room) code hs.matched (matches_digits-digits room) hc,
            rsplit_twice_join slug (digits room) code (all-digits room) hc,
          )
          (rw (
            int-digits room hr,
            validate_event_slug_normal lower laws slug hs,
            validate_language_code_normal lower laws code hc,
          )))

-- Building an ID and parsing it gives back the coordinates in their validated form, for every slug,
-- room ID and language code that `make_booth_id` accepts.
pub parse-make_booth_id :
    (lower : Text → Text) (laws : LowerLaws lower) (event_slug : Text) (room_id : RoomValue)
    (language_code : Text) (id : Text)
    → make_booth_id lower event_slug room_id language_code ≡ ok id
    → (slug : Text) × (room : ℕ) × (code : Text) × Made lower event_slug room_id language_code slug
        room code
      × (parse_booth_id lower id ≡ ok (slug, room, code))
parse-make_booth_id lower laws event_slug room_id language_code id h =
    let (slug, room, code, m, e) =
      make_booth_id-Made lower laws event_slug room_id language_code h in
    (
      slug,
      room,
      code,
      m,
      ap (parse_booth_id lower) e
          ∙ (parse-join lower laws slug room code
              (validate_event_slug-IsSlug lower event_slug m.slug_valid) m.fits
              (validate_language_code-is_language lower language_code m.code_valid)),
    )

-- Two bookings share an ID only if their validated slug, room and language code agree.
pub make_booth_id_injective :
    (lower : Text → Text) (laws : LowerLaws lower) (slug slug' : Text) (room room' : ℕ)
    (code code' : Text) (id : Text)
    → make_booth_id lower slug (nonneg room) code ≡ ok id
    → make_booth_id lower slug' (nonneg room') code' ≡ ok id
    → (validate_event_slug lower slug ≡ validate_event_slug lower slug')
      × (room ≡ room')
      × (validate_language_code lower code ≡ validate_language_code lower code')
unfolding validate_room_id
make_booth_id_injective lower laws slug slug' room room' code code' id h h' =
    let (s, r, c, m, p) = parse-make_booth_id lower laws slug (nonneg room) code id h in
    let (s', r', c', m', p') = parse-make_booth_id lower laws slug' (nonneg room') code' id h' in
    ground (arith, m, m')
