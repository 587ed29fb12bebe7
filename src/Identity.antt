-- ===== src/Identity.antt =====
-- portal/booth_identity.py: booth IDs `{event_slug}-{room_id}-{language_code}` and MediaMTX paths
-- `{event_slug}/{room_id}/{language_code}`. `lower` stands for `str.lower`, whose Unicode tables
-- are not modelled; what is relied on is in `Identity.Laws`. Messages stop at their first value.
pub mod Pattern
pub mod Languages
pub mod Plain
pub mod Decimal
pub mod Normal
pub mod RoundTrip
pub mod Paths
pub mod Ascii
mod Tests
use voxbento.Prelude.{
  ℕ, Bool, true, false, ◌&&◌, ◌||◌, not, Option, none, some, List, [], ◌∷◌, ◌++◌, Text, codes,
  text_eq, ltb, leb, nat_eq, if◌then◌else◌, length, is_empty, strip, strip_of, Result, ok, err,
  value_error, raise_if, ◌>>=◌, ◌>>◌, String,
}
use Pattern.{
  hyphen, slash, matches_slug, matches_language, matches_digits, matches_booth_id, rsplit_twice,
  split, str, int,
}
use Languages.{is_iso_639_1}

abbrev pub event_slug_max_length : ℕ
event_slug_max_length = 64

-- `BoothInstance`
pub data BoothInstance : Type 0 where
  primary backup : BoothInstance

-- What a caller may pass for a room ID: an integer, or a `bool` or another value.
pub data RoomValue : Type 0 where
  nonneg : ℕ → RoomValue
  negative : ℕ → RoomValue
  not_integer : RoomValue

unfoldable pub validate_room_id : RoomValue → Result ℕ
validate_room_id (nonneg n) = ok n
validate_room_id _ = err (value_error "Room ID must be a non-negative integer.")

unfoldable pub room_id_or_none : Option RoomValue → Result (Option ℕ)
unfolding validate_room_id
room_id_or_none none = ok none
room_id_or_none (some r) = do n ← validate_room_id r; ok (some n)

-- `f"{room}"` of an optional room ID.
unfoldable pub str_or_none : Option ℕ → Result Text
unfolding str
str_or_none none = ok (codes "None")
str_or_none (some n) = str n

abbrev pub join_three : ℕ → Text → Text → Text → Text
join_three sep a b c = a ++ (sep ∷ (b ++ (sep ∷ c)))

module _ (lower : Text → Text) where
  unfoldable pub validate_event_slug : Text → Result Text
  validate_event_slug slug = do
    let normalised = lower (strip slug)
    raise_if (is_empty normalised) (value_error "Event slug must not be empty.")
    raise_if (ltb event_slug_max_length (length normalised))
        (value_error "Event slug must not exceed ")
    raise_if (not (matches_slug normalised)) (value_error "Event slug must contain only lowercase ")
    ok normalised

  unfoldable pub validate_language_code : Text → Result Text
  validate_language_code code =
      let normalised = lower (strip code) in
      if text_eq normalised (codes "floor") then ok normalised else do
        raise_if (not (matches_language normalised))
            (value_error "Language code must be exactly two lowercase ASCII letters ")
        raise_if (not (is_iso_639_1 normalised)) (value_error "")
        ok normalised

  unfoldable pub validate_instance : Text → Result BoothInstance
  validate_instance inst =
      let normalised = lower (strip inst) in
      if text_eq normalised (codes "primary")
      then ok primary
      else if text_eq normalised (codes "backup")
      then ok backup
      else err (value_error "Booth instance must be 'primary' or 'backup'.")

  unfoldable pub make_booth_id : Text → RoomValue → Text → Result Text
  make_booth_id event_slug room_id language_code = do
    slug ← validate_event_slug event_slug
    room ← validate_room_id room_id
    code ← validate_language_code language_code
    digits ← str room
    ok (join_three hyphen slug digits code)

  unfoldable pub make_mediamtx_path : Text → Option RoomValue → Text → Result Text
  make_mediamtx_path event_slug room_id language_code = do
    slug ← validate_event_slug event_slug
    room ← room_id_or_none room_id
    code ← validate_language_code language_code
    digits ← str_or_none room
    ok (join_three slash slug digits code)

  unfoldable pub parse_parts : Text × Text × Text → Result (Text × ℕ × Text)
  parse_parts (event_slug, room, language_code) = do
    room_id ← int room
    checked_slug ← validate_event_slug event_slug
    checked_code ← validate_language_code language_code
    ok (event_slug, room_id, language_code)

  unfoldable pub parse_booth_id : Text → Result (Text × ℕ × Text)
  unfolding parse_parts
  parse_booth_id booth_id =
      let normalised = lower (strip booth_id) in
      if matches_booth_id normalised
      then elim (rsplit_twice hyphen normalised) [
        | none ↦ err (value_error "Invalid booth ID format: ")
        | some parts ↦ parse_parts parts
      ]
      else err (value_error "Booth ID must follow the format ")

  unfoldable pub booth_id_to_mediamtx_path : Text → Result Text
  unfolding parse_booth_id
  booth_id_to_mediamtx_path booth_id = do
    (event_slug, room_id, language_code) ← parse_booth_id booth_id
    digits ← str room_id
    ok (join_three slash event_slug digits language_code)

  unfoldable pub id_of_parts : List Text → Result Text
  id_of_parts (part_0 ∷ part_1 ∷ part_2 ∷ []) = do
    event_slug ← validate_event_slug part_0
    raise_if (not (matches_digits part_1))
        (value_error "MediaMTX path room segment must be a non-negative integer.")
    number ← int part_1
    room_id ← validate_room_id (nonneg number)
    language_code ← validate_language_code part_2
    digits ← str room_id
    ok (join_three hyphen event_slug digits language_code)
  id_of_parts _ = err (value_error "MediaMTX path must have exactly three segments ")

  unfoldable pub mediamtx_path_to_booth_id : Text → Result Text
  unfolding id_of_parts split
  mediamtx_path_to_booth_id path =
      id_of_parts (split slash (strip_of (λ c. nat_eq c slash) (strip path)))
