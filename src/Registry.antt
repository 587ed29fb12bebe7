-- ===== src/Registry.antt =====
-- portal/booth_state.py: `BoothRegistry`, the booths of the portal by ID. Each method runs under the
-- registry's lock, so that a method is one step here. A method returns its result, or raises, beside
-- the registry that it leaves: a booth that it created stays, also when it raises.
pub mod Methods
pub mod Histories
pub mod OnAir
pub mod Valid
pub mod Frame
pub mod Isolation
mod Tests
use voxbento.Prelude.{
  ℕ, Bool, true, false, ◌&&◌, ◌||◌, not, Option, none, some, List, [], ◌∷◌, Text, codes, text_eq,
  ◌==◌, opt_has_eq, text_has_eq, is_empty, if◌then◌else◌, any, filter, map, Dict, get, put, remove,
  has, values, Result, ok, err, value_error, permission_error, raise_if, ◌>>=◌, ◌>>◌,
}
use voxbento.Identity.{
  BoothInstance, primary, RoomValue, nonneg, validate_event_slug, validate_language_code,
  validate_instance, make_booth_id, make_mediamtx_path, parse_booth_id,
}
use voxbento.Booth.{Participant, ChatMessage, Booth, idle, disconnected, or_text}
use voxbento.Booth.Public.{PublicBooth, as_public_dict}
use voxbento.Booth.Calls.{
  Join, Flags, join_participant, leave_participant, set_broadcast_unlocked, add_chat_message,
  update_participant_state, check_publish_permission,
}
use voxbento.Booth.Handoff.{
  set_active_interpreter, initiate_handoff, accept_handoff, cancel_handoff,
}

abbrev pub Registry : Type 0
Registry = Dict Booth

abbrev pub Method : Type 0 → Type 0
Method A = Registry → Result A × Registry

-- The call's view of its booth: the ID, and the values that only a new booth takes.
pub record Address : Type 0 where
  pub booth_id : Text
  pub language : Text
  pub channel_id : Text
  pub room_id : Option RoomValue

-- The end of a method, with the booth that it works on.
unfoldable pub finish : {A : Type 0} → Text → Result (A × Booth) → Method A
finish id (ok (x, b)) r = (ok x, put id b r)
finish id (err e) r = (err e, r)

unfoldable pub conclude :
    {A : Type 0} → Text → (Booth → Result (A × Booth)) → Result Booth → Method A
unfolding finish
conclude id body (ok b) r = finish id (body b) r
conclude id body (err e) r = (err e, r)

-- A body that returns the snapshot of the booth.
abbrev pub published : Booth → Result (PublicBooth × Booth)
published b = ok (as_public_dict b, b)

module _ (lower : Text → Text) where
  -- `Booth.__post_init__` on a booth whose other fields have their defaults.
  unfoldable pub post_init : Booth → Result Booth
  post_init b = if is_empty b.event_slug || is_empty b.language_code then ok b else elim b.room_id [
    | none ↦ ok b
    | some room ↦ do
      path ←
          (if is_empty b.mediamtx_path
            then make_mediamtx_path lower b.event_slug (some room) b.language_code
            else ok b.mediamtx_path)
      ok (record b { mediamtx_path = path; channel_id = or_text b.channel_id path })
  ]

  -- `Booth(..)`
  unfoldable pub new_booth : Address → Text → Text → BoothInstance → Result Booth
  unfolding post_init
  new_booth a event_slug language_code inst = post_init (record {
    booth_id = a.booth_id;
    event_slug = event_slug;
    language_code = language_code;
    language = a.language;
    channel_id = a.channel_id;
    inst = inst;
    mediamtx_path = [];
    room_id = a.room_id;
    active_interpreter_id = none;
    handoff_state = idle;
    handoff_initiator_id = none;
    broadcast_unlocked = false;
    participants = [];
    chat_messages = [];
    ingest_status = disconnected;
  })

  -- The room that a new booth gets: the caller's, else the one of the ID.
  abbrev room_or : Option RoomValue → ℕ → Option RoomValue
  room_or none parsed = some (nonneg parsed)
  room_or (some r) parsed = some r

  -- A booth for the parsed ID, or with no identity for an ID of another format.
  unfoldable pub create_from : Address → Result (Text × ℕ × Text) → Result Booth
  create_from a (ok (event_slug, parsed_room_id, language_code)) =
      new_booth (record a { room_id = room_or a.room_id parsed_room_id }) event_slug language_code
        primary
  create_from a (err _) = new_booth a [] [] primary

  unfoldable pub create_for : Address → Result Booth
  unfolding create_from new_booth
  create_for a = create_from a (parse_booth_id lower a.booth_id)

  unfoldable pub get_or_create_booth : Address → Method Booth
  get_or_create_booth a r = elim (get a.booth_id r) [
    | some b ↦ (ok b, r)
    | none ↦ elim (create_for a) [ ok b ↦ (ok b, put a.booth_id b r) | err e ↦ (err e, r) ]
  ]

  -- A method's body on the booth that it got; the booth is an object, so a change of it shows in
  -- the registry. Every method makes its checks before it changes the booth, so that one that raises
  -- has changed nothing in it.
  unfoldable pub with_booth : {A : Type 0} → Address → (Booth → Result (A × Booth)) → Method A
  unfolding conclude
  with_booth a body r =
      let (found, r') = get_or_create_booth a r in conclude a.booth_id body found r'

  -- The booth that `create_booth` makes, before it is stored.
  unfoldable pub created_booth :
      Text → Text → Text → RoomValue → Text → Text → Registry → Result Booth
  unfolding new_booth
  created_booth event_slug language_code language room_id channel_id inst r = do
    slug ← validate_event_slug lower event_slug
    code ← validate_language_code lower language_code
    kind ← validate_instance lower inst
    booth_id ← make_booth_id lower slug room_id code
    mtx_path ← make_mediamtx_path lower slug (some room_id) code
    raise_if (has booth_id r) (value_error "Booth already exists.")
    new_booth
        (record {
          booth_id = booth_id;
          language = language;
          channel_id = or_text channel_id mtx_path;
          room_id = some room_id;
        })
        slug code kind

  unfoldable pub create_booth : Text → Text → Text → RoomValue → Text → Text → Method PublicBooth
  unfolding created_booth
  create_booth event_slug language_code language room_id channel_id inst r =
      elim (created_booth event_slug language_code language room_id channel_id inst r) [
        | err e ↦ (err e, r)
        | ok b ↦ (ok (as_public_dict b), put b.booth_id b r)
      ]

  unfoldable pub snapshot : Address → Method PublicBooth
  unfolding with_booth
  snapshot a = with_booth a published

  unfoldable pub registry_join : Address → Join → Method (Participant × PublicBooth)
  unfolding with_booth
  registry_join a j =
      with_booth a λ b. let (p, b') = join_participant j b in ok ((p, as_public_dict b'), b')

  unfoldable pub registry_leave : Address → Text → Method PublicBooth
  unfolding with_booth
  registry_leave a id = with_booth a λ b. published (leave_participant id b)

  unfoldable pub registry_set_broadcast_unlocked : Address → Bool → Text → Method PublicBooth
  unfolding with_booth
  registry_set_broadcast_unlocked a unlocked now =
      with_booth a λ b. published (set_broadcast_unlocked unlocked now b)

  unfoldable pub registry_set_active : Address → Text → Text → Text → Method PublicBooth
  unfolding with_booth
  registry_set_active a requester target now =
      with_booth a λ b. set_active_interpreter requester target now b >>= published

  unfoldable pub registry_initiate_handoff : Address → Text → Method PublicBooth
  unfolding with_booth
  registry_initiate_handoff a id = with_booth a λ b. initiate_handoff id b >>= published

  unfoldable pub registry_accept_handoff : Address → Text → Text → Method PublicBooth
  unfolding with_booth
  registry_accept_handoff a id now = with_booth a λ b. accept_handoff id now b >>= published

  unfoldable pub registry_cancel_handoff : Address → Text → Method PublicBooth
  unfolding with_booth
  registry_cancel_handoff a id = with_booth a λ b. cancel_handoff id b >>= published

  unfoldable pub registry_add_chat_message :
      Address → Text → Option Text → Text → Text → Method (ChatMessage × PublicBooth)
  unfolding with_booth
  registry_add_chat_message a id body fresh now = with_booth a λ b. do
    (message, b') ← add_chat_message id body fresh now b
    ok ((message, as_public_dict b'), b')

  unfoldable pub registry_update_participant_state :
      Address → Text → Flags → Text → Method PublicBooth
  unfolding with_booth
  registry_update_participant_state a id f now =
      with_booth a λ b. update_participant_state id f now b >>= published

  unfoldable pub registry_check_publish_permission : Address → Text → Method (Unit {0})
  unfolding with_booth
  registry_check_publish_permission a id =
      with_booth a λ b. do check_publish_permission id b; ok (tt, b)

  unfoldable pub get_booth_for_event :
      Text → RoomValue → Text → Registry → Result (Option PublicBooth)
  get_booth_for_event event_slug room_id language_code r = do
    booth_id ← make_booth_id lower event_slug room_id language_code
    ok (elim (get booth_id r) [ none ↦ none | some b ↦ some (as_public_dict b) ])

  unfoldable pub remove_booth : Text → RoomValue → Text → Method (Unit {0})
  remove_booth event_slug room_id language_code r =
      elim (make_booth_id lower event_slug room_id language_code) [
        | err e ↦ (err e, r)
        | ok booth_id ↦ (ok tt, remove booth_id r)
      ]

  -- The slug of an ID, empty if the ID has another format.
  unfoldable pub slug_of : Text → Text
  slug_of booth_id = elim (parse_booth_id lower booth_id) [ ok (slug, _, _) ↦ slug | err _ ↦ [] ]

  unfoldable pub validate_booth_event : Text → Text → Result (Unit {0})
  unfolding slug_of
  validate_booth_event booth_id expected =
      raise_if (not (text_eq (slug_of booth_id) expected))
        (permission_error "Booth does not belong to event.")

-- `joined_by in session_keys`, false for `None`.
abbrev pub joined_in : Option Text → List Text → Bool
joined_in none keys = false
joined_in (some k) keys = any (λ s. text_eq s k) keys

-- The live participant: `booth.participants.get(booth.active_interpreter_id)`.
abbrev pub live_participant : Booth → Option Participant
live_participant b = elim b.active_interpreter_id [ none ↦ none | some a ↦ get a b.participants ]

unfoldable pub can_stop_live : Text → List Text → Registry → Bool
can_stop_live booth_id session_keys r = elim (get booth_id r) [
  | none ↦ true
  | some b ↦ elim (live_participant b) [ none ↦ true | some p ↦ joined_in p.joined_by session_keys ]
]

unfoldable pub list_booths_for_event : Text → Registry → List PublicBooth
list_booths_for_event event_slug r =
    map as_public_dict (filter (λ b. text_eq b.event_slug event_slug) (values r))

unfoldable pub get_booth : Text → Registry → Option PublicBooth
get_booth booth_id r = elim (get booth_id r) [ none ↦ none | some b ↦ some (as_public_dict b) ]
