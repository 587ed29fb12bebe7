-- ===== src/Registry/Tests.antt =====
-- Runs and witnesses for the registry of portal/booth_state.py, with `str.lower` on ASCII.
use voxbento.Prelude.{
  ◌≡◌, refl, true, false, none, some, List, [], ◌∷◌, codes, text_eq, strip, get, put, has, ok,
}
use voxbento.Identity.{
  primary, nonneg, parse_booth_id, make_booth_id, validate_event_slug, validate_room_id,
  validate_language_code,
}
use voxbento.Identity.Languages.{is_iso_639_1}
use voxbento.Identity.Pattern.{matches_booth_id, rsplit_twice, str, matches_slug, matches_language}
use voxbento.Identity.Ascii.{ascii_lower}
use voxbento.Roles.{interpreter, can_go_live}
use voxbento.Booth.{Participant, Booth, idle, disconnected, refresh_ingest_status}
use voxbento.Booth.Calls.{
  Join, absent, flag, join_participant, newcomer, joining_id, has_participant, active_after_join,
  update_participant_state, check_publish_permission,
}
use voxbento.Registry.{
  Address, create_for, create_from, get_or_create_booth, new_booth, post_init, with_booth, conclude,
  finish, registry_join, registry_update_participant_state,
}
use voxbento.Registry.Methods.{MethodCall, creating, removing, joining, updating, call, calls}
use voxbento.Registry.Valid.{AllValid}
use voxbento.Registry.Histories.{calls-AllValid}
use voxbento.Registry.Isolation.{calls_keep_others}
use voxbento.Registry.OnAir.{on_air_unique}

abbrev lobby : Address
lobby = record {
  booth_id = codes "lobby";
  language = codes "English";
  channel_id = codes "c1";
  room_id = none;
}

abbrev ada_joins : Join
ada_joins = record {
  display_name = codes "Ada";
  role = interpreter;
  language = [];
  channel_id = [];
  participant_id = none;
  reclaim = false;
  joined_by = none;
  fresh = codes "a1";
  now = codes "9:00";
}

-- Ada joins a booth that is created for her, and goes on air.
abbrev history : List MethodCall
history =
    joining lobby ada_joins
    ∷ updating lobby (codes "a1")
        (record { mic_active = flag true; ingest_connected = absent; connected = absent })
        (codes "9:01")
    ∷ []

calls-AllValid_example : AllValid (calls ascii_lower history [])
unfolding can_go_live text_eq
calls-AllValid_example = calls-AllValid ascii_lower history [] (refl, (tt, tt)) tt

abbrev ada : Participant
ada = record {
  participant_id = codes "a1";
  display_name = codes "Ada";
  role = interpreter;
  language = codes "English";
  channel_id = codes "c1";
  mic_active = true;
  ingest_connected = false;
  connected = true;
  joined_at = codes "9:00";
  updated_at = codes "9:01";
  joined_by = none;
}

abbrev lobby_booth : Booth
lobby_booth = record {
  booth_id = codes "lobby";
  event_slug = [];
  language_code = [];
  language = codes "English";
  channel_id = codes "c1";
  inst = primary;
  mediamtx_path = [];
  room_id = none;
  active_interpreter_id = some (codes "a1");
  handoff_state = idle;
  handoff_initiator_id = none;
  broadcast_unlocked = false;
  participants = (codes "a1", ada) ∷ [];
  chat_messages = [];
  ingest_status = disconnected;
}

after_history : get (codes "lobby") (calls ascii_lower history []) ≡ some lobby_booth
unfolding calls call registry_join registry_update_participant_state with_booth conclude finish
    get_or_create_booth create_for create_from new_booth post_init parse_booth_id matches_booth_id
    rsplit_twice join_participant newcomer joining_id has_participant active_after_join
    update_participant_state refresh_ingest_status ascii_lower strip can_go_live get put has text_eq
after_history = refl

on_air_unique_example :
    (codes "a1" ≡ codes "a1") × (check_publish_permission (codes "a1") lobby_booth ≡ ok tt)
unfolding can_go_live get text_eq
on_air_unique_example =
    on_air_unique ascii_lower history (codes "lobby") lobby_booth (refl, (tt, tt)) after_history
      (codes "a1") (codes "a1") ada ada refl refl refl refl

-- What happens in the lobby, and a booth that is created or removed beside it, leaves the attic alone.
abbrev elsewhere : List MethodCall
elsewhere =
    creating (codes "pycon") (codes "en") (codes "English") (nonneg 3) [] (codes "primary")
    ∷ removing (codes "pycon") (nonneg 3) (codes "en")
    ∷ history

calls_keep_others_example :
    get (codes "attic") (calls ascii_lower elsewhere ((codes "attic", lobby_booth) ∷ []))
    ≡ some lobby_booth
unfolding make_booth_id validate_event_slug validate_room_id validate_language_code ascii_lower
    strip str matches_slug matches_language is_iso_639_1 get text_eq
calls_keep_others_example =
    calls_keep_others ascii_lower (codes "attic") elsewhere ((codes "attic", lobby_booth) ∷ [])
      lobby_booth refl refl
