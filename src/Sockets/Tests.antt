-- ===== src/Sockets/Tests.antt =====
-- Runs and witnesses for the connections of portal/websockets, with `str.lower` on ASCII and the
-- identity for SHA-256.
use voxbento.Prelude.{
  ◌≡◌, refl, true, false, none, some, List, [], ◌∷◌, Text, codes, text_eq, strip, get, put, has, ok,
  arith,
}
use voxbento.Identity.{
  primary, validate_event_slug, validate_language_code, parse_booth_id, booth_id_to_mediamtx_path,
}
use voxbento.Identity.Pattern.{
  matches_booth_id, rsplit_twice, matches_slug, matches_digits, matches_language, int, str,
}
use voxbento.Identity.Languages.{is_iso_639_1}
use voxbento.Identity.Ascii.{ascii_lower}
use voxbento.Roles.{interpreter, is_at_least, can_go_live}
use voxbento.Booth.{Participant, Booth, idle, disconnected, refresh_ingest_status}
use voxbento.Booth.Calls.{
  absent, flag, join_participant, newcomer, joining_id, has_participant, active_after_join,
  update_participant_state, check_publish_permission,
}
use voxbento.Registry.{
  create_for, create_from, get_or_create_booth, new_booth, post_init, with_booth, conclude, finish,
  registry_join, registry_update_participant_state, registry_check_publish_permission,
}
use voxbento.Registry.Methods.{MethodCall, calls, AllRoleMethods}
use voxbento.Registry.Valid.{AllValid}
use voxbento.Publish.{answered, authorize_booth_publish, get_booth_sync}
use voxbento.Connections.{Session}
use voxbento.Sockets.Messages.{
  JoinData, no_room, join_booth, update_state, request_publish_ticket, Fresh, Portal,
  can_perform_role, reply_state, reply_joined, reply_ticket, reply_path, publish_path, join_with,
  join_in, join_checked, handle_join, handle_chat, send_chat, handle_update_state,
  handle_request_publish_ticket, handle,
}
use voxbento.Sockets.Loop.{
  Server, Event, opened, received, ended, session_of, set_session, after_turn, on_message, run,
}
use voxbento.Sockets.OnAir.{run-calls, run-on_air_unique}
use voxbento.Sockets.Silence.{run-silenced}
use voxbento.Sockets.Refusal.{handle_refused}
use voxbento.Sockets.GoLive.{authorize_booth_publish-request}

abbrev raw : Text → Text
raw s = s

abbrev ada_session : Session
ada_session = record {
  booth_id = codes "lobby";
  participant_id = none;
  language = some (codes "English");
  channel_id = codes "c1";
  granted_role = some interpreter;
  user_id = some 7;
  invite_token_id = none;
  revoked = false;
  session_key = none;
  issued_at = 0;
}

abbrev at_nine : Fresh
at_nine = record { uuid = codes "a1"; now = codes "9:00"; secret = codes "s"; monotonic = 100 }

abbrev join_data : JoinData
join_data = record {
  display_name = some (codes "Ada");
  role = none;
  language = none;
  channel_id = some (codes "c1");
  participant_id = none;
  event_slug = none;
  room_id = no_room;
}

-- Ada connects, joins, and goes on air.
abbrev evening : List Event
evening =
    opened 1 ada_session
    ∷ received 1 (join_booth join_data) at_nine
    ∷ received 1
        (update_state
          (record { mic_active = flag true; ingest_connected = absent; connected = absent }))
        at_nine
    ∷ []

abbrev nobody : Server
nobody = record { sessions = []; portal = record { booths = []; tickets = [] } }

abbrev ada : Participant
ada = record {
  participant_id = codes "a1";
  display_name = codes "Ada";
  role = interpreter;
  language = codes "English";
  channel_id = codes "c1";
  mic_active = true;
  ingest_connected = false;
  connected = true;
  joined_at = codes "9:00";
  updated_at = codes "9:00";
  joined_by = none;
}

abbrev lobby_booth : Booth
lobby_booth = record {
  booth_id = codes "lobby";
  event_slug = [];
  language_code = [];
  language = codes "English";
  channel_id = codes "c1";
  inst = primary;
  mediamtx_path = [];
  room_id = none;
  active_interpreter_id = some (codes "a1");
  handoff_state = idle;
  handoff_initiator_id = none;
  broadcast_unlocked = false;
  participants = (codes "a1", ada) ∷ [];
  chat_messages = [];
  ingest_status = disconnected;
}

after_evening :
    get (codes "lobby") (run ascii_lower raw evening nobody).portal.booths ≡ some lobby_booth
unfolding run session_of set_session on_message after_turn handle handle_join can_perform_role
    is_at_least join_checked join_in join_with reply_joined handle_update_state reply_state
    registry_join registry_update_participant_state with_booth conclude finish get_or_create_booth
    create_for create_from new_booth post_init parse_booth_id matches_booth_id rsplit_twice
    join_participant newcomer joining_id has_participant active_after_join update_participant_state
    refresh_ingest_status ascii_lower strip can_go_live get put has text_eq
after_evening = refl

run-calls_example :
    (cs : List MethodCall) × AllRoleMethods cs
    × ((run ascii_lower raw evening nobody).portal.booths ≡ calls ascii_lower cs [])
run-calls_example = run-calls ascii_lower raw evening nobody

run-on_air_unique_example :
    (codes "a1" ≡ codes "a1") × (check_publish_permission (codes "a1") lobby_booth ≡ ok tt)
unfolding can_go_live get text_eq
run-on_air_unique_example =
    run-on_air_unique ascii_lower raw evening nobody (codes "lobby") lobby_booth refl after_evening
      (codes "a1") (codes "a1") ada ada refl refl refl refl

-- Ada's connection after her account lost its role.
abbrev shut : Server
shut = record {
  sessions =
      (
        1,
        record ada_session {
          participant_id = some (codes "a1");
          granted_role = none;
          revoked = true;
        },
      )
      ∷ [];
  portal = record { booths = (codes "lobby", lobby_booth) ∷ []; tickets = [] };
}

run-silenced_example :
    run ascii_lower raw (ended 1 ∷ opened 2 ada_session ∷ ended 1 ∷ []) shut
    ≡ run ascii_lower raw
        (received 1 request_publish_ticket at_nine
          ∷ opened 2 ada_session
          ∷ received 1 (join_booth join_data) at_nine
          ∷ [])
        shut
unfolding session_of
run-silenced_example =
    run-silenced ascii_lower raw 1
      (received 1 request_publish_ticket at_nine
        ∷ opened 2 ada_session
        ∷ received 1 (join_booth join_data) at_nine
        ∷ [])
      shut refl refl

-- Ada on her microphone in the English booth of an event, whose broadcast is unlocked.
abbrev english : Text
english = codes "pycon-1-en"

abbrev live : Portal
live = record {
  booths = (english, record lobby_booth { booth_id = english; broadcast_unlocked = true }) ∷ [];
  tickets = [];
}

abbrev on_stage : Session
on_stage = record ada_session { booth_id = english; participant_id = some (codes "a1") }

live-AllValid : AllValid live.booths
unfolding text_eq has can_go_live
live-AllValid = (
  record {
    entries = ((refl, refl, λ h. refl), tt);
    filled = refl;
    negotiated = refl;
    reported = λ h. absurd (cc);
  },
  tt,
)

authorize_booth_publish-request_example :
    (authorize_booth_publish raw
      (codes "pycon/1/en")
      (codes "s")
      110
      (handle_request_publish_ticket ascii_lower raw on_stage at_nine live).portal.booths
      (handle_request_publish_ticket ascii_lower raw on_stage at_nine live).portal.tickets).0
    ≡ answered true
unfolding handle_request_publish_ticket reply_ticket reply_path publish_path get_booth_sync
    registry_check_publish_permission with_booth conclude finish get_or_create_booth
    check_publish_permission booth_id_to_mediamtx_path parse_booth_id matches_booth_id rsplit_twice
    ascii_lower strip can_go_live get put text_eq matches_slug matches_digits matches_language int
    validate_event_slug validate_language_code is_iso_639_1 str
authorize_booth_publish-request_example =
    authorize_booth_publish-request ascii_lower raw on_stage at_nine live (codes "pycon/1/en") 110
      live-AllValid refl refl (omega arith) refl refl

-- Who has not joined cannot chat.
handle_refused_example :
    ((handle ascii_lower raw (send_chat none) ada_session at_nine live).session ≡ ada_session)
    × ((handle ascii_lower raw (send_chat none) ada_session at_nine live).portal.tickets ≡ [])
    × (get english (handle ascii_lower raw (send_chat none) ada_session at_nine live).portal.booths
        ≡ some (record lobby_booth { booth_id = english; broadcast_unlocked = true }))
unfolding handle handle_chat get text_eq
handle_refused_example =
    handle_refused ascii_lower raw (send_chat none) ada_session at_nine live english
      (record lobby_booth { booth_id = english; broadcast_unlocked = true }) refl refl
