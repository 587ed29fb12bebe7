-- ===== src/Booth/Tests.antt =====
-- Runs and witnesses for the booth methods of portal/booth_state.py.
use voxbento.Prelude.{
  ◌≡◌, ◌↔◌, ◌⊎◌, ◌≤◌, refl, true, false, Option, none, some, [], ◌∷◌, ◌++◌, Text, codes, text_eq,
  opt_eq, strip, length, get, put, remove, has, is_empty, ok,
}
use voxbento.Identity.{primary, nonneg}
use voxbento.Roles.{interpreter, can_go_live}
use voxbento.Booth.{
  Participant, ChatMessage, Booth, idle, requested, offered, disconnected, ingesting,
  refresh_ingest_status, keep_on_air, off_air, pick_next_interpreter, first_live,
}
use voxbento.Booth.Calls.{
  Join, absent, flag, join_participant, leave_participant, after_leave, pass_slot, end_handoff,
  close_if_empty, set_broadcast_unlocked, update_participant_state, check_publish_permission,
  add_chat_message, chat_message_max_length, chat_history,
}
use voxbento.Booth.Handoff.{
  initiate_handoff, accept_handoff, cancel_handoff, accepted_by, make_active, keep_active,
}
use voxbento.Booth.Valid.{IsValid, is_on_air}
use voxbento.Booth.Safety.{check_publish_permission_iff, join_participant_keeps}
use voxbento.Booth.Chat.{add_chat_message_ok}
use voxbento.Booth.Handover.{handoff_completes, cancel-initiate_handoff, accept_handoff_moves}

abbrev person : Text → Text → Participant
person id now = record {
  participant_id = id;
  display_name = codes "Ada";
  role = interpreter;
  language = codes "en";
  channel_id = codes "booth";
  mic_active = false;
  ingest_connected = false;
  connected = true;
  joined_at = now;
  updated_at = now;
  joined_by = none;
}

-- Ada is active, and Bo is in the booth with her.
abbrev two : Booth
two = record {
  booth_id = codes "pycon-1-en";
  event_slug = codes "pycon";
  language_code = codes "en";
  language = codes "English";
  channel_id = codes "booth";
  inst = primary;
  mediamtx_path = codes "pycon/1/en";
  room_id = some (nonneg 1);
  active_interpreter_id = some (codes "ada");
  handoff_state = idle;
  handoff_initiator_id = none;
  broadcast_unlocked = true;
  participants =
      (codes "ada", person (codes "ada") (codes "9:00"))
      ∷ (codes "bo", person (codes "bo") (codes "9:01"))
      ∷ [];
  chat_messages = [];
  ingest_status = disconnected;
}

two-IsValid : IsValid two
unfolding text_eq has can_go_live
two-IsValid = record {
  entries = ((refl, refl, λ h. refl), ((refl, refl, λ h. absurd (cc)), tt));
  filled = refl;
  negotiated = refl;
  reported = λ h. absurd (cc);
}

-- The active interpreter leaves: the microphone goes to the other one.
ada_leaves : (leave_participant (codes "ada") two).active_interpreter_id ≡ some (codes "bo")
unfolding leave_participant after_leave pass_slot end_handoff close_if_empty pick_next_interpreter
    first_live remove get text_eq can_go_live
ada_leaves = refl

-- Going live, and being silenced when the broadcast is locked.
on_air_then_locked :
    (b : Booth) × (update_participant_state
        (codes "ada")
        (record { mic_active = flag true; ingest_connected = flag true; connected = absent })
        (codes "9:02")
        two
      ≡ ok b)
    × (b.ingest_status ≡ ingesting)
    × ((set_broadcast_unlocked false (codes "9:03") b).ingest_status ≡ disconnected)
unfolding update_participant_state refresh_ingest_status set_broadcast_unlocked off_air put get
    text_eq can_go_live
on_air_then_locked = (_, refl, refl, refl)

check_publish_permission_iff_example :
    (check_publish_permission (codes "ada") two ≡ ok tt)
    ↔ (◌≡◌ {A = Option Text} (some (codes "ada")) (some (codes "ada")))
check_publish_permission_iff_example = check_publish_permission_iff (codes "ada") two two-IsValid

-- An impostor asks for Ada's ID.
abbrev impostor : Join
impostor = record {
  display_name = codes "Ada";
  role = interpreter;
  language = [];
  channel_id = [];
  participant_id = some (codes "ada");
  reclaim = false;
  joined_by = none;
  fresh = codes "x1";
  now = codes "9:05";
}

join_participant_keeps_example :
    get (codes "ada") (join_participant impostor two).1.participants
    ≡ some (person (codes "ada") (codes "9:00"))
unfolding has get text_eq
join_participant_keeps_example =
    join_participant_keeps impostor two (codes "ada") (person (codes "ada") (codes "9:00")) refl
      refl refl

abbrev hello : ChatMessage
hello = record {
  message_id = codes "m1";
  sender_id = codes "bo";
  sender_name = codes "Ada";
  body = codes "hello";
  sent_at = codes "9:06";
}

abbrev greeted : Booth
greeted = record two { chat_messages = hello ∷ [] }

add_chat_message_ok_example :
    (p : Participant) × (text : Text) × (get (codes "bo") two.participants ≡ some p)
    × (some (codes " hello ") ≡ some text)
    × (hello.sender_id ≡ codes "bo")
    × (hello.sender_name ≡ p.display_name)
    × (hello.body ≡ strip text)
    × (is_empty hello.body ≡ false)
    × (length hello.body ≤ chat_message_max_length)
    × (length greeted.chat_messages ≤ chat_history)
    × (greeted ≡ record two { chat_messages = two.chat_messages ++ hello ∷ [] })
unfolding add_chat_message get strip text_eq
add_chat_message_ok_example =
    add_chat_message_ok (codes "bo") (some (codes " hello ")) (codes "m1") (codes "9:06") two hello
      greeted refl

abbrev bo_asks : Booth
bo_asks = record two { handoff_state = requested; handoff_initiator_id = some (codes "bo") }

cancel-initiate_handoff_example : cancel_handoff (codes "bo") bo_asks ≡ ok two
unfolding initiate_handoff get text_eq can_go_live
cancel-initiate_handoff_example = cancel-initiate_handoff (codes "bo") two bo_asks two-IsValid refl

handoff_completes_example :
    ((b1 : Booth) × (b2 : Booth) × (initiate_handoff (codes "bo") two ≡ ok b1)
      × (accept_handoff (codes "ada") (codes "9:07") b1 ≡ ok b2)
      × (b2.active_interpreter_id ≡ some (codes "bo")))
    × ((b1 : Booth) × (b2 : Booth) × (initiate_handoff (codes "ada") two ≡ ok b1)
        × (accept_handoff (codes "bo") (codes "9:07") b1 ≡ ok b2)
        × (b2.active_interpreter_id ≡ some (codes "bo")))
unfolding get text_eq
handoff_completes_example =
    handoff_completes two (codes "ada") (codes "bo") (person (codes "ada") (codes "9:00"))
      (person (codes "bo") (codes "9:01")) (codes "9:07") two-IsValid refl refl refl refl refl

abbrev bo_active : Booth
bo_active = record two {
  active_interpreter_id = some (codes "bo");
  participants =
      (codes "ada", record (person (codes "ada") (codes "9:00")) { updated_at = codes "9:08" })
      ∷ (codes "bo", record (person (codes "bo") (codes "9:01")) { updated_at = codes "9:08" })
      ∷ [];
}

bo_asks-IsValid : IsValid bo_asks
unfolding text_eq has can_go_live
bo_asks-IsValid = record {
  entries = two-IsValid.entries;
  filled = refl;
  negotiated = refl;
  reported = λ h. absurd (cc);
}

accept_handoff_moves_example :
    (n : Text) × (bo_active.active_interpreter_id ≡ some n)
    × (opt_eq bo_asks.active_interpreter_id (some n) ≡ false)
    × (((bo_asks.handoff_state ≡ offered) × (n ≡ codes "ada"))
        ⊎ ((bo_asks.handoff_state ≡ requested)
            × (bo_asks.active_interpreter_id ≡ some (codes "ada"))
            × (bo_asks.handoff_initiator_id ≡ some n)))
    × ((k : Text) (p : Participant)
        → get k bo_active.participants ≡ some p
        → is_on_air p ≡ true
        → k ≡ n)
unfolding accept_handoff accepted_by make_active refresh_ingest_status keep_on_air keep_active get
    text_eq can_go_live
accept_handoff_moves_example =
    accept_handoff_moves (codes "ada") (codes "9:08") bo_asks bo_active bo_asks-IsValid refl
