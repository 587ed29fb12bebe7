-- ===== src/Booth/Calls.antt =====
-- portal/booth_state.py: what the methods of `BoothRegistry` do to the booth that they found, the
-- handoff apart. A method that raises has changed nothing.
use voxbento.Prelude.{
  ℕ, Bool, true, false, ◌&&◌, ◌||◌, not, Option, none, some, [], ◌∷◌, ◌++◌, Text, codes, ◌==◌,
  text_has_eq, opt_has_eq, ltb, is_empty, if◌then◌else◌, length, last, strip, get, put, remove, has,
  map_values, Result, ok, err, value_error, permission_error, raise_if, ◌>>◌,
}
use voxbento.Roles.{can_go_live}
use voxbento.Booth.{
  Participant, ChatMessage, idle, disconnected, overloaded, Booth, or_text, refresh_ingest_status,
  pick_next_interpreter, off_air,
}

-- The arguments of `join_participant`; `fresh` is the `uuid4().hex` that is made if one is needed.
pub record Join : Type 0 where
  pub display_name : Text
  pub role : Text
  pub language : Text
  pub channel_id : Text
  pub participant_id : Option Text
  pub reclaim : Bool
  pub joined_by : Option Text
  pub fresh : Text
  pub now : Text

-- `participant_id in booth.participants`, false for `None`.
unfoldable pub has_participant : Option Text → Booth → Bool
has_participant none b = false
has_participant (some k) b = has k b.participants

-- The ID under which the newcomer is stored.
unfoldable pub joining_id : Join → Booth → Text
unfolding has_participant
joining_id j b =
    elim (if has_participant j.participant_id b && not j.reclaim then none else j.participant_id) [
      | none ↦ j.fresh
      | some k ↦ or_text k j.fresh
    ]

unfoldable pub newcomer : Join → Booth → Participant
newcomer j b = record {
  participant_id = joining_id j b;
  display_name = or_text (strip j.display_name) (codes "Interpreter");
  role = j.role;
  language = or_text (strip j.language) b.language;
  channel_id = or_text (strip j.channel_id) b.channel_id;
  mic_active = false;
  ingest_connected = false;
  connected = true;
  joined_at = j.now;
  updated_at = j.now;
  joined_by = j.joined_by;
}

-- The active slot after a join: it is filled if it was free and the newcomer can go live.
unfoldable pub active_after_join : Option Text → Text → Text → Option Text
active_after_join none role id = if can_go_live (some role) then some id else none
active_after_join (some a) role id = some a

unfoldable pub join_participant : Join → Booth → Participant × Booth
join_participant j b =
    let p = newcomer j b in
    (
      p,
      record b {
        participants = put p.participant_id p b.participants;
        active_interpreter_id = active_after_join b.active_interpreter_id p.role p.participant_id;
      },
    )

-- The steps of `leave_participant` after `booth.participants.pop`, in their order. The active slot
-- goes to the next interpreter.
unfoldable pub pass_slot : Text → Booth → Booth
pass_slot id b =
    if b.active_interpreter_id == some id
    then record b { active_interpreter_id = pick_next_interpreter b }
    else b

-- A handoff ends with its initiator or the active interpreter.
unfoldable pub end_handoff : Bool → Text → Booth → Booth
end_handoff was_active id b =
    if was_active || (some id == b.handoff_initiator_id)
    then record b { handoff_state = idle; handoff_initiator_id = none }
    else b

unfoldable pub close_if_empty : Booth → Booth
close_if_empty b =
    if is_empty b.participants
    then record b { ingest_status = disconnected; handoff_state = idle }
    else b

unfoldable pub after_leave : Text → Participant → Booth → Booth
unfolding pass_slot end_handoff close_if_empty
after_leave id p b =
    let was_active = b.active_interpreter_id == some id in
    let b' = end_handoff was_active id (pass_slot id b) in
    close_if_empty (if p.ingest_connected then refresh_ingest_status b' else b')

unfoldable pub leave_participant : Text → Booth → Booth
leave_participant id b = elim (get id b.participants) [
  | none ↦ b
  | some p ↦ after_leave id p (record b { participants = remove id b.participants })
]

-- The webhook that the method queues in the background is not part of the booth.
unfoldable pub set_broadcast_unlocked : Bool → Text → Booth → Booth
unfolding off_air
set_broadcast_unlocked unlocked now b =
    let b1 = record b { broadcast_unlocked = unlocked } in
    if unlocked then b1 else record b1 {
      participants = map_values (off_air now) b1.participants;
      ingest_status = disconnected;
    }

abbrev pub chat_message_max_length : ℕ
chat_message_max_length = 1000

abbrev pub chat_history : ℕ
chat_history = 500

-- `body` is `none` where the client sent no string; `fresh` is the `uuid4().hex` of the message.
unfoldable pub add_chat_message :
    Text → Option Text → Text → Text → Booth → Result (ChatMessage × Booth)
add_chat_message sender_id body fresh now b = elim (get sender_id b.participants) [
  | none ↦ err (value_error "Sender is not registered in booth.")
  | some sender ↦ elim body [
    | none ↦ err (value_error "Message body must be a string.")
    | some text ↦ do
      let message : ChatMessage = record {
        message_id = fresh;
        sender_id = sender_id;
        sender_name = sender.display_name;
        body = strip text;
        sent_at = now;
      }
      raise_if (is_empty message.body) (value_error "Message body cannot be empty.")
      raise_if (ltb chat_message_max_length (length message.body))
          (value_error "Message must not exceed 1000 characters.")
      let messages = b.chat_messages ++ message ∷ []
      ok (
        message,
        record b {
          chat_messages =
              if ltb chat_history (length messages) then last chat_history messages else messages;
        },
      )
  ]
]

-- A flag as the client sent it.
pub data Flag : Type 0 where
  absent : Flag
  flag : Bool → Flag
  not_boolean : Flag

abbrev pub is_malformed : Flag → Bool
is_malformed not_boolean = true
is_malformed _ = false

abbrev pub is_set : Flag → Bool
is_set (flag true) = true
is_set _ = false

-- `if flag is not None: field = flag`
abbrev pub assign : Flag → Bool → Bool
assign (flag b) old = b
assign _ old = old

pub record Flags : Type 0 where
  pub mic_active : Flag
  pub ingest_connected : Flag
  pub connected : Flag

abbrev pub wants_publisher_state : Flags → Bool
wants_publisher_state f = is_set f.mic_active || is_set f.ingest_connected

unfoldable pub update_participant_state : Text → Flags → Text → Booth → Result Booth
update_participant_state id f now b = elim (get id b.participants) [
  | none ↦ err (value_error "Participant does not exist in booth.")
  | some p ↦ do
    raise_if (is_malformed f.mic_active) (value_error "mic_active must be a boolean.")
    raise_if (is_malformed f.ingest_connected) (value_error "ingest_connected must be a boolean.")
    raise_if (is_malformed f.connected) (value_error "connected must be a boolean.")
    raise_if (wants_publisher_state f && not (can_go_live (some p.role)))
        (permission_error "Your role does not permit publishing audio.")
    raise_if (wants_publisher_state f && not (b.active_interpreter_id == some id))
        (permission_error "Only the active interpreter can mark mic or ingest active.")
    let p' : Participant = record p {
      mic_active = assign f.mic_active p.mic_active;
      ingest_connected = assign f.ingest_connected p.ingest_connected;
      connected = assign f.connected p.connected;
      updated_at = now;
    }
    ok (refresh_ingest_status (record b { participants = put id p' b.participants }))
]

unfoldable pub check_publish_permission : Text → Booth → Result (Unit {0})
check_publish_permission id b = elim (get id b.participants) [
  | none ↦ err (value_error "Participant does not exist in booth.")
  | some p ↦ do
    raise_if (not (can_go_live (some p.role)))
        (permission_error "Your role does not permit publishing audio.")
    raise_if (not (b.active_interpreter_id == some id))
        (permission_error "Only the active interpreter can publish audio.")
    ok tt
]

-- `broadcast_transcription` on an overload message (portal/websockets/manager.py).
unfoldable pub mark_overloaded : Booth → Booth
mark_overloaded b = record b { ingest_status = overloaded }
