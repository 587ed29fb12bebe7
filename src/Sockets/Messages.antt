-- ===== src/Sockets/Messages.antt =====
-- The handlers of portal/websockets/manager.py: what each message of an interpreter does.
use Prim.Native.String.{String}
use voxbento.Prelude.{
  ℕ, Bool, true, false, not, Option, none, some, List, [], ◌∷◌, ◌++◌, Text, codes, ◌==◌, opt_has_eq,
  text_has_eq, is_empty, if◌then◌else◌, Result, ok, err, Error, value_error, permission_error,
  raise_if, ◌>>◌,
}
use voxbento.Identity.{RoomValue, booth_id_to_mediamtx_path}
use voxbento.Roles.{interpreter, is_at_least, can_set_active}
use voxbento.Booth.{Participant, ChatMessage}
use voxbento.Booth.Public.{PublicBooth}
use voxbento.Booth.Calls.{Join, Flags, Flag, flag}
use voxbento.Registry.{
  Registry, Address, registry_join, registry_leave, registry_set_broadcast_unlocked,
  registry_set_active, registry_initiate_handoff, registry_accept_handoff, registry_cancel_handoff,
  registry_add_chat_message, registry_update_participant_state, registry_check_publish_permission,
  validate_booth_event,
}
use voxbento.Publish.{Tickets, issue_ticket, get_booth_sync}
use voxbento.Connections.{Session}

-- `room_id` of a message after `int(..)`.
pub data RoomField : Type 0 where
  no_room : RoomField
  room : RoomValue → RoomField
  not_a_room : RoomField

-- A role that is there but null is refused like a text that names no role, and stands for one.
pub record JoinData : Type 0 where
  pub display_name : Option Text
  pub role : Option Text
  pub language : Option Text
  pub channel_id : Option Text
  pub participant_id : Option Text
  pub event_slug : Option Text
  pub room_id : RoomField

-- A message by its type; `chat` has `none` for a body that is no text.
pub data Message : Type 0 where
  join_booth : JoinData → Message
  leave_booth : Message
  send_chat : Option Text → Message
  set_active : Option Text → Message
  update_state : Flags → Message
  request_publish_ticket : Message
  set_unlocked : Flag → Message
  initiate accept cancel : Message
  invalid_json not_an_object unknown_type : Message

-- What is sent: to the socket itself, or to everybody in the booth.
pub data Output : Type 0 where
  booth_error : Error → Output
  notice : String → Output
  joined : Text → PublicBooth → Output
  publish_ticket : Text → Output
  publish_refused : Error → Output
  to_booth : PublicBooth → Output
  chat_to_booth : ChatMessage → Output
  webhook : Text → Output

-- What the code makes up in a call: a UUID, the times, a secret.
pub record Fresh : Type 0 where
  pub uuid : Text
  pub now : Text
  pub secret : Text
  pub monotonic : ℕ

-- What the handlers work on beside their session.
pub record Portal : Type 0 where
  pub booths : Registry
  pub tickets : Tickets

-- A handler's outputs, its session and the portal after it, or the exception that ends the connection.
pub record Turn : Type 0 where
  pub outputs : List Output
  pub session : Session
  pub portal : Portal
  pub raised : Option Error

-- `auth.can_perform_role`
unfoldable pub can_perform_role : Option Text → Text → Bool
can_perform_role granted requested = is_at_least granted requested

-- `data.get(key, default)`
abbrev pub or_default : Option Text → Text → Text
or_default none d = d
or_default (some t) d = t

-- A value if it is truthy, and `a or b` of two.
abbrev pub truthy : Option Text → Option Text
truthy none = none
truthy (some a) = if is_empty a then none else some a

abbrev pub first_truthy : Option Text → Option Text → Option Text
first_truthy a b = elim (truthy a) [ none ↦ truthy b | some x ↦ some x ]

-- `session.participant_id`, if it is truthy.
abbrev pub joined_id : Session → Option Text
joined_id s = truthy s.participant_id

-- The coordinates that a handler passes on. A participant's session has a language.
abbrev pub address_of : Session → Address
address_of s = record {
  booth_id = s.booth_id;
  language = or_default s.language [];
  channel_id = s.channel_id;
  room_id = none;
}

abbrev pub answer : List Output → Session → Portal → Turn
answer outputs s p = record { outputs = outputs; session = s; portal = p; raised = none }

-- The end of most handlers: an exception is sent back, a state is broadcast.
unfoldable pub reply_state : Session → Portal → Result PublicBooth × Registry → Turn
reply_state s p (err e, r) = answer (booth_error e ∷ []) s (record p { booths = r })
reply_state s p (ok state, r) = answer (to_booth state ∷ []) s (record p { booths = r })

-- The webhook for an interpreter who joined.
abbrev pub join_webhook : Text → Text → List Output
join_webhook role id = if role == interpreter then webhook id ∷ [] else []

-- The call that `_handle_join` makes.
abbrev pub join_call : JoinData → Text → Session → Fresh → Join
join_call d language s fresh = record {
  display_name = or_default d.display_name (codes "Interpreter");
  role = or_default d.role interpreter;
  language = language;
  channel_id = or_default d.channel_id (s.booth_id ++ codes "-audio");
  participant_id = d.participant_id;
  reclaim = elim d.participant_id [ none ↦ false | some k ↦ some k == s.participant_id ];
  joined_by = s.session_key;
  fresh = fresh.uuid;
  now = fresh.now;
}

-- The end of `_handle_join`.
unfoldable pub reply_joined :
    Text → Text → Text → Session → Portal → Result (Participant × PublicBooth) × Registry → Turn
reply_joined role language channel_id s p (err e, r) =
    answer (booth_error e ∷ []) s (record p { booths = r })
reply_joined role language channel_id s p (ok (who, state), r) =
    answer (joined who.participant_id state ∷ to_booth state ∷ join_webhook role who.participant_id)
      (record s {
        participant_id = some who.participant_id;
        language = some language;
        channel_id = channel_id;
      })
      (record p { booths = r })

-- `_handle_leave` catches nothing.
unfoldable pub reply_left : Session → Portal → Result PublicBooth × Registry → Turn
reply_left s p (err e, r) = record {
  outputs = [];
  session = s;
  portal = record p { booths = r };
  raised = some e;
}
reply_left s p (ok state, r) =
    answer (to_booth state ∷ []) (record s { participant_id = none }) (record p { booths = r })

unfoldable pub reply_chat : Session → Portal → Result (ChatMessage × PublicBooth) × Registry → Turn
reply_chat s p (err e, r) = answer (booth_error e ∷ []) s (record p { booths = r })
reply_chat s p (ok (message, state), r) =
    answer (chat_to_booth message ∷ to_booth state ∷ []) s (record p { booths = r })

-- A handler that needs a participant; without one it only answers.
abbrev pub needs_participant : List Output → Session → Portal → (Text → Turn) → Turn
needs_participant otherwise s p body = elim (joined_id s) [
  | none ↦ answer otherwise s p
  | some id ↦ body id
]

-- The ticket for a path, or what refused it.
unfoldable pub reply_path :
    (Text → Text) → Text → Session → Fresh → Portal → Registry → Result Text → Turn
reply_path hash id s fresh p r (err e) = answer (publish_refused e ∷ []) s (record p { booths = r })
reply_path hash id s fresh p r (ok path) = answer (publish_ticket fresh.secret ∷ []) s (record {
  booths = r;
  tickets = issue_ticket hash s.booth_id id path fresh.secret fresh.monotonic p.tickets;
})

-- `ok` with no value, for `event_slug` of a message that has none.
abbrev pub check_event : (Text → Text) → Option Text → Text → Result (Unit {0})
check_event lower none booth_id = ok tt
check_event lower (some slug) booth_id = validate_booth_event lower booth_id slug

module _ (lower : Text → Text) where
  unfoldable pub join_with : JoinData → Text → Option RoomValue → Session → Fresh → Portal → Turn
  unfolding reply_joined
  join_with d language room_id s fresh p =
      let j = join_call d language s fresh in
      reply_joined j.role language j.channel_id s p (
        registry_join lower
          (record {
            booth_id = s.booth_id;
            language = language;
            channel_id = j.channel_id;
            room_id = room_id;
          })
          j p.booths)

  unfoldable pub join_in : RoomField → JoinData → Text → Session → Fresh → Portal → Turn
  unfolding join_with
  join_in no_room d language s fresh p = join_with d language none s fresh p
  join_in (room v) d language s fresh p = join_with d language (some v) s fresh p
  join_in not_a_room d language s fresh p = answer (notice "room_id must be an integer." ∷ []) s p

  -- The end of `_handle_join`, by what the check of the event says.
  unfoldable pub join_checked :
      Result (Unit {0}) → JoinData → Text → Session → Fresh → Portal → Turn
  unfolding join_in
  join_checked (err e) d language s fresh p = answer (booth_error e ∷ []) s p
  join_checked (ok done) d language s fresh p = join_in d.room_id d language s fresh p

  unfoldable pub handle_join : JoinData → Session → Fresh → Portal → Turn
  unfolding can_perform_role join_checked
  handle_join d s fresh p = elim (first_truthy d.language s.language) [
    | none ↦ answer (notice "Language must be specified or configured for this booth." ∷ []) s p
    | some language ↦ elim s.granted_role [
      | none ↦ answer (notice "No role assigned for this session." ∷ []) s p
      | some granted ↦
          if not (can_perform_role (some granted) (or_default d.role interpreter))
          then answer (notice "Your assigned role (" ∷ []) s p
          else join_checked (check_event lower d.event_slug s.booth_id) d language s fresh p
    ]
  ]

  unfoldable pub handle_leave : Session → Portal → Turn
  unfolding reply_left
  handle_leave s p = elim (joined_id s) [
    | none ↦ answer [] s p
    | some id ↦ reply_left s p (registry_leave lower (address_of s) id p.booths)
  ]

  unfoldable pub handle_chat : Option Text → Session → Fresh → Portal → Turn
  unfolding reply_chat
  handle_chat body s fresh p =
      needs_participant (notice "Join the booth before sending messages." ∷ []) s p λ id.
        reply_chat s p
          (registry_add_chat_message lower (address_of s) id body fresh.uuid fresh.now p.booths)

  unfoldable pub handle_set_active : Option Text → Session → Fresh → Portal → Turn
  unfolding reply_state
  handle_set_active target s fresh p =
      needs_participant (notice "Join the booth first." ∷ []) s p λ id. elim (truthy target) [
        | none ↦ answer (notice "Missing target_id." ∷ []) s p
        | some target_id ↦
            reply_state s p
              (registry_set_active lower (address_of s) id target_id fresh.now p.booths)
      ]

  unfoldable pub handle_update_state : Flags → Session → Fresh → Portal → Turn
  unfolding reply_state
  handle_update_state flags s fresh p = needs_participant [] s p λ id.
      reply_state s p
        (registry_update_participant_state lower (address_of s) id flags fresh.now p.booths)

  -- What the ticket handler checks after the permission: the lock, then the path of the booth.
  unfoldable pub publish_path : Session → Registry → Result Text
  publish_path s r = do
    raise_if
        (elim (get_booth_sync s.booth_id r) [ none ↦ true | some b ↦ not b.broadcast_unlocked ])
        (permission_error "Broadcast is stopped by Mission Control.")
    booth_id_to_mediamtx_path lower s.booth_id

  unfoldable pub reply_ticket :
      (Text → Text) → Text → Session → Fresh → Portal → Result (Unit {0}) × Registry → Turn
  unfolding reply_path
  reply_ticket hash id s fresh p (err e, r) =
      answer (publish_refused e ∷ []) s (record p { booths = r })
  reply_ticket hash id s fresh p (ok done, r) = reply_path hash id s fresh p r (publish_path s r)

  unfoldable pub handle_request_publish_ticket : (Text → Text) → Session → Fresh → Portal → Turn
  unfolding reply_ticket
  handle_request_publish_ticket hash s fresh p =
      needs_participant (publish_refused (value_error "Join the booth before going live.") ∷ []) s p
        λ id.
          reply_ticket hash id s fresh p
            (registry_check_publish_permission lower (address_of s) id p.booths)

  -- The end of the lock's handler, by the value that the message has.
  unfoldable pub set_lock : Flag → Session → Fresh → Portal → Turn
  unfolding reply_state
  set_lock (flag value) s fresh p =
      reply_state s p
        (registry_set_broadcast_unlocked lower (address_of s) value fresh.now p.booths)
  set_lock _ s fresh p = answer (notice "unlocked must be a boolean." ∷ []) s p

  -- The transcription worker that is stopped on a lock is not part of the portal's state.
  unfoldable pub handle_set_broadcast_unlocked : Flag → Session → Fresh → Portal → Turn
  unfolding set_lock
  handle_set_broadcast_unlocked unlocked s fresh p =
      if not (can_set_active s.granted_role)
      then answer (notice "Only Room Coordinators can manage broadcast lock." ∷ []) s p
      else elim (truthy s.language) [
        | none ↦ answer (notice "Language must be specified or configured for this booth." ∷ []) s p
        | some language ↦ set_lock unlocked s fresh p
      ]

  unfoldable pub handle_initiate_handoff : Session → Portal → Turn
  unfolding reply_state
  handle_initiate_handoff s p =
      needs_participant (notice "Join the booth first." ∷ []) s p
        λ id. reply_state s p (registry_initiate_handoff lower (address_of s) id p.booths)

  unfoldable pub handle_accept_handoff : Session → Fresh → Portal → Turn
  unfolding reply_state
  handle_accept_handoff s fresh p =
      needs_participant (notice "Join the booth first." ∷ []) s p
        λ id. reply_state s p (registry_accept_handoff lower (address_of s) id fresh.now p.booths)

  unfoldable pub handle_cancel_handoff : Session → Portal → Turn
  unfolding reply_state
  handle_cancel_handoff s p =
      needs_participant (notice "Join the booth first." ∷ []) s p
        λ id. reply_state s p (registry_cancel_handoff lower (address_of s) id p.booths)

  -- The dispatch of `ws_booth` on a message.
  unfoldable pub handle : (Text → Text) → Message → Session → Fresh → Portal → Turn
  handle hash (join_booth d) s fresh p = handle_join d s fresh p
  handle hash leave_booth s fresh p = handle_leave s p
  handle hash (send_chat body) s fresh p = handle_chat body s fresh p
  handle hash (set_active target) s fresh p = handle_set_active target s fresh p
  handle hash (update_state flags) s fresh p = handle_update_state flags s fresh p
  handle hash request_publish_ticket s fresh p = handle_request_publish_ticket hash s fresh p
  handle hash (set_unlocked unlocked) s fresh p = handle_set_broadcast_unlocked unlocked s fresh p
  handle hash initiate s fresh p = handle_initiate_handoff s p
  handle hash accept s fresh p = handle_accept_handoff s fresh p
  handle hash cancel s fresh p = handle_cancel_handoff s p
  handle hash invalid_json s fresh p = answer (notice "Invalid JSON." ∷ []) s p
  handle hash not_an_object s fresh p = answer (notice "Message must be a JSON object." ∷ []) s p
  handle hash unknown_type s fresh p = answer (notice "Unknown message type: " ∷ []) s p
