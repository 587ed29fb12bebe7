-- ===== src/Sockets/Refusal.antt =====
-- Messages that are refused: the handlers of portal/websockets/manager.py.
use voxbento.Prelude.{
  ◌≡◌, refl, true, not, Option, none, some, of_if, of_option, List, Text, any, get, Result, ok, err,
  ◌>>=◌,
}
use voxbento.Identity.{RoomValue}
use voxbento.Roles.{interpreter, can_set_active}
use voxbento.Booth.{Booth, Participant, ChatMessage}
use voxbento.Booth.Public.{PublicBooth, as_public_dict}
use voxbento.Booth.Calls.{
  Flag, absent, flag, not_boolean, join_participant, set_broadcast_unlocked, add_chat_message,
  update_participant_state,
}
use voxbento.Booth.Handoff.{
  set_active_interpreter, initiate_handoff, accept_handoff, cancel_handoff,
}
use voxbento.Registry.{
  Address, published, registry_join, registry_leave, registry_set_broadcast_unlocked,
  registry_set_active, registry_initiate_handoff, registry_accept_handoff, registry_cancel_handoff,
  registry_add_chat_message, registry_update_participant_state, registry_check_publish_permission,
}
use voxbento.Connections.{Session}
use voxbento.Sockets.Messages.{
  Output, Message, JoinData, RoomField, no_room, room, not_a_room, join_booth, leave_booth,
  send_chat, set_active, update_state, request_publish_ticket, set_unlocked, initiate, accept,
  cancel, invalid_json, not_an_object, unknown_type, Fresh, Portal, Turn, or_default, first_truthy,
  truthy, joined_id, address_of, join_call, check_event, needs_participant, can_perform_role,
  join_with, join_in, join_checked, handle_join, handle_leave, handle_chat, set_lock,
  handle_set_active, handle_update_state, handle_request_publish_ticket,
  handle_set_broadcast_unlocked, handle_initiate_handoff, handle_accept_handoff,
  handle_cancel_handoff, handle,
}
use voxbento.Sockets.Replies.{
  is_refusal, Harmless, check-Holds, framed, unchanged, state-Harmless, chat-Harmless,
  left-Harmless, joined-Harmless, ticket-Harmless,
}

module _ (lower : Text → Text) where
  module _ (s : Session) (p : Portal) where
    join-Harmless :
        (d : JoinData) (language : Text) (room_id : Option RoomValue) (fresh : Fresh)
        → Harmless s p (join_with lower d language room_id s fresh p)
    unfolding join_with registry_join
    join-Harmless d language room_id fresh =
        let j = join_call d language s fresh in
        let a : Address = record {
          booth_id = s.booth_id;
          language = language;
          channel_id = j.channel_id;
          room_id = room_id;
        } in
        joined-Harmless lower s p j.role language j.channel_id (registry_join lower a j p.booths)
          λ e h.
            framed lower s p (Participant × PublicBooth) a
              (λ b. ok (
                ((join_participant j b).0, as_public_dict (join_participant j b).1),
                (join_participant j b).1,
              ))
              e h

    join_in-Harmless :
        (room_id : RoomField) (d : JoinData) (language : Text) (fresh : Fresh)
        → Harmless s p (join_in lower room_id d language s fresh p)
    unfolding join_in
    join_in-Harmless no_room d language fresh = join-Harmless d language none fresh
    join_in-Harmless (room v) d language fresh = join-Harmless d language (some v) fresh
    join_in-Harmless not_a_room d language fresh = λ y. (refl, refl, unchanged lower s p)

    join_checked-Harmless :
        (m : Result (Unit {0})) (d : JoinData) (language : Text) (fresh : Fresh)
        → Harmless s p (join_checked lower m d language s fresh p)
    unfolding join_checked
    join_checked-Harmless (err e) d language fresh = λ y. (refl, refl, unchanged lower s p)
    join_checked-Harmless (ok done) d language fresh = join_in-Harmless d.room_id d language fresh

    set_lock-Harmless :
        (unlocked : Flag) (fresh : Fresh) → Harmless s p (set_lock lower unlocked s fresh p)
    unfolding set_lock registry_set_broadcast_unlocked
    set_lock-Harmless (flag value) fresh =
        state-Harmless lower s p
          (registry_set_broadcast_unlocked lower (address_of s) value fresh.now p.booths)
          λ e h.
            framed lower s p PublicBooth (address_of s)
              (λ b. published (set_broadcast_unlocked value fresh.now b)) e h
    set_lock-Harmless absent fresh = λ y. (refl, refl, unchanged lower s p)
    set_lock-Harmless not_boolean fresh = λ y. (refl, refl, unchanged lower s p)

    handle_join-Harmless :
        (d : JoinData) (fresh : Fresh) → Harmless s p (handle_join lower d s fresh p)
    unfolding handle_join
    handle_join-Harmless d fresh =
        of_option (Harmless s p) (first_truthy d.language s.language) _ _
          (λ e y. (refl, refl, unchanged lower s p))
          λ language e.
            of_option (Harmless s p) s.granted_role _ _ (λ e y. (refl, refl, unchanged lower s p))
              λ granted e.
                let role = or_default d.role interpreter in
                of_if (Harmless s p) (not (can_perform_role (some granted) role)) _ _
                  (λ h y. (refl, refl, unchanged lower s p))
                  λ h.
                    join_checked-Harmless (check_event lower d.event_slug s.booth_id) d language
                      fresh

    with_id :
        (outputs : List Output) (body : Text → Turn)
        → ((id : Text) → Harmless s p (body id))
        → Harmless s p (needs_participant outputs s p body)
    with_id outputs body h =
        of_option (Harmless s p) (joined_id s) _ _ (λ e y. (refl, refl, unchanged lower s p))
          λ id e. h id

    handle_chat-Harmless :
        (body : Option Text) (fresh : Fresh) → Harmless s p (handle_chat lower body s fresh p)
    unfolding handle_chat registry_add_chat_message
    handle_chat-Harmless body fresh = with_id _ _ λ id.
        chat-Harmless lower s p
          (registry_add_chat_message lower (address_of s) id body fresh.uuid fresh.now p.booths)
          λ e h.
            framed lower s p (ChatMessage × PublicBooth) (address_of s)
              (λ b. add_chat_message id body fresh.uuid fresh.now b >>= λ m.
                ok ((m.0, as_public_dict m.1), m.1))
              e h

    handle_set_active-Harmless :
        (target : Option Text) (fresh : Fresh)
        → Harmless s p (handle_set_active lower target s fresh p)
    unfolding handle_set_active registry_set_active
    handle_set_active-Harmless target fresh = with_id _ _ λ id.
        of_option (Harmless s p) (truthy target) _ _ (λ e y. (refl, refl, unchanged lower s p))
          λ chosen e.
            state-Harmless lower s p
              (registry_set_active lower (address_of s) id chosen fresh.now p.booths)
              λ e h.
                framed lower s p PublicBooth (address_of s)
                  (λ b. set_active_interpreter id chosen fresh.now b >>= published) e h

    handle-Harmless :
        (hash : Text → Text) (m : Message) (fresh : Fresh)
        → Harmless s p (handle lower hash m s fresh p)
    unfolding handle handle_leave handle_update_state handle_request_publish_ticket
        handle_set_broadcast_unlocked handle_initiate_handoff handle_accept_handoff
        handle_cancel_handoff registry_update_participant_state registry_initiate_handoff
        registry_accept_handoff registry_cancel_handoff
    handle-Harmless hash (join_booth d) fresh = handle_join-Harmless d fresh
    handle-Harmless hash leave_booth fresh =
        with_id _ _ λ id. left-Harmless lower s p (registry_leave lower (address_of s) id p.booths)
    handle-Harmless hash (send_chat body) fresh = handle_chat-Harmless body fresh
    handle-Harmless hash (set_active target) fresh = handle_set_active-Harmless target fresh
    handle-Harmless hash (update_state flags) fresh = with_id _ _ λ id.
        state-Harmless lower s p
          (registry_update_participant_state lower (address_of s) id flags fresh.now p.booths)
          λ e h.
            framed lower s p PublicBooth (address_of s)
              (λ b. update_participant_state id flags fresh.now b >>= published) e h
    handle-Harmless hash request_publish_ticket fresh = with_id _ _ λ id.
        ticket-Harmless lower s p hash id fresh
          (registry_check_publish_permission lower (address_of s) id p.booths)
          (check-Holds lower (address_of s) id p.booths)
    handle-Harmless hash (set_unlocked unlocked) fresh =
        of_if (Harmless s p) (not (can_set_active s.granted_role)) _ _
          (λ h y. (refl, refl, unchanged lower s p))
          λ h.
            of_option (Harmless s p) (truthy s.language) _ _
              (λ e y. (refl, refl, unchanged lower s p))
              λ language e. set_lock-Harmless unlocked fresh
    handle-Harmless hash initiate fresh = with_id _ _ λ id.
        state-Harmless lower s p (registry_initiate_handoff lower (address_of s) id p.booths) λ e h.
          framed lower s p PublicBooth (address_of s) (λ b. initiate_handoff id b >>= published) e h
    handle-Harmless hash accept fresh = with_id _ _ λ id.
        state-Harmless lower s p
          (registry_accept_handoff lower (address_of s) id fresh.now p.booths)
          λ e h.
            framed lower s p PublicBooth (address_of s)
              (λ b. accept_handoff id fresh.now b >>= published) e h
    handle-Harmless hash cancel fresh = with_id _ _ λ id.
        state-Harmless lower s p (registry_cancel_handoff lower (address_of s) id p.booths) λ e h.
          framed lower s p PublicBooth (address_of s) (λ b. cancel_handoff id b >>= published) e h
    handle-Harmless hash invalid_json fresh = λ y. (refl, refl, unchanged lower s p)
    handle-Harmless hash not_an_object fresh = λ y. (refl, refl, unchanged lower s p)
    handle-Harmless hash unknown_type fresh = λ y. (refl, refl, unchanged lower s p)

-- A message that is refused has no effect: if an answer to it is an error, of whichever kind, the session
-- and the tickets are as they were before, and so is every booth that there was.
pub handle_refused :
    (lower hash : Text → Text) (m : Message) (s : Session) (fresh : Fresh) (p : Portal) (k : Text)
    (b : Booth)
    → any is_refusal (handle lower hash m s fresh p).outputs ≡ true
    → get k p.booths ≡ some b
    → ((handle lower hash m s fresh p).session ≡ s)
      × ((handle lower hash m s fresh p).portal.tickets ≡ p.tickets)
      × (get k (handle lower hash m s fresh p).portal.booths ≡ some b)
handle_refused lower hash m s fresh p k b refused there =
    let (session, tickets, booths) = handle-Harmless lower s p hash m fresh refused in
    (session, tickets, booths k b there)
