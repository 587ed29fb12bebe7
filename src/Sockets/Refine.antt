-- ===== src/Sockets/Refine.antt =====
-- The booths behind the connections: portal/websockets/manager.py and portal/websockets/handlers.py
-- on portal/booth_state.py.
use voxbento.Prelude.{
  ◌≡◌, refl, sym, ◌∙◌, subst, ap, true, not, Option, none, some, of_if, of_option, List, [], ◌∷◌,
  ◌++◌, Text, arith, Result, ok, err,
}
use voxbento.Identity.{RoomValue}
use voxbento.Roles.{interpreter, can_go_live, can_set_active}
use voxbento.Roles.Laws.{is_at_least-can_go_live}
use voxbento.Booth.{Participant, ChatMessage}
use voxbento.Booth.Public.{PublicBooth}
use voxbento.Booth.Calls.{Flag, absent, flag, not_boolean}
use voxbento.Registry.{
  Registry, Address, registry_join, registry_leave, registry_add_chat_message,
  registry_check_publish_permission,
}
use voxbento.Registry.Methods.{
  MethodCall, joining, leaving, unlocking, activating, initiating, accepting, cancelling, chatting,
  updating, checking, IsRoleMethod, AllRoleMethods, call, calls,
}
use voxbento.Connections.{Session}
use voxbento.Sockets.Messages.{
  Message, JoinData, RoomField, no_room, room, not_a_room, join_booth, leave_booth, send_chat,
  set_active, update_state, request_publish_ticket, set_unlocked, initiate, accept, cancel,
  invalid_json, not_an_object, unknown_type, Fresh, Portal, Turn, or_default, first_truthy, truthy,
  joined_id, address_of, join_call, reply_state, reply_joined, reply_left, reply_chat, reply_ticket,
  reply_path, publish_path, check_event, can_perform_role, join_with, join_in, join_checked,
  handle_join, handle_leave, handle_chat, set_lock, handle_set_active, handle_update_state,
  handle_request_publish_ticket, handle_set_broadcast_unlocked, handle_initiate_handoff,
  handle_accept_handoff, handle_cancel_handoff, handle,
}

module _ (lower : Text → Text) where
  -- Method calls that lead from one registry to another; who joins has a role that can go live.
  abbrev pub Reaches : Registry → Registry → Type 0
  Reaches r r' = (cs : List MethodCall) × AllRoleMethods cs × (r' ≡ calls lower cs r)

  pub stays : (r : Registry) → Reaches r r
  unfolding calls
  stays r = ([], tt, refl)

  pub by_call : (c : MethodCall) (r : Registry) → IsRoleMethod c → Reaches r (call lower c r)
  unfolding calls
  by_call c r w = (c ∷ [], (w, tt), refl)

  calls-append :
      (cs ds : List MethodCall) (r : Registry)
      → calls lower (cs ++ ds) r ≡ calls lower ds (calls lower cs r)
  unfolding calls
  calls-append [] ds r = refl
  calls-append (c ∷ cs) ds r = calls-append cs ds (call lower c r)

  AllRoleMethods-append :
      (cs ds : List MethodCall) → AllRoleMethods cs → AllRoleMethods ds → AllRoleMethods (cs ++ ds)
  AllRoleMethods-append [] ds v w = w
  AllRoleMethods-append (c ∷ cs) ds v w = (v.0, AllRoleMethods-append cs ds v.1 w)

  pub Reaches-trans : (r s t : Registry) → Reaches r s → Reaches s t → Reaches r t
  Reaches-trans r s t (cs, v, e) (ds, w, f) = (
    cs ++ ds,
    AllRoleMethods-append cs ds v w,
    f ∙ ap (calls lower ds) e ∙ sym (calls-append cs ds r),
  )

  reached : (c : MethodCall) (r s : Registry) → IsRoleMethod c → s ≡ call lower c r → Reaches r s
  reached c r s w e = subst (Reaches r) (sym e) (by_call c r w)

-- What a reply keeps of the registry that a method left.
reply_state-booths :
    (s : Session) (p : Portal) (m : Result PublicBooth) (r : Registry)
    → (reply_state s p (m, r)).portal.booths ≡ r
unfolding reply_state
reply_state-booths s p (ok x) r = refl
reply_state-booths s p (err e) r = refl

reply_joined-booths :
    (role language channel : Text) (s : Session) (p : Portal)
    (m : Result (Participant × PublicBooth)) (r : Registry)
    → (reply_joined role language channel s p (m, r)).portal.booths ≡ r
unfolding reply_joined
reply_joined-booths role language channel s p (ok (x, y)) r = refl
reply_joined-booths role language channel s p (err e) r = refl

reply_left-booths :
    (s : Session) (p : Portal) (m : Result PublicBooth) (r : Registry)
    → (reply_left s p (m, r)).portal.booths ≡ r
unfolding reply_left
reply_left-booths s p (ok x) r = refl
reply_left-booths s p (err e) r = refl

reply_chat-booths :
    (s : Session) (p : Portal) (m : Result (ChatMessage × PublicBooth)) (r : Registry)
    → (reply_chat s p (m, r)).portal.booths ≡ r
unfolding reply_chat
reply_chat-booths s p (ok (x, y)) r = refl
reply_chat-booths s p (err e) r = refl

reply_path-booths :
    (hash : Text → Text) (id : Text) (s : Session) (fresh : Fresh) (p : Portal) (r : Registry)
    (m : Result Text)
    → (reply_path hash id s fresh p r m).portal.booths ≡ r
unfolding reply_path
reply_path-booths hash id s fresh p r (err e) = refl
reply_path-booths hash id s fresh p r (ok path) = refl

module _ (lower : Text → Text) where
  reply_ticket-booths :
      (hash : Text → Text) (id : Text) (s : Session) (fresh : Fresh) (p : Portal)
      (m : Result (Unit {0})) (r : Registry)
      → (reply_ticket lower hash id s fresh p (m, r)).portal.booths ≡ r
  unfolding reply_ticket
  reply_ticket-booths hash id s fresh p (err e) r = refl
  reply_ticket-booths hash id s fresh p (ok x) r =
      reply_path-booths hash id s fresh p r (publish_path lower s r)

  -- What a turn makes of the booths, by its tests.
  abbrev Keeps : Portal → Turn → Type 0
  Keeps p t = Reaches lower p.booths t.portal.booths

  -- One call in a booth, and the reply to it.
  replied :
      (s : Session) (p : Portal) (c : MethodCall) (m : Result PublicBooth × Registry)
      → IsRoleMethod c
      → m.1 ≡ call lower c p.booths
      → Reaches lower p.booths (reply_state s p m).portal.booths
  replied s p c m w e =
      reached lower c p.booths (reply_state s p m).portal.booths w
        (reply_state-booths s p m.0 m.1 ∙ e)

  join-Reaches :
      (d : JoinData) (language : Text) (room_id : Option RoomValue) (s : Session) (fresh : Fresh)
      (p : Portal)
      → can_go_live (some (or_default d.role interpreter)) ≡ true
      → Reaches lower p.booths (join_with lower d language room_id s fresh p).portal.booths
  unfolding join_with call
  join-Reaches d language room_id s fresh p w =
      let j = join_call d language s fresh in
      let a : Address = record {
        booth_id = s.booth_id;
        language = language;
        channel_id = j.channel_id;
        room_id = room_id;
      } in
      let m = registry_join lower a j p.booths in
      reached lower (joining a j) p.booths
        (reply_joined j.role language j.channel_id s p m).portal.booths w
        (reply_joined-booths j.role language j.channel_id s p m.0 m.1)

  join_in-Reaches :
      (room_id : RoomField) (d : JoinData) (language : Text) (s : Session) (fresh : Fresh)
      (p : Portal)
      → can_go_live (some (or_default d.role interpreter)) ≡ true
      → Keeps p (join_in lower room_id d language s fresh p)
  unfolding join_in
  join_in-Reaches no_room d language s fresh p w = join-Reaches d language none s fresh p w
  join_in-Reaches (room v) d language s fresh p w = join-Reaches d language (some v) s fresh p w
  join_in-Reaches not_a_room d language s fresh p w = stays lower p.booths

  join_checked-Reaches :
      (m : Result (Unit {0})) (d : JoinData) (language : Text) (s : Session) (fresh : Fresh)
      (p : Portal)
      → can_go_live (some (or_default d.role interpreter)) ≡ true
      → Keeps p (join_checked lower m d language s fresh p)
  unfolding join_checked
  join_checked-Reaches (err e) d language s fresh p w = stays lower p.booths
  join_checked-Reaches (ok done) d language s fresh p w =
      join_in-Reaches d.room_id d language s fresh p w

  handle_join-Reaches :
      (d : JoinData) (s : Session) (fresh : Fresh) (p : Portal)
      → Keeps p (handle_join lower d s fresh p)
  unfolding handle_join can_perform_role
  handle_join-Reaches d s fresh p =
      of_option (Keeps p) (first_truthy d.language s.language) _ _ (λ t. stays lower p.booths)
        λ language e.
          of_option (Keeps p) s.granted_role _ _ (λ t. stays lower p.booths)
            λ granted e.
              let role = or_default d.role interpreter in
              of_if (Keeps p) (not (can_perform_role (some granted) role)) _ _
                (λ t. stays lower p.booths)
                λ h.
                  join_checked-Reaches (check_event lower d.event_slug s.booth_id) d language s
                    fresh p (is_at_least-can_go_live (some granted) role (ground arith))

  handle_leave-Reaches : (s : Session) (p : Portal) → Keeps p (handle_leave lower s p)
  unfolding handle_leave call
  handle_leave-Reaches s p =
      of_option (Keeps p) (joined_id s) _ _ (λ t. stays lower p.booths)
        λ id e.
          let m = registry_leave lower (address_of s) id p.booths in
          reached lower (leaving (address_of s) id) p.booths (reply_left s p m).portal.booths tt
            (reply_left-booths s p m.0 m.1)

  handle_chat-Reaches :
      (body : Option Text) (s : Session) (fresh : Fresh) (p : Portal)
      → Keeps p (handle_chat lower body s fresh p)
  unfolding handle_chat call
  handle_chat-Reaches body s fresh p =
      of_option (Keeps p) (joined_id s) _ _ (λ t. stays lower p.booths)
        λ id e.
          let m =
            registry_add_chat_message lower (address_of s) id body fresh.uuid fresh.now p.booths in
          reached lower (chatting (address_of s) id body fresh.uuid fresh.now) p.booths
            (reply_chat s p m).portal.booths tt (reply_chat-booths s p m.0 m.1)

  handle_request_publish_ticket-Reaches :
      (hash : Text → Text) (s : Session) (fresh : Fresh) (p : Portal)
      → Keeps p (handle_request_publish_ticket lower hash s fresh p)
  unfolding handle_request_publish_ticket call
  handle_request_publish_ticket-Reaches hash s fresh p =
      of_option (Keeps p) (joined_id s) _ _ (λ t. stays lower p.booths)
        λ id e.
          let m = registry_check_publish_permission lower (address_of s) id p.booths in
          reached lower (checking (address_of s) id) p.booths
            (reply_ticket lower hash id s fresh p m).portal.booths tt
            (reply_ticket-booths hash id s fresh p m.0 m.1)

  set_lock-Reaches :
      (unlocked : Flag) (s : Session) (fresh : Fresh) (p : Portal)
      → Keeps p (set_lock lower unlocked s fresh p)
  unfolding set_lock call
  set_lock-Reaches (flag value) s fresh p =
      replied s p (unlocking (address_of s) value fresh.now) _ tt refl
  set_lock-Reaches absent s fresh p = stays lower p.booths
  set_lock-Reaches not_boolean s fresh p = stays lower p.booths

  handle_set_broadcast_unlocked-Reaches :
      (unlocked : Flag) (s : Session) (fresh : Fresh) (p : Portal)
      → Keeps p (handle_set_broadcast_unlocked lower unlocked s fresh p)
  unfolding handle_set_broadcast_unlocked
  handle_set_broadcast_unlocked-Reaches unlocked s fresh p =
      of_if (Keeps p) (not (can_set_active s.granted_role)) _ _ (λ t. stays lower p.booths)
        λ h.
          of_option (Keeps p) (truthy s.language) _ _ (λ t. stays lower p.booths)
            λ language e. set_lock-Reaches unlocked s fresh p

  -- Each message is at most one method call on the booths.
  pub handle-Reaches :
      (hash : Text → Text) (m : Message) (s : Session) (fresh : Fresh) (p : Portal)
      → Keeps p (handle lower hash m s fresh p)
  unfolding handle handle_set_active handle_update_state handle_initiate_handoff
      handle_accept_handoff handle_cancel_handoff call
  handle-Reaches hash (join_booth d) s fresh p = handle_join-Reaches d s fresh p
  handle-Reaches hash leave_booth s fresh p = handle_leave-Reaches s p
  handle-Reaches hash (send_chat body) s fresh p = handle_chat-Reaches body s fresh p
  handle-Reaches hash (set_active target) s fresh p =
      of_option (Keeps p) (joined_id s) _ _ (λ t. stays lower p.booths)
        λ id e.
          of_option (Keeps p) (truthy target) _ _ (λ t. stays lower p.booths)
            λ chosen e. replied s p (activating (address_of s) id chosen fresh.now) _ tt refl
  handle-Reaches hash (update_state flags) s fresh p =
      of_option (Keeps p) (joined_id s) _ _ (λ t. stays lower p.booths)
        λ id e. replied s p (updating (address_of s) id flags fresh.now) _ tt refl
  handle-Reaches hash request_publish_ticket s fresh p =
      handle_request_publish_ticket-Reaches hash s fresh p
  handle-Reaches hash (set_unlocked unlocked) s fresh p =
      handle_set_broadcast_unlocked-Reaches unlocked s fresh p
  handle-Reaches hash initiate s fresh p =
      of_option (Keeps p) (joined_id s) _ _ (λ t. stays lower p.booths)
        λ id e. replied s p (initiating (address_of s) id) _ tt refl
  handle-Reaches hash accept s fresh p =
      of_option (Keeps p) (joined_id s) _ _ (λ t. stays lower p.booths)
        λ id e. replied s p (accepting (address_of s) id fresh.now) _ tt refl
  handle-Reaches hash cancel s fresh p =
      of_option (Keeps p) (joined_id s) _ _ (λ t. stays lower p.booths)
        λ id e. replied s p (cancelling (address_of s) id) _ tt refl
  handle-Reaches hash invalid_json s fresh p = stays lower p.booths
  handle-Reaches hash not_an_object s fresh p = stays lower p.booths
  handle-Reaches hash unknown_type s fresh p = stays lower p.booths
