-- ===== src/Booth/Step.antt =====
-- A call on a booth, and what the booth is after it: portal/booth_state.py. A call that raises
-- leaves the booth as it was.
use voxbento.Prelude.{Bool, Option, Text, Result, ok, err}
use voxbento.Booth.{Booth, ChatMessage}
use voxbento.Booth.Calls.{
  Join, Flags, join_participant, leave_participant, set_broadcast_unlocked, add_chat_message,
  update_participant_state, mark_overloaded,
}
use voxbento.Booth.Handoff.{
  set_active_interpreter, initiate_handoff, accept_handoff, cancel_handoff,
}

pub data Call : Type 0 where
  join : Join → Call
  leave : Text → Call
  unlock : Bool → Text → Call
  set_active : Text → Text → Text → Call
  initiate : Text → Call
  accept : Text → Text → Call
  cancel : Text → Call
  chat : Text → Option Text → Text → Text → Call
  update : Text → Flags → Text → Call
  overload : Call

abbrev pub after : Booth → Result Booth → Booth
after b (ok b') = b'
after b (err e) = b

abbrev pub after_chat : Booth → Result (ChatMessage × Booth) → Booth
after_chat b (ok (m, b')) = b'
after_chat b (err e) = b

unfoldable pub perform : Call → Booth → Booth
perform (join j) b = (join_participant j b).1
perform (leave id) b = leave_participant id b
perform (unlock unlocked now) b = set_broadcast_unlocked unlocked now b
perform (set_active requester target now) b =
    after b (set_active_interpreter requester target now b)
perform (initiate id) b = after b (initiate_handoff id b)
perform (accept id now) b = after b (accept_handoff id now b)
perform (cancel id) b = after b (cancel_handoff id b)
perform (chat id body fresh now) b = after_chat b (add_chat_message id body fresh now b)
perform (update id flags now) b = after b (update_participant_state id flags now b)
perform overload b = mark_overloaded b
