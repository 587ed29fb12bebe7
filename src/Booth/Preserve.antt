-- ===== src/Booth/Preserve.antt =====
-- The validity of a booth under every call: portal/booth_state.py.
use voxbento.Prelude.{◌≡◌, refl, true, Option, some, inl, inr, Text, Result, ok, err, Result-cases}
use voxbento.Roles.{can_go_live}
use voxbento.Booth.{Booth}
use voxbento.Booth.Calls.{add_chat_message, mark_overloaded}
use voxbento.Booth.Handoff.{
  set_active_interpreter, initiate_handoff, accept_handoff, cancel_handoff,
}
use voxbento.Booth.Calls.{update_participant_state}
use voxbento.Booth.Chat.{add_chat_message_ok}
use voxbento.Booth.Step.{
  Call, join, leave, unlock, set_active, initiate, accept, cancel, chat, update, overload, after,
  after_chat, perform,
}
use voxbento.Booth.Valid.{IsValid}
use voxbento.Booth.Switching.{
  set_active_interpreter-IsValid, accept_handoff-IsValid, initiate_handoff-IsValid,
  cancel_handoff-IsValid,
}
use voxbento.Booth.Entering.{
  set_broadcast_unlocked-IsValid, update_participant_state-IsValid, join_participant-IsValid,
}
use voxbento.Booth.Leaving.{leave_participant-IsValid}

after-IsValid :
    (b : Booth) (r : Result Booth)
    → IsValid b
    → ((b' : Booth) → r ≡ ok b' → IsValid b')
    → IsValid (after b r)
after-IsValid b (ok b') v h = h b' refl
after-IsValid b (err e) v h = v

chat-IsValid :
    (id : Text) (body : Option Text) (fresh now : Text) (b : Booth)
    → IsValid b
    → IsValid (after_chat b (add_chat_message id body fresh now b))
chat-IsValid id body fresh now b v = elim (Result-cases (add_chat_message id body fresh now b)) [
  | inr (x, e) ↦ rw e v
  | inl ((m, b'), e) ↦ rw e (
      rw (add_chat_message_ok id body fresh now b m b' e).10 (record {
        entries = v.entries;
        filled = v.filled;
        negotiated = v.negotiated;
        reported = v.reported;
      }))
]

-- Who joins has a role that can go live: every role that is_at_least some role is one of the four.
abbrev pub IsRoleCall : Call → Type 0
IsRoleCall (join j) = can_go_live (some j.role) ≡ true
IsRoleCall _ = Unit

-- Every call on a valid booth leaves a valid booth, whether it raises or not, as long as who joins has
-- a role that can go live.
pub perform-IsValid : (c : Call) (b : Booth) → IsRoleCall c → IsValid b → IsValid (perform c b)
unfolding perform mark_overloaded
perform-IsValid (join j) b r v = join_participant-IsValid j b r v
perform-IsValid (leave id) b r v = leave_participant-IsValid id b v
perform-IsValid (unlock u now) b r v = set_broadcast_unlocked-IsValid u now b v
perform-IsValid (set_active q t now) b r v =
    after-IsValid b (set_active_interpreter q t now b) v
      (λ b' h. set_active_interpreter-IsValid q t now b b' v h)
perform-IsValid (initiate id) b r v =
    after-IsValid b (initiate_handoff id b) v (λ b' h. initiate_handoff-IsValid id b b' v h)
perform-IsValid (accept id now) b r v =
    after-IsValid b (accept_handoff id now b) v (λ b' h. accept_handoff-IsValid id now b b' v h)
perform-IsValid (cancel id) b r v =
    after-IsValid b (cancel_handoff id b) v (λ b' h. cancel_handoff-IsValid id b b' v h)
perform-IsValid (chat id body fresh now) b r v = chat-IsValid id body fresh now b v
perform-IsValid (update id f now) b r v =
    after-IsValid b (update_participant_state id f now b) v
      (λ b' h. update_participant_state-IsValid id f now b b' v h)
perform-IsValid overload b r v = record {
  entries = v.entries;
  filled = v.filled;
  negotiated = v.negotiated;
  reported = λ h. refl;
}
