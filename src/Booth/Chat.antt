-- ===== src/Booth/Chat.antt =====
-- The chat of a booth: portal/booth_state.py.
use voxbento.Prelude.{
  ◌≤◌, ◌≡◌, refl, false, Option, none, some, Option-cases, inl, inr, List, [], ◌∷◌, ◌++◌, Text, get,
  ltb, is_empty, length, length-last-le, last, if◌then◌else◌, strip, ok, arith,
}
use voxbento.Booth.{Participant, Booth, ChatMessage}
use voxbento.Booth.Calls.{add_chat_message, chat_message_max_length, chat_history}

-- The history after one more message.
abbrev kept : List ChatMessage → List ChatMessage
kept ms = if ltb chat_history (length ms) then last chat_history ms else ms

length-kept-le : (ms : List ChatMessage) → length (kept ms) ≤ chat_history
length-kept-le ms = ground (arith, length-last-le chat_history ms)

-- An accepted chat message is the stripped text that was sent, is not empty and at most 1000 characters
-- long, and carries the ID and the display name of the participant of the booth who sent it; the
-- history, with the message at its end, then holds at most 500 messages, and nothing else in the booth
-- has changed.
pub add_chat_message_ok :
    (id : Text) (body : Option Text) (fresh now : Text) (b : Booth) (m : ChatMessage) (b' : Booth)
    → add_chat_message id body fresh now b ≡ ok (m, b')
    → (p : Participant) × (text : Text) × (get id b.participants ≡ some p)
      × (body ≡ some text)
      × (m.sender_id ≡ id)
      × (m.sender_name ≡ p.display_name)
      × (m.body ≡ strip text)
      × (is_empty m.body ≡ false)
      × (length m.body ≤ chat_message_max_length)
      × (length b'.chat_messages ≤ chat_history)
      × (b' ≡ record b { chat_messages = kept (b.chat_messages ++ m ∷ []) })
unfolding add_chat_message
add_chat_message_ok id none fresh now b m b' h = elim (Option-cases (get id b.participants)) [
  | inl e ↦ absurd (ground arith)
  | inr (p, e) ↦ absurd (ground arith)
]
add_chat_message_ok id (some text) fresh now b m b' h =
    elim (Option-cases (get id b.participants)) [
      | inl e ↦ absurd (ground arith)
      | inr (p, e) ↦ (
        p,
        text,
        e,
        refl,
        ground arith,
        ground arith,
        ground arith,
        ground arith,
        ground arith,
        ground (arith, length-kept-le (b.chat_messages ++ m ∷ [])),
        ground arith,
      )
    ]
