-- ===== src/Booth/Valid.antt =====
-- What holds of a booth between two calls of `BoothRegistry` (portal/booth_state.py).
use voxbento.Prelude.{
  ◌≡◌, Bool, true, false, ◌&&◌, ◌||◌, not, Option, none, some, Text, text_eq, opt_eq, is_empty, any,
  Dict, values, has, All,
}
use voxbento.Roles.{can_go_live}
use voxbento.Booth.{
  Participant, HandoffState, idle, offered, requested, IngestStatus, disconnected, Booth,
}

abbrev pub is_on_air : Participant → Bool
is_on_air p = p.mic_active || p.ingest_connected

-- An entry stands under its participant's ID, can go live, and is on air only if it is active.
abbrev pub Fits : Option Text → Text → Participant → Type 0
Fits active k p =
    (text_eq p.participant_id k ≡ true)
    × (can_go_live (some p.role) ≡ true)
    × (is_on_air p ≡ true → opt_eq active (some k) ≡ true)

-- The active interpreter is in the booth, and there is one unless the booth is empty.
abbrev pub is_filled : Option Text → Dict Participant → Bool
is_filled none ps = is_empty ps
is_filled (some a) ps = has a ps

-- Only a handoff in progress has an initiator: the active interpreter for an offer, and another
-- participant for a request.
abbrev pub is_negotiated : HandoffState → Option Text → Option Text → Dict Participant → Bool
is_negotiated idle none active ps = true
is_negotiated offered (some i) active ps = opt_eq active (some i)
is_negotiated requested (some i) active ps = has i ps && not (opt_eq active (some i))
is_negotiated _ _ active ps = false

abbrev pub is_disconnected : IngestStatus → Bool
is_disconnected disconnected = true
is_disconnected _ = false

abbrev pub has_publisher : Dict Participant → Bool
has_publisher ps = any (λ p. p.ingest_connected) (values ps)

pub record IsValid (b : Booth) : Type 0 where
  pub entries : All (Fits b.active_interpreter_id) b.participants
  pub filled : is_filled b.active_interpreter_id b.participants ≡ true
  pub negotiated :
      is_negotiated b.handoff_state b.handoff_initiator_id b.active_interpreter_id b.participants
      ≡ true
  pub reported : has_publisher b.participants ≡ true → is_disconnected b.ingest_status ≡ false
