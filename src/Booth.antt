-- ===== src/Booth.antt =====
-- portal/booth_state.py: the data of one booth. The methods of `BoothRegistry` fall into a part that
-- works on one booth, in `Booth.Calls` and `Booth.Handoff`, and the registry around it, in `Registry`.
-- Times are texts that the caller gives: one `utc_now_iso()` for each call.
pub mod Calls
pub mod Handoff
pub mod Public
pub mod Step
pub mod Valid
pub mod Entries
pub mod Switching
pub mod Entering
pub mod Leaving
pub mod Preserve
pub mod Chat
pub mod Safety
pub mod Handover
mod Tests
use voxbento.Prelude.{
  ℕ, Bool, true, false, ◌&&◌, ◌||◌, Option, none, some, List, [], ◌∷◌, Text, ◌==◌, text_has_eq,
  is_empty, if◌then◌else◌, any, Dict, values, map_values,
}
use voxbento.Identity.{BoothInstance, RoomValue}
use voxbento.Roles.{can_go_live}

pub record Participant : Type 0 where
  pub participant_id : Text
  pub display_name : Text
  pub role : Text
  pub language : Text
  pub channel_id : Text
  pub mic_active : Bool
  pub ingest_connected : Bool
  pub connected : Bool
  pub joined_at : Text
  pub updated_at : Text
  pub joined_by : Option Text

pub record ChatMessage : Type 0 where
  pub message_id : Text
  pub sender_id : Text
  pub sender_name : Text
  pub body : Text
  pub sent_at : Text

-- The texts that the code writes to `handoff_state`.
pub data HandoffState : Type 0 where
  idle offered requested : HandoffState

-- The texts that are written to `ingest_status`; `overloaded` comes from `broadcast_transcription`
-- of portal/websockets/manager.py.
pub data IngestStatus : Type 0 where
  disconnected ingesting overloaded : IngestStatus

pub record Booth : Type 0 where
  pub booth_id : Text
  pub event_slug : Text
  pub language_code : Text
  pub language : Text
  pub channel_id : Text
  pub inst : BoothInstance
  pub mediamtx_path : Text
  pub room_id : Option RoomValue
  pub active_interpreter_id : Option Text
  pub handoff_state : HandoffState
  pub handoff_initiator_id : Option Text
  pub broadcast_unlocked : Bool
  pub participants : Dict Participant
  pub chat_messages : List ChatMessage
  pub ingest_status : IngestStatus

-- `a or b` of two texts.
abbrev pub or_text : Text → Text → Text
or_text a b = if is_empty a then b else a

abbrev pub is_idle : HandoffState → Bool
is_idle idle = true
is_idle _ = false

-- The status that `refresh_ingest_status` writes.
abbrev pub status_of : Dict Participant → IngestStatus
status_of ps = if any (λ p. p.ingest_connected) (values ps) then ingesting else disconnected

unfoldable pub refresh_ingest_status : Booth → Booth
refresh_ingest_status b = record b { ingest_status = status_of b.participants }

-- The loop of `_pick_next_interpreter`.
unfoldable pub first_live : List Participant → Option Text
first_live [] = none
first_live (p ∷ ps) = if can_go_live (some p.role) then some p.participant_id else first_live ps

unfoldable pub pick_next_interpreter : Booth → Option Text
unfolding first_live
pick_next_interpreter b = first_live (values b.participants)

-- Everyone but the target goes off air: the loop at the end of a change of the active interpreter.
unfoldable pub keep_on_air : Text → Text → Participant → Participant
keep_on_air target now p = record p {
  ingest_connected = (p.participant_id == target) && p.ingest_connected;
  mic_active = (p.participant_id == target) && p.mic_active;
  updated_at = now;
}

unfoldable pub off_air : Text → Participant → Participant
off_air now p = record p { mic_active = false; ingest_connected = false; updated_at = now }
