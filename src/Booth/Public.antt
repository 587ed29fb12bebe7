-- ===== src/Booth/Public.antt =====
-- portal/booth_state.py: the snapshot of a booth that is sent to browsers. A participant's display
-- label of the role is not rendered.
use voxbento.Prelude.{Bool, Option, some, List, Text, values, map, last}
use voxbento.Identity.{BoothInstance, RoomValue}
use voxbento.Roles.{can_go_live, can_set_active}
use voxbento.Booth.{Participant, ChatMessage, HandoffState, IngestStatus, Booth}

-- `participant_public_dict`: `joined_by` stays on the server.
pub record PublicParticipant : Type 0 where
  pub participant_id : Text
  pub display_name : Text
  pub role : Text
  pub language : Text
  pub channel_id : Text
  pub mic_active : Bool
  pub ingest_connected : Bool
  pub connected : Bool
  pub joined_at : Text
  pub updated_at : Text
  pub may_go_live : Bool
  pub may_set_active : Bool

unfoldable pub participant_public_dict : Participant → PublicParticipant
participant_public_dict p = record {
  participant_id = p.participant_id;
  display_name = p.display_name;
  role = p.role;
  language = p.language;
  channel_id = p.channel_id;
  mic_active = p.mic_active;
  ingest_connected = p.ingest_connected;
  connected = p.connected;
  joined_at = p.joined_at;
  updated_at = p.updated_at;
  may_go_live = can_go_live (some p.role);
  may_set_active = can_set_active (some p.role);
}

pub record PublicBooth : Type 0 where
  pub booth_id : Text
  pub event_slug : Text
  pub language_code : Text
  pub inst : BoothInstance
  pub mediamtx_path : Text
  pub room_id : Option RoomValue
  pub language : Text
  pub channel_id : Text
  pub active_interpreter_id : Option Text
  pub handoff_state : HandoffState
  pub handoff_initiator_id : Option Text
  pub broadcast_unlocked : Bool
  pub ingest_status : IngestStatus
  pub participants : List PublicParticipant
  pub chat_messages : List ChatMessage

unfoldable pub as_public_dict : Booth → PublicBooth
unfolding participant_public_dict
as_public_dict b = record {
  booth_id = b.booth_id;
  event_slug = b.event_slug;
  language_code = b.language_code;
  inst = b.inst;
  mediamtx_path = b.mediamtx_path;
  room_id = b.room_id;
  language = b.language;
  channel_id = b.channel_id;
  active_interpreter_id = b.active_interpreter_id;
  handoff_state = b.handoff_state;
  handoff_initiator_id = b.handoff_initiator_id;
  broadcast_unlocked = b.broadcast_unlocked;
  ingest_status = b.ingest_status;
  participants = map participant_public_dict (values b.participants);
  chat_messages = last 100 b.chat_messages;
}
