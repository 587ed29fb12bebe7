-- ===== src/Connections.antt =====
-- portal/websockets/manager.py: `ConnectionManager`, the connections of interpreters to their booths. A
-- WebSocket stands for its `id(..)`, a time for a whole number; sending the close frame is not part of the
-- state.
pub mod Epochs
pub mod Revoke
pub mod Connect
pub mod Lookup
pub mod Effects
pub mod Attempts
pub mod Barred
pub mod Broadcast
pub mod Members
mod Tests
use voxbento.Prelude.{
  ℕ, ◌+◌, Bool, true, false, ◌||◌, not, Option, none, some, List, [], ◌∷◌, ◌++◌, Text, text_eq,
  nat_eq, Eq, ◌==◌, ltb, any, filter, length, drop, is_empty, if◌then◌else◌, Dict, get, put, remove,
}

pub record Session : Type 0 where
  pub booth_id : Text
  pub participant_id : Option Text
  pub language : Option Text
  pub channel_id : Text
  pub granted_role : Option Text
  pub user_id : Option ℕ
  pub invite_token_id : Option Text
  pub revoked : Bool
  pub session_key : Option Text
  pub issued_at : ℕ

-- The revocations so far of users or of invitation tokens: everywhere, and in one booth. The least
-- recently written entry comes first.
pub record EpochTable (K : Type 0) : Type 0 where
  pub wide : List (K × ℕ)
  pub scoped : List ((K × Text) × ℕ)

-- The WebSockets of each booth, the session of each WebSocket, the epochs, and what the checks of the
-- members of a booth last returned and when.
pub record ConnectionManager : Type 0 where
  pub rooms : Dict (List ℕ)
  pub sessions : List (ℕ × Session)
  pub max_epochs : ℕ
  pub users : EpochTable ℕ
  pub tokens : EpochTable Text
  pub allowed_cache : Dict (ℕ × List ℕ)
  pub token_allowed_cache : Dict (ℕ × List Text)

unfoldable pub get_session : ℕ → List (ℕ × Session) → Option Session
get_session ws [] = none
get_session ws ((i, s) ∷ ss) = if nat_eq i ws then some s else get_session ws ss

-- `d[id(ws)] = session`
unfoldable pub put_session : ℕ → Session → List (ℕ × Session) → List (ℕ × Session)
put_session ws t [] = (ws, t) ∷ []
put_session ws t ((i, s) ∷ ss) = if nat_eq i ws then (i, t) ∷ ss else (i, s) ∷ put_session ws t ss

abbrev pub in_room : ℕ → Option (List ℕ) → Bool
in_room ws none = false
in_room ws (some room) = any (λ i. nat_eq i ws) room

-- `rooms.setdefault(booth_id, set()).add(ws)`
unfoldable pub enter_room : ℕ → Text → Dict (List ℕ) → Dict (List ℕ)
enter_room ws booth_id rooms = elim (get booth_id rooms) [
  | none ↦ put booth_id (ws ∷ []) rooms
  | some room ↦ if any (λ i. nat_eq i ws) room then rooms else put booth_id (room ++ ws ∷ []) rooms
]

unfoldable pub add_session : ℕ → Session → ConnectionManager → ConnectionManager
unfolding enter_room put_session
add_session ws s m = record m {
  rooms = enter_room ws s.booth_id m.rooms;
  sessions = put_session ws s m.sessions;
}

abbrev pub discard : ℕ → List ℕ → List ℕ
discard ws = filter (λ i. not (nat_eq i ws))

-- A room without WebSockets is dropped.
unfoldable pub leave_room : ℕ → Text → Dict (List ℕ) → Dict (List ℕ)
leave_room ws booth_id rooms = elim (get booth_id rooms) [
  | none ↦ rooms
  | some room ↦
      if is_empty (discard ws room)
      then remove booth_id rooms
      else put booth_id (discard ws room) rooms
]

unfoldable pub remove_session : ℕ → ConnectionManager → ConnectionManager
unfolding leave_room
remove_session ws m = elim (get_session ws m.sessions) [
  | none ↦ m
  | some s ↦ record m {
    rooms = leave_room ws s.booth_id m.rooms;
    sessions = filter (λ k. not (nat_eq k.0 ws)) m.sessions;
  }
]

-- What `revoke_session` does to the object.
abbrev pub without_role : Session → Session
without_role s = record s { granted_role = none; revoked = true }

unfoldable pub mark_revoked : ℕ → List (ℕ × Session) → List (ℕ × Session)
mark_revoked ws [] = []
mark_revoked ws ((i, s) ∷ ss) = (i, if nat_eq i ws then without_role s else s) ∷ mark_revoked ws ss

unfoldable pub revoke_session : ℕ → ConnectionManager → ConnectionManager
unfolding mark_revoked
revoke_session ws m = record m { sessions = mark_revoked ws m.sessions }

unfoldable pub revoke_all : List ℕ → ConnectionManager → ConnectionManager
unfolding revoke_session
revoke_all [] m = m
revoke_all (ws ∷ wss) m = revoke_all wss (revoke_session ws m)

-- `close_session` of each, without what is sent.
unfoldable pub close_all : List ℕ → ConnectionManager → ConnectionManager
unfolding remove_session revoke_session
close_all [] m = m
close_all (ws ∷ wss) m = close_all wss (remove_session ws (revoke_session ws m))
