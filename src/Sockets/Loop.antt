-- ===== src/Sockets/Loop.antt =====
-- portal/websockets/handlers.py: the loops of `ws_booth`, one for each connection. Between two awaits
-- nothing else runs, and a handler awaits the registry and its own sends only; a history is a list of
-- events. The sessions of the loops outlive their removal from the manager.
use voxbento.Prelude.{
  ℕ, not, Option, none, some, List, [], ◌∷◌, Text, nat_eq, filter, if◌then◌else◌,
}
use voxbento.Identity.{RoomValue}
use voxbento.Registry.{Address, registry_leave}
use voxbento.Registry.Methods.{MethodCall, creating, removing, showing, checking, marking, call}
use voxbento.Connections.{Session, without_role}
use voxbento.Sockets.Messages.{Message, Fresh, Portal, Turn, handle, joined_id, address_of}

pub record Server : Type 0 where
  pub sessions : List (ℕ × Session)
  pub portal : Portal

unfoldable pub session_of : ℕ → List (ℕ × Session) → Option Session
session_of ws [] = none
session_of ws ((i, s) ∷ ss) = if nat_eq i ws then some s else session_of ws ss

unfoldable pub set_session : ℕ → Session → List (ℕ × Session) → List (ℕ × Session)
set_session ws t [] = []
set_session ws t ((i, s) ∷ ss) = (i, if nat_eq i ws then t else s) ∷ set_session ws t ss

abbrev pub closed : ℕ → List (ℕ × Session) → List (ℕ × Session)
closed ws = filter (λ k. not (nat_eq k.0 ws))

-- What happens to the portal: a connection opens, sends a message, loses its authorization or ends; a
-- route makes, removes, shows or checks a booth (portal/routers/api.py, api_v1.py and portal/utils.py;
-- participants join over connections only), and transcription reports an overload.
pub data Event : Type 0 where
  opened : ℕ → Session → Event
  received : ℕ → Message → Fresh → Event
  revoked : ℕ → Event
  ended : ℕ → Event
  booth_made : Text → Text → Text → RoomValue → Text → Text → Event
  booth_removed : Text → RoomValue → Text → Event
  booth_shown : Address → Event
  publish_checked : Address → Text → Event
  overload_reported : Text → Event

abbrev pub routed : (Text → Text) → MethodCall → Server → Server
routed lower c v = record v { portal = record v.portal { booths = call lower c v.portal.booths } }

module _ (lower : Text → Text) (hash : Text → Text) where
  -- The `finally` of the loop: the participant leaves, even if that raises.
  unfoldable pub finish_session : Session → Portal → Portal
  finish_session s p = elim (joined_id s) [
    | none ↦ p
    | some id ↦ record p { booths = (registry_leave lower (address_of s) id p.booths).1 }
  ]

  unfoldable pub disconnect : ℕ → Session → Server → Server
  unfolding finish_session
  disconnect ws s v = record { sessions = closed ws v.sessions; portal = finish_session s v.portal }

  -- The end of a turn of the loop.
  unfoldable pub after_turn : ℕ → Turn → Server → Server
  unfolding set_session disconnect
  after_turn ws t v =
      let v' : Server = record {
        sessions = set_session ws t.session v.sessions;
        portal = t.portal;
      } in
      elim t.raised [ none ↦ v' | some e ↦ disconnect ws t.session v' ]

  -- A message of a revoked session ends the loop unread.
  unfoldable pub on_message : ℕ → Message → Fresh → Session → Server → Server
  unfolding after_turn disconnect
  on_message ws m fresh s v =
      if s.revoked
      then disconnect ws s v
      else after_turn ws (handle lower hash m s fresh v.portal) v

  unfoldable pub step : Event → Server → Server
  unfolding on_message disconnect session_of set_session
  step (opened ws s) v = record v { sessions = (ws, s) ∷ v.sessions }
  step (received ws m fresh) v = elim (session_of ws v.sessions) [
    | none ↦ v
    | some s ↦ on_message ws m fresh s v
  ]
  step (revoked ws) v = elim (session_of ws v.sessions) [
    | none ↦ v
    | some s ↦ record v { sessions = set_session ws (without_role s) v.sessions }
  ]
  step (ended ws) v = elim (session_of ws v.sessions) [ none ↦ v | some s ↦ disconnect ws s v ]
  step (booth_made slug code language room channel inst) v =
      routed lower (creating slug code language room channel inst) v
  step (booth_removed slug room code) v = routed lower (removing slug room code) v
  step (booth_shown a) v = routed lower (showing a) v
  step (publish_checked a id) v = routed lower (checking a id) v
  step (overload_reported id) v = routed lower (marking id) v

  unfoldable pub run : List Event → Server → Server
  unfolding step
  run [] v = v
  run (e ∷ es) v = run es (step e v)
