-- ===== src/Listeners.antt =====
-- `ListenerConnectionManager` of portal/websockets/manager.py, and how the captions endpoint of
-- portal/websockets/handlers.py admits a listener. The status that listeners were last sent is left out:
-- no operation here reads it. A history is a list of steps between awaits; a WebSocket is a number.
pub mod Capacity
mod Tests
use voxbento.Prelude.{
  ℕ, Bool, true, false, not, Option, none, some, List, [], ◌∷◌, Text, nat_eq, leb, any, filter,
  length, is_empty, if◌then◌else◌, Dict, get,
}
use voxbento.Connections.{enter_room, leave_room}

pub record ListenerManager : Type 0 where
  pub rooms : Dict (List ℕ)
  pub anon_rooms : Dict (List ℕ)

-- `d.get(booth_id, set())`
abbrev pub listeners_of : Text → Dict (List ℕ) → List ℕ
listeners_of booth_id rooms = elim (get booth_id rooms) [ none ↦ [] | some room ↦ room ]

unfoldable pub count_anonymous : Text → ListenerManager → ℕ
count_anonymous booth_id m = length (listeners_of booth_id m.anon_rooms)

abbrev pub add_anonymous : ℕ → Text → ListenerManager → ListenerManager
add_anonymous ws booth_id m = record m { anon_rooms = enter_room ws booth_id m.anon_rooms }

unfoldable pub add_listener : ℕ → Text → Bool → ListenerManager → ListenerManager
add_listener ws booth_id is_anonymous m =
    let m' : ListenerManager = record m { rooms = enter_room ws booth_id m.rooms } in
    if is_anonymous then add_anonymous ws booth_id m' else m'

unfoldable pub try_reserve_anonymous : ℕ → Text → ℕ → ListenerManager → Bool × ListenerManager
try_reserve_anonymous ws booth_id max_anon m =
    if leb max_anon 0 then (false, m) else elim (get booth_id m.anon_rooms) [
      | none ↦ (true, add_anonymous ws booth_id m)
      | some anon_set ↦
          if leb max_anon (length anon_set) then (false, m) else (true, add_anonymous ws booth_id m)
    ]

unfoldable pub cancel_reservation : ℕ → Text → ListenerManager → ListenerManager
cancel_reservation ws booth_id m = record m { anon_rooms = leave_room ws booth_id m.anon_rooms }

unfoldable pub remove_listener : ℕ → Text → ListenerManager → ListenerManager
remove_listener ws booth_id m = record m {
  rooms = leave_room ws booth_id m.rooms;
  anon_rooms = leave_room ws booth_id m.anon_rooms;
}

-- The connections that wait for `accept`, with their booth and whether they are anonymous.
pub record Door : Type 0 where
  pub manager : ListenerManager
  pub waiting : List (ℕ × (Text × Bool))

unfoldable pub waits : ℕ → List (ℕ × (Text × Bool)) → Option (Text × Bool)
waits ws [] = none
waits ws ((i, w) ∷ rest) = if nat_eq i ws then some w else waits ws rest

abbrev pub no_longer : ℕ → List (ℕ × (Text × Bool)) → List (ℕ × (Text × Bool))
no_longer ws = filter (λ w. not (nat_eq w.0 ws))

-- A listener comes to a booth, anonymous or not; `accept` returns or raises; a connection ends, or is
-- dropped because sending to it failed.
pub data DoorStep : Type 0 where
  arrives : ℕ → Text → Bool → DoorStep
  accepted not_accepted : ℕ → DoorStep
  ends : ℕ → Text → DoorStep

module _ (max_anon : ℕ) where
  abbrev pub arrive : ℕ → Text → Bool → Door → Door
  arrive ws booth_id false d = record d { waiting = (ws, (booth_id, false)) ∷ d.waiting }
  arrive ws booth_id true d =
      let (reserved, m) = try_reserve_anonymous ws booth_id max_anon d.manager in
      if reserved
      then record { manager = m; waiting = (ws, (booth_id, true)) ∷ d.waiting }
      else record d { manager = m }

  -- A WebSocket that waits has arrived, and has not ended.
  unfoldable pub door_step : DoorStep → Door → Door
  unfolding try_reserve_anonymous add_listener cancel_reservation remove_listener waits
  door_step (arrives ws booth_id is_anonymous) d = elim (waits ws d.waiting) [
    | some w ↦ d
    | none ↦ arrive ws booth_id is_anonymous d
  ]
  door_step (accepted ws) d = elim (waits ws d.waiting) [
    | none ↦ d
    | some w ↦ record {
      manager = add_listener ws w.0 w.1 d.manager;
      waiting = no_longer ws d.waiting;
    }
  ]
  door_step (not_accepted ws) d = elim (waits ws d.waiting) [
    | none ↦ d
    | some w ↦ record {
      manager = if w.1 then cancel_reservation ws w.0 d.manager else d.manager;
      waiting = no_longer ws d.waiting;
    }
  ]
  door_step (ends ws booth_id) d = elim (waits ws d.waiting) [
    | some w ↦ d
    | none ↦ record d { manager = remove_listener ws booth_id d.manager }
  ]

  unfoldable pub door_run : List DoorStep → Door → Door
  unfolding door_step
  door_run [] d = d
  door_run (x ∷ xs) d = door_run xs (door_step x d)
