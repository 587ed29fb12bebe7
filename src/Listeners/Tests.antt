-- ===== src/Listeners/Tests.antt =====
-- Runs and witnesses for the listeners of portal/websockets/manager.py.
use voxbento.Prelude.{
  ℕ, ◌≡◌, ◌≤◌, refl, true, some, [], ◌∷◌, List, Text, codes, text_eq, nat_eq, any, get, put,
}
use voxbento.Connections.{enter_room, leave_room}
use voxbento.Listeners.{
  DoorStep, arrives, accepted, not_accepted, ends, listeners_of, count_anonymous, waits, door_run,
}
use voxbento.Listeners.Capacity.{nobody, door_run-count_anonymous}

-- The third listener finds the booth full, and another comes in once the first has left.
abbrev visits : List DoorStep
visits =
    arrives 1 (codes "b") true
    ∷ arrives 2 (codes "b") true
    ∷ accepted 1
    ∷ arrives 3 (codes "b") true
    ∷ not_accepted 2
    ∷ arrives 4 (codes "b") true
    ∷ accepted 4
    ∷ ends 1 (codes "b")
    ∷ arrives 5 (codes "b") true
    ∷ []

visited : listeners_of (codes "b") (door_run 2 visits nobody).manager.anon_rooms ≡ 4 ∷ 5 ∷ []
unfolding door_run enter_room leave_room get put text_eq
visited = refl

door_run-count_anonymous_example :
    ((c : Text) → count_anonymous c (door_run 2 visits nobody).manager ≤ 2)
    × ((ws : ℕ) (c : Text)
        → waits ws (door_run 2 visits nobody).waiting ≡ some (c, true)
        → any (λ i. nat_eq i ws) (listeners_of c (door_run 2 visits nobody).manager.anon_rooms)
          ≡ true)
door_run-count_anonymous_example = door_run-count_anonymous 2 visits
