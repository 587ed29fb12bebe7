-- ===== src/Listeners/Capacity.antt =====
-- How many anonymous listeners a booth has: `ListenerConnectionManager` of portal/websockets/manager.py.
use voxbento.Prelude.{
  ℕ, ◌≡◌, ◌⊎◌, ◌≤◌, ◌<◌, inl, inr, refl, Bool, true, false, ◌&&◌, not, Bool-cases, Option-cases,
  some, List, [], ◌∷◌, ◌++◌, Text, text_eq, text_eq_iff, nat_eq, nat_eq_iff, any, length,
  length-append, length-filter-le, is_empty, if◌then◌else◌, Dict, get, get-put, get-remove, arith,
  leb,
}
use voxbento.Connections.{discard, enter_room, leave_room}
use voxbento.Listeners.{
  ListenerManager, listeners_of, count_anonymous, add_anonymous, add_listener,
  try_reserve_anonymous, cancel_reservation, remove_listener, Door, waits, no_longer, DoorStep,
  arrives, accepted, not_accepted, ends, arrive, door_step, door_run,
}

abbrev listens : ℕ → List ℕ → Bool
listens ws = any (λ i. nat_eq i ws)

empty_of : (xs : List ℕ) → is_empty xs ≡ true → xs ≡ []
empty_of [] h = refl
empty_of (x ∷ xs) h = absurd (cc)

listens-discard :
    (ws v : ℕ) (xs : List ℕ) → nat_eq ws v ≡ false → listens v (discard ws xs) ≡ listens v xs
listens-discard ws v [] n = refl
listens-discard ws v (x ∷ xs) n =
    ground (arith, nat_eq_iff x ws, nat_eq_iff x v, nat_eq_iff ws v, listens-discard ws v xs n)

listens-append :
    (ws v : ℕ) (xs : List ℕ)
    → (listens v xs ≡ true → listens v (xs ++ ws ∷ []) ≡ true) × (listens ws (xs ++ ws ∷ []) ≡ true)
listens-append ws v [] = ground (arith, nat_eq_iff ws ws)
listens-append ws v (x ∷ xs) = ground (arith, listens-append ws v xs)

listeners_of-leave_room :
    (ws : ℕ) (b c : Text) (rooms : Dict (List ℕ))
    → listeners_of c (leave_room ws b rooms)
      ≡ (if text_eq b c then discard ws (listeners_of c rooms) else listeners_of c rooms)
unfolding leave_room
listeners_of-leave_room ws b c rooms = elim (Option-cases (get b rooms)) [
  | inl e ↦ ground (arith, text_eq_iff b c)
  | inr (room, e) ↦ ground (
    arith,
    text_eq_iff b c,
    get-put b c (discard ws room) rooms,
    get-remove b c rooms,
    empty_of (discard ws room),
  )
]

listeners_of-enter_room :
    (ws : ℕ) (b c : Text) (rooms : Dict (List ℕ))
    → listeners_of c (enter_room ws b rooms) ≡ (
        if text_eq b c && not (listens ws (listeners_of c rooms))
        then listeners_of c rooms ++ ws ∷ []
        else listeners_of c rooms)
unfolding enter_room
listeners_of-enter_room ws b c rooms = elim (Option-cases (get b rooms)) [
  | inl e ↦ ground (arith, text_eq_iff b c, get-put b c (ws ∷ []) rooms)
  | inr (room, e) ↦ ground (arith, text_eq_iff b c, get-put b c (room ++ ws ∷ []) rooms)
]

waits-no_longer :
    (ws v : ℕ) (wait : List (ℕ × (Text × Bool))) (w : Text × Bool)
    → waits v (no_longer ws wait) ≡ some w
    → (nat_eq ws v ≡ false) × (waits v wait ≡ some w)
unfolding waits
waits-no_longer ws v [] w h = absurd (cc)
waits-no_longer ws v ((i, x) ∷ wait) w h =
    ground (arith, waits-no_longer ws v wait w, nat_eq_iff i ws, nat_eq_iff i v, nat_eq_iff ws v)

-- No booth has too many, and who waits anonymously has a place in the booth.
abbrev pub IsSeated : ℕ → Door → Type 0
IsSeated max_anon d =
    ((c : Text) → length (listeners_of c d.manager.anon_rooms) ≤ max_anon)
    × ((v : ℕ) (c : Text)
        → waits v d.waiting ≡ some (c, true)
        → listens v (listeners_of c d.manager.anon_rooms) ≡ true)

-- A reservation is made only where there is room for it.
try_reserve_anonymous_lem :
    (ws : ℕ) (b : Text) (max_anon : ℕ) (m : ListenerManager)
    → ((try_reserve_anonymous ws b max_anon m ≡ (false, m)))
      ⊎ ((try_reserve_anonymous ws b max_anon m ≡ (true, add_anonymous ws b m))
          × (length (listeners_of b m.anon_rooms) < max_anon))
unfolding try_reserve_anonymous
try_reserve_anonymous_lem ws b max_anon m = elim (Bool-cases (leb max_anon 0)) [
  | inl e ↦ inl (ground arith)
  | inr e ↦ elim (Option-cases (get b m.anon_rooms)) [
    | inl e' ↦ inr (ground arith, ground arith)
    | inr (room, e') ↦ elim (Bool-cases (leb max_anon (length room))) [
      | inl f ↦ inl (ground arith)
      | inr f ↦ inr (ground arith, ground arith)
    ]
  ]
]

module _ (max_anon : ℕ) (d : Door) (seated : IsSeated max_anon d) where
  arrive-IsSeated :
      (ws : ℕ) (b : Text) (is_anonymous : Bool)
      → IsSeated max_anon (arrive max_anon ws b is_anonymous d)
  unfolding waits
  arrive-IsSeated ws b false = (seated.0, λ v c h. seated.1 v c (ground (arith, nat_eq_iff ws v)))
  arrive-IsSeated ws b true = elim (try_reserve_anonymous_lem ws b max_anon d.manager) [
    | inl e ↦ rw e seated
    | inr (e, room) ↦ rw e (
      λ c. ground (
        arith,
        text_eq_iff b c,
        seated.0 c,
        length-append (listeners_of c d.manager.anon_rooms) (ws ∷ []),
        listeners_of-enter_room ws b c d.manager.anon_rooms,
      ),
      λ v c h. ground (
        arith,
        nat_eq_iff ws v,
        text_eq_iff b c,
        seated.1 v c,
        listens-append ws v (listeners_of c d.manager.anon_rooms),
        listeners_of-enter_room ws b c d.manager.anon_rooms,
      ),
    )
  ]

  -- Whoever leaves leaves the others in place.
  leave-IsSeated :
      (ws : ℕ) (b : Text) (rest : List (ℕ × (Text × Bool)))
      → ((v : ℕ) (w : Text × Bool)
          → waits v rest ≡ some w
          → (nat_eq ws v ≡ false) × (waits v d.waiting ≡ some w))
      → ((c : Text) → length (listeners_of c (leave_room ws b d.manager.anon_rooms)) ≤ max_anon)
        × ((v : ℕ) (c : Text)
            → waits v rest ≡ some (c, true)
            → listens v (listeners_of c (leave_room ws b d.manager.anon_rooms)) ≡ true)
  leave-IsSeated ws b rest others = (
    λ c. ground (
      arith,
      seated.0 c,
      length-filter-le (λ i. not (nat_eq i ws)) (listeners_of c d.manager.anon_rooms),
      listeners_of-leave_room ws b c d.manager.anon_rooms,
    ),
    λ v c h.
        let (other, before) = others v (c, true) h in
        ground (
          arith,
          seated.1 v c before,
          listens-discard ws v (listeners_of c d.manager.anon_rooms) other,
          listeners_of-leave_room ws b c d.manager.anon_rooms,
        ),
  )

  -- A place that was reserved is not taken again.
  accepted-IsSeated :
      (ws : ℕ) (w : Text × Bool)
      → waits ws d.waiting ≡ some w
      → IsSeated max_anon
          (record { manager = add_listener ws w.0 w.1 d.manager; waiting = no_longer ws d.waiting })
  unfolding add_listener
  accepted-IsSeated ws (b, false) waited =
      (seated.0, λ v c h. seated.1 v c (waits-no_longer ws v d.waiting (c, true) h).1)
  accepted-IsSeated ws (b, true) waited =
      let placed = seated.1 ws b waited in
      let same : (c : Text)
          → listeners_of c (enter_room ws b d.manager.anon_rooms)
            ≡ listeners_of c d.manager.anon_rooms =
        λ c.
          ground
            (arith, text_eq_iff b c, placed, listeners_of-enter_room ws b c d.manager.anon_rooms) in
      (
        λ c. rw (same c) (seated.0 c),
        λ v c h. rw (same c) (seated.1 v c (waits-no_longer ws v d.waiting (c, true) h).1),
      )

  door_step-IsSeated : (x : DoorStep) → IsSeated max_anon (door_step max_anon x d)
  unfolding door_step cancel_reservation remove_listener
  door_step-IsSeated (arrives ws b is_anonymous) = elim (Option-cases (waits ws d.waiting)) [
    | inl e ↦ rw (door_step, e) (arrive-IsSeated ws b is_anonymous)
    | inr (w, e) ↦ rw (door_step, e) seated
  ]
  door_step-IsSeated (accepted ws) = elim (Option-cases (waits ws d.waiting)) [
    | inl e ↦ rw (door_step, e) seated
    | inr (w, e) ↦ rw (door_step, e) (accepted-IsSeated ws w e)
  ]
  door_step-IsSeated (not_accepted ws) = elim (Option-cases (waits ws d.waiting)) [
    | inl e ↦ rw (door_step, e) seated
    | inr ((b, true), e) ↦
        rw (door_step, e)
          (leave-IsSeated ws b (no_longer ws d.waiting)
            (λ v w h. waits-no_longer ws v d.waiting w h))
    | inr ((b, false), e) ↦
        rw (door_step, e)
          (seated.0, λ v c h. seated.1 v c (waits-no_longer ws v d.waiting (c, true) h).1)
  ]
  door_step-IsSeated (ends ws b) = elim (Option-cases (waits ws d.waiting)) [
    | inr (w, e) ↦ rw (door_step, e) seated
    | inl e ↦
        rw (door_step, e)
          (leave-IsSeated ws b d.waiting (λ v w h. (ground (arith, nat_eq_iff ws v, e, h), h)))
  ]

door_run-IsSeated :
    (max_anon : ℕ) (xs : List DoorStep) (d : Door)
    → IsSeated max_anon d
    → IsSeated max_anon (door_run max_anon xs d)
unfolding door_run
door_run-IsSeated max_anon [] d seated = seated
door_run-IsSeated max_anon (x ∷ xs) d seated =
    door_run-IsSeated max_anon xs (door_step max_anon x d) (door_step-IsSeated max_anon d seated x)

abbrev pub nobody : Door
nobody = record { manager = record { rooms = []; anon_rooms = [] }; waiting = [] }

-- However listeners come to the booths, are accepted or not, and leave, a booth never has more anonymous
-- listeners than the maximum, those that wait to be accepted included; and every one of these has a place
-- reserved in its booth.
pub door_run-count_anonymous :
    (max_anon : ℕ) (xs : List DoorStep)
    → ((c : Text) → count_anonymous c (door_run max_anon xs nobody).manager ≤ max_anon)
      × ((ws : ℕ) (c : Text)
          → waits ws (door_run max_anon xs nobody).waiting ≡ some (c, true)
          → any (λ i. nat_eq i ws) (listeners_of c (door_run max_anon xs nobody).manager.anon_rooms)
            ≡ true)
unfolding count_anonymous get waits
door_run-count_anonymous max_anon xs =
    let start : IsSeated max_anon nobody = (λ c. omega arith, λ v c h. absurd (cc)) in
    let end = door_run-IsSeated max_anon xs nobody start in (end.0, end.1)
