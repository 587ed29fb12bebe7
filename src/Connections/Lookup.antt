-- ===== src/Connections/Lookup.antt =====
-- What the operations on the connections show of one of them: portal/websockets/manager.py.
use voxbento.Prelude.{
  ℕ, ◌≡◌, refl, ap, Bool, true, false, ◌&&◌, ◌||◌, not, Option, none, some, Option-cases, inl, inr,
  List, [], ◌∷◌, ◌++◌, Text, text_eq, text_eq_iff, text_eq_refl, nat_eq, nat_eq_iff, any, filter,
  is_empty, if◌then◌else◌, Dict, get, get-put, get-remove, values, arith,
}
use voxbento.Connections.{
  Session, ConnectionManager, get_session, put_session, in_room, enter_room, add_session, discard,
  leave_room, remove_session, without_role, mark_revoked, revoke_session, revoke_all,
}
use voxbento.Connections.Revoke.{all_sockets}

abbrev pub revoked_if : Bool → Option Session → Option Session
revoked_if b none = none
revoked_if b (some s) = some (if b then without_role s else s)

get_session-put_session :
    (i j : ℕ) (t : Session) (ss : List (ℕ × Session))
    → get_session j (put_session i t ss) ≡ (if nat_eq i j then some t else get_session j ss)
unfolding get_session put_session
get_session-put_session i j t [] = ground arith
get_session-put_session i j t ((k, s) ∷ ss) = ground (arith, get_session-put_session i j t ss)

get_session-filter :
    (i j : ℕ) (ss : List (ℕ × Session))
    → get_session j (filter (λ k. not (nat_eq k.0 i)) ss)
      ≡ (if nat_eq i j then none else get_session j ss)
unfolding get_session
get_session-filter i j [] = ground arith
get_session-filter i j ((k, s) ∷ ss) = ground (arith, get_session-filter i j ss)

get_session-mark_revoked :
    (i j : ℕ) (ss : List (ℕ × Session))
    → get_session j (mark_revoked i ss) ≡ revoked_if (nat_eq i j) (get_session j ss)
unfolding get_session mark_revoked
get_session-mark_revoked i j [] = refl
get_session-mark_revoked i j ((k, s) ∷ ss) = ground (arith, get_session-mark_revoked i j ss)

pub get_session-revoke_all :
    (wss : List ℕ) (j : ℕ) (m : ConnectionManager)
    → get_session j (revoke_all wss m).sessions
      ≡ revoked_if (any (λ i. nat_eq i j) wss) (get_session j m.sessions)
unfolding revoke_all revoke_session
get_session-revoke_all [] j m = ground arith
get_session-revoke_all (i ∷ wss) j m = ground (
  arith,
  get_session-revoke_all wss j (revoke_session i m),
  get_session-mark_revoked i j m.sessions,
)

any-append :
    (j : ℕ) (xs ys : List ℕ)
    → any (λ i. nat_eq i j) (xs ++ ys) ≡ (any (λ i. nat_eq i j) xs || any (λ i. nat_eq i j) ys)
any-append j [] ys = refl
any-append j (x ∷ xs) ys = ground (arith, any-append j xs ys)

any-discard :
    (i j : ℕ) (room : List ℕ)
    → any (λ k. nat_eq k j) (discard i room) ≡ (not (nat_eq i j) && any (λ k. nat_eq k j) room)
any-discard i j [] = ground arith
any-discard i j (k ∷ room) = ground (arith, any-discard i j room)

any_empty : (j : ℕ) (xs : List ℕ) → is_empty xs ≡ true → any (λ k. nat_eq k j) xs ≡ false
any_empty j [] h = refl
any_empty j (x ∷ xs) h = cc

in_room-enter_room :
    (i j : ℕ) (c b : Text) (rooms : Dict (List ℕ))
    → in_room j (get b (enter_room i c rooms))
      ≡ ((nat_eq i j && text_eq c b) || in_room j (get b rooms))
unfolding enter_room
in_room-enter_room i j c b rooms = elim (Option-cases (get c rooms)) [
  | inl e ↦ ground (arith, get-put c b (i ∷ []) rooms, text_eq_iff c b)
  | inr (room, e) ↦
      ground
        (arith, get-put c b (room ++ i ∷ []) rooms, any-append j room (i ∷ []), text_eq_iff c b)
]

in_room-leave_room :
    (i j : ℕ) (c b : Text) (rooms : Dict (List ℕ))
    → in_room j (get b (leave_room i c rooms))
      ≡ (not (nat_eq i j && text_eq c b) && in_room j (get b rooms))
unfolding leave_room
in_room-leave_room i j c b rooms = elim (Option-cases (get c rooms)) [
  | inl e ↦ ground (arith, text_eq_iff c b)
  | inr (room, e) ↦ ground (
    arith,
    get-remove c b rooms,
    get-put c b (discard i room) rooms,
    any-discard i j room,
    any_empty j (discard i room),
    text_eq_iff c b,
  )
]

-- A WebSocket of a room is among all of them.
pub any-all_sockets :
    (j : ℕ) (b : Text) (rooms : Dict (List ℕ))
    → in_room j (get b rooms) ≡ true
    → any (λ i. nat_eq i j) (all_sockets (values rooms)) ≡ true
unfolding all_sockets get
any-all_sockets j b [] h = ground arith
any-all_sockets j b ((k, room) ∷ rooms) h =
    ground (arith, any-append j room (all_sockets (values rooms)), any-all_sockets j b rooms)

pub get_session-add_session :
    (i j : ℕ) (t : Session) (m : ConnectionManager)
    → get_session j (add_session i t m).sessions
      ≡ (if nat_eq i j then some t else get_session j m.sessions)
unfolding add_session
get_session-add_session i j t m = get_session-put_session i j t m.sessions

pub get_session-remove_session :
    (i j : ℕ) (m : ConnectionManager)
    → get_session j (remove_session i m).sessions
      ≡ (if nat_eq i j then none else get_session j m.sessions)
unfolding remove_session
get_session-remove_session i j m = elim (Option-cases (get_session i m.sessions)) [
  | inl e ↦ ground (arith, ap (λ k. get_session k m.sessions), nat_eq_iff i j)
  | inr (s, e) ↦ ground (arith, get_session-filter i j m.sessions)
]

-- A connection with a session is in the room of its booth.
abbrev pub is_roomed : ℕ → ConnectionManager → Bool
is_roomed ws m = elim (get_session ws m.sessions) [
  | none ↦ true
  | some s ↦ in_room ws (get s.booth_id m.rooms)
]

in_room-add_session :
    (i j : ℕ) (b : Text) (t : Session) (m : ConnectionManager)
    → in_room j (get b (add_session i t m).rooms)
      ≡ ((nat_eq i j && text_eq t.booth_id b) || in_room j (get b m.rooms))
unfolding add_session
in_room-add_session i j b t m = in_room-enter_room i j t.booth_id b m.rooms

in_room-remove_session :
    (i j : ℕ) (b : Text) (m : ConnectionManager)
    → nat_eq i j ≡ false
    → in_room j (get b (remove_session i m).rooms) ≡ in_room j (get b m.rooms)
unfolding remove_session
in_room-remove_session i j b m h = elim (Option-cases (get_session i m.sessions)) [
  | inl e ↦ ground arith
  | inr (s, e) ↦ ground (arith, in_room-leave_room i j s.booth_id b m.rooms)
]

revoke_all-rooms : (wss : List ℕ) (m : ConnectionManager) → (revoke_all wss m).rooms ≡ m.rooms
unfolding revoke_all revoke_session
revoke_all-rooms [] m = refl
revoke_all-rooms (i ∷ wss) m = revoke_all-rooms wss (revoke_session i m)

pub add_session-roomed :
    (i ws : ℕ) (t : Session) (m : ConnectionManager)
    → is_roomed ws m ≡ true
    → is_roomed ws (add_session i t m) ≡ true
add_session-roomed i ws t m h = elim (Option-cases (get_session ws m.sessions)) [
  | inl e ↦ ground (
    arith,
    get_session-add_session i ws t m,
    in_room-add_session i ws t.booth_id t m,
    text_eq_refl t.booth_id,
  )
  | inr (s, e) ↦ ground (
    arith,
    get_session-add_session i ws t m,
    in_room-add_session i ws t.booth_id t m,
    in_room-add_session i ws s.booth_id t m,
    text_eq_refl t.booth_id,
  )
]

pub remove_session-roomed :
    (i ws : ℕ) (m : ConnectionManager)
    → is_roomed ws m ≡ true
    → is_roomed ws (remove_session i m) ≡ true
remove_session-roomed i ws m h = elim (Option-cases (get_session ws m.sessions)) [
  | inl e ↦ ground (arith, get_session-remove_session i ws m)
  | inr (s, e) ↦
      ground (arith, get_session-remove_session i ws m, in_room-remove_session i ws s.booth_id m)
]

pub revoke_all-roomed :
    (wss : List ℕ) (ws : ℕ) (m : ConnectionManager)
    → is_roomed ws m ≡ true
    → is_roomed ws (revoke_all wss m) ≡ true
revoke_all-roomed wss ws m h =
    ground (arith, get_session-revoke_all wss ws m, revoke_all-rooms wss m)
