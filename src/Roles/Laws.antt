-- ===== src/Roles/Laws.antt =====
-- Laws of the roles table: portal/roles.py.
use voxbento.Prelude.{
  Option-cases, inl, inr, ℕ, ◌≡◌, refl, ◌↔◌, Bool, true, ◌||◌, ◌&&◌, Option, some, none, List, [],
  ◌∷◌, Text, text_eq, text_eq_iff, codes, leb, if◌then◌else◌, filter, get, ltb, length, ◌+◌, arith,
}
use voxbento.Roles.{
  event_owner, room_coordinator, interpreter, roles, Permission, contains_permission, contains_role,
  role_rank, permissions_for, has_permission, rank_of, is_known, max_by_rank, highest_role,
  is_at_least, can_go_live, can_set_active, booth_go_live, booth_set_active, assignment_error,
}
use voxbento.Roles.Ranks.{
  need, need_pos, contains_permission-rank, top_rank, rank_of-max_by_rank, top_rank-filter,
  permissions_for-rank,
}

-- The best of some known roles, as `highest_role` takes it.
abbrev best_of : List Text → Option Text
best_of [] = none
best_of (r ∷ rest) = some (max_by_rank r rest)

has_permission-best_of :
    (p : Permission) (ks : List Text) → has_permission (best_of ks) p ≡ leb (need p) (top_rank 0 ks)
unfolding has_permission
has_permission-best_of p [] = ground (arith, need_pos p)
has_permission-best_of p (r ∷ rest) =
    rw (contains_permission-rank p (max_by_rank r rest), rank_of-max_by_rank r rest)
      (rw (start (rank_of r)))
  where
    start : (n : ℕ) → (if ltb 0 n then n else 0) ≡ n
    start n = ground arith

highest_role-best_of : (rs : List Text) → highest_role rs ≡ best_of (filter is_known rs)
unfolding highest_role
highest_role-best_of rs = go (filter is_known rs)
  where
    go :
        (ks : List Text) → elim ks [ [] ↦ none | r ∷ rest ↦ some (max_by_rank r rest) ] ≡ best_of ks
    go [] = refl
    go (r ∷ rest) = refl

-- A person with several roles may do with the highest of them exactly what all of them together
-- allow: whatever roles are held, unknown ones included, a permission is held by `highest_role` if
-- and only if it is among `permissions_for`.
pub has_permission-highest_role :
    (p : Permission) (rs : List Text)
    → has_permission (highest_role rs) p ≡ contains_permission p (permissions_for rs)
has_permission-highest_role p rs =
    rw
      (highest_role-best_of rs, has_permission-best_of p (filter is_known rs), top_rank-filter 0 rs)
      (ground (arith, need_pos p, permissions_for-rank p 0 rs))

requested_rank :
    (r : Text)
    → leb (rank_of r) (elim (get r role_rank) [ none ↦ length roles + 1 | some n ↦ n ]) ≡ true
unfolding rank_of get
requested_rank r = ground arith

-- Each role holds every permission of the roles below it: if `is_at_least` finds that the granted
-- role reaches the requested one, every permission of the requested role is one of the granted.
pub is_at_least-has_permission :
    (granted requested : Text) (p : Permission)
    → is_at_least (some granted) requested ≡ true
    → has_permission (some requested) p ≡ true
    → has_permission (some granted) p ≡ true
unfolding is_at_least has_permission
is_at_least-has_permission granted requested p h k = ground (
  arith,
  contains_permission-rank p granted,
  contains_permission-rank p requested,
  requested_rank requested,
  need_pos p,
)

-- Who may choose the active interpreter may also go live.
pub can_go_live_of_can_set_active :
    (role : Option Text) → can_set_active role ≡ true → can_go_live role ≡ true
unfolding can_go_live can_set_active has_permission
can_go_live_of_can_set_active none h = ground arith
can_go_live_of_can_set_active (some r) h =
    ground
      (arith, contains_permission-rank booth_go_live r, contains_permission-rank booth_set_active r)

-- The row "can be assigned per" of the table of roles, read by role: Admin nowhere, Event owner for
-- an event, Room coordinator for an event, a room or a booth, Interpreter for an event or a booth.
abbrev pub is_assignable : Text → Text → Bool
is_assignable role level =
    (text_eq event_owner role && text_eq (codes "event") level)
    || (text_eq room_coordinator role
        && (text_eq (codes "event") level
            || text_eq (codes "room") level
            || text_eq (codes "booth") level))
    || (text_eq interpreter role
        && (text_eq (codes "event") level || text_eq (codes "booth") level))

-- `assignment_error` has nothing to say about a role and a level, whatever texts they are, exactly
-- when the table of roles lets that role be assigned there.
pub assignment_error-is_assignable :
    (role level : Text) → (assignment_error role level ≡ none) ↔ (is_assignable role level ≡ true)
unfolding assignment_error contains_role
assignment_error-is_assignable role level = ground (
  arith,
  text_eq_iff event_owner role,
  text_eq_iff room_coordinator role,
  text_eq_iff interpreter role,
  text_eq_iff (codes "event") level,
  text_eq_iff (codes "room") level,
  text_eq_iff (codes "booth") level,
)

rank_of-le : (r : Text) → leb (rank_of r) 4 ≡ true
unfolding rank_of get
rank_of-le r = ground arith

known_rank : (r : Text) (n : ℕ) → get r role_rank ≡ some n → leb 1 (rank_of r) ≡ true
unfolding rank_of get
known_rank r n e = ground arith

-- Whoever a role reaches can go live: there is no fifth role, so that the requested one is known.
pub is_at_least-can_go_live :
    (granted : Option Text) (requested : Text)
    → is_at_least granted requested ≡ true
    → can_go_live (some requested) ≡ true
unfolding is_at_least can_go_live has_permission
is_at_least-can_go_live none requested h = ground arith
is_at_least-can_go_live (some granted) requested h = elim (Option-cases (get requested role_rank)) [
  | inl e ↦ absurd (ground (arith, rank_of-le granted))
  | inr (n, e) ↦
      ground (arith, contains_permission-rank booth_go_live requested, known_rank requested n e)
]
