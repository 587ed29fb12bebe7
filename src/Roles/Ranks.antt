-- ===== src/Roles/Ranks.antt =====
-- Every permission needs a least rank: the table of portal/roles.py as one number a row.
use voxbento.Prelude.{
  ℕ, ◌≡◌, refl, false, ◌||◌, ◌≤◌, List, [], ◌∷◌, ◌++◌, Text, Bool-cases, inl, inr, ltb, leb,
  if◌then◌else◌, filter, arith,
}
use voxbento.Roles.{
  Permission, manage_platform, view_all_events, create_events, edit_event, manage_event_team,
  manage_event_keys, use_mission_control, control_floor_transcription, booth_set_active,
  booth_go_live, booth_chat_send, booth_view, contains_permission, permissions_of, permissions_for,
  rank_of, is_known, max_by_rank,
}

abbrev pub need : Permission → ℕ
need manage_platform = 4
need view_all_events = 4
need create_events = 4
need edit_event = 3
need manage_event_team = 3
need manage_event_keys = 3
need use_mission_control = 2
need control_floor_transcription = 2
need booth_set_active = 2
need booth_go_live = 1
need booth_chat_send = 1
need booth_view = 1

-- A role holds exactly the permissions that its rank reaches.
pub contains_permission-rank :
    (p : Permission) (r : Text)
    → contains_permission p (permissions_of r) ≡ leb (need p) (rank_of r)
unfolding contains_permission permissions_of rank_of
contains_permission-rank manage_platform r = ground arith
contains_permission-rank _ r = ground arith

pub is_known-rank : (r : Text) → is_known r ≡ leb 1 (rank_of r)
unfolding is_known rank_of
is_known-rank r = ground arith

pub need_pos : (p : Permission) → 1 ≤ need p
need_pos manage_platform = omega arith
need_pos _ = omega arith

pub contains_permission-append :
    (p : Permission) (ps qs : List Permission)
    → contains_permission p (ps ++ qs) ≡ (contains_permission p ps || contains_permission p qs)
unfolding contains_permission
contains_permission-append p [] qs = refl
contains_permission-append p (q ∷ ps) qs = ground (arith, contains_permission-append p ps qs)

-- The highest rank among some roles.
abbrev pub top_rank : ℕ → List Text → ℕ
top_rank n [] = n
top_rank n (r ∷ rs) = top_rank (if ltb n (rank_of r) then rank_of r else n) rs

pub rank_of-max_by_rank :
    (best : Text) (rs : List Text) → rank_of (max_by_rank best rs) ≡ top_rank (rank_of best) rs
unfolding max_by_rank
rank_of-max_by_rank best [] = refl
rank_of-max_by_rank best (r ∷ rs) = elim (Bool-cases (ltb (rank_of best) (rank_of r))) [
  | inl h ↦ rw h (rank_of-max_by_rank r rs)
  | inr h ↦ rw h (rank_of-max_by_rank best rs)
]

-- Unknown roles have rank 0, so leaving them out changes nothing.
pub top_rank-filter : (n : ℕ) (rs : List Text) → top_rank n (filter is_known rs) ≡ top_rank n rs
top_rank-filter n [] = refl
top_rank-filter n (r ∷ rs) = ground (
  arith,
  is_known-rank r,
  top_rank-filter n rs,
  top_rank-filter (if ltb n (rank_of r) then rank_of r else n) rs,
)

pub permissions_for-rank :
    (p : Permission) (n : ℕ) (rs : List Text)
    → (leb (need p) n || contains_permission p (permissions_for rs)) ≡ leb (need p) (top_rank n rs)
unfolding permissions_for
permissions_for-rank p n [] = ground (arith, contains_permission_nil p)
  where
    contains_permission_nil : (p : Permission) → contains_permission p [] ≡ false
    contains_permission_nil p = unfold contains_permission in refl
permissions_for-rank p n (r ∷ rs) = ground (
  arith,
  contains_permission-append p (permissions_of r) (permissions_for rs),
  contains_permission-rank p r,
  permissions_for-rank p (if ltb n (rank_of r) then rank_of r else n) rs,
)
