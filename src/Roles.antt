-- ===== src/Roles.antt =====
-- portal/roles.py: the four roles, what each may do, and where each may be given.
-- A role is a text, as in the source: any other text is an unknown role, and `None` is no role.
-- Display labels are not rendered; a refused assignment keeps the roles that its message lists.
mod Ranks
pub mod Laws
mod Tests
use voxbento.Prelude.{
  ℕ, suc, ◌+◌, ◌-◌, ◌≡◌, refl, ◌↔◌, Bool, true, false, ◌||◌, not, Option, none, some, List, [], ◌∷◌,
  ◌++◌, Text, codes, Eq, ◌==◌, text_has_eq, ltb, leb, nat_eq, if◌then◌else◌, length, filter,
  is_empty, any, Dict, get, arith,
}

abbrev pub admin : Text
admin = codes "admin"

abbrev pub event_owner : Text
event_owner = codes "event_owner"

abbrev pub room_coordinator : Text
room_coordinator = codes "room_coordinator"

abbrev pub interpreter : Text
interpreter = codes "interpreter"

-- Highest first.
abbrev pub roles : List Text
roles = admin ∷ event_owner ∷ room_coordinator ∷ interpreter ∷ []

abbrev pub event_roles : List Text
event_roles = event_owner ∷ room_coordinator ∷ interpreter ∷ []

abbrev pub room_roles : List Text
room_roles = room_coordinator ∷ []

abbrev pub booth_roles : List Text
booth_roles = room_coordinator ∷ interpreter ∷ []

abbrev pub assignable_levels : Dict (List Text)
assignable_levels =
    (codes "event", event_roles) ∷ (codes "room", room_roles) ∷ (codes "booth", booth_roles) ∷ []

pub data Permission : Type 0 where
  manage_platform view_all_events create_events edit_event manage_event_team : Permission
  manage_event_keys use_mission_control control_floor_transcription : Permission
  booth_set_active booth_go_live booth_chat_send booth_view : Permission

-- The members of the enumeration in its order.
abbrev pub all_permissions : List Permission
all_permissions =
    manage_platform ∷ view_all_events ∷ create_events ∷ edit_event ∷ manage_event_team
    ∷ manage_event_keys ∷ use_mission_control ∷ control_floor_transcription ∷ booth_set_active
    ∷ booth_go_live ∷ booth_chat_send ∷ booth_view ∷ []

-- The place of a permission in `all_permissions`; members of an enumeration are compared by it.
abbrev pub permission_index : Permission → ℕ
permission_index manage_platform = 0
permission_index view_all_events = 1
permission_index create_events = 2
permission_index edit_event = 3
permission_index manage_event_team = 4
permission_index manage_event_keys = 5
permission_index use_mission_control = 6
permission_index control_floor_transcription = 7
permission_index booth_set_active = 8
permission_index booth_go_live = 9
permission_index booth_chat_send = 10
permission_index booth_view = 11

abbrev pub interpreter_permissions : List Permission
interpreter_permissions = booth_go_live ∷ booth_chat_send ∷ booth_view ∷ []

abbrev pub coordinator_permissions : List Permission
coordinator_permissions =
    interpreter_permissions
    ++ use_mission_control ∷ control_floor_transcription ∷ booth_set_active ∷ []

abbrev pub owner_permissions : List Permission
owner_permissions =
    coordinator_permissions ++ edit_event ∷ manage_event_team ∷ manage_event_keys ∷ []

abbrev pub role_permissions : Dict (List Permission)
role_permissions =
    (admin, all_permissions)
    ∷ (event_owner, owner_permissions)
    ∷ (room_coordinator, coordinator_permissions)
    ∷ (interpreter, interpreter_permissions)
    ∷ []

-- `{role: len(ROLES) - index for index, role in enumerate(ROLES)}`
abbrev ranks_from : ℕ → List Text → Dict ℕ
ranks_from index [] = []
ranks_from index (role ∷ rest) = (role, length roles - index) ∷ ranks_from (index + 1) rest

abbrev pub role_rank : Dict ℕ
role_rank = ranks_from 0 roles

-- `p in permissions`
unfoldable pub contains_permission : Permission → List Permission → Bool
contains_permission p ps = any (λ q. nat_eq (permission_index q) (permission_index p)) ps

-- `role in roles`
unfoldable pub contains_role : Text → List Text → Bool
contains_role r rs = any (λ s. s == r) rs

-- `ROLE_PERMISSIONS.get(role, frozenset())`
unfoldable pub permissions_of : Text → List Permission
unfolding get
permissions_of r = elim (get r role_permissions) [ none ↦ [] | some ps ↦ ps ]

unfoldable pub has_permission : Option Text → Permission → Bool
unfolding permissions_of contains_permission
has_permission none p = false
has_permission (some r) p = contains_permission p (permissions_of r)

-- The union keeps repetitions, which a set does not; only membership is read.
unfoldable pub permissions_for : List Text → List Permission
unfolding permissions_of
permissions_for [] = []
permissions_for (r ∷ rs) = permissions_of r ++ permissions_for rs

-- `ROLE_RANK.get(role)`, 0 for an unknown role.
unfoldable pub rank_of : Text → ℕ
unfolding get
rank_of r = elim (get r role_rank) [ none ↦ 0 | some n ↦ n ]

-- `role in ROLE_RANK`
unfoldable pub is_known : Text → Bool
unfolding get
is_known r = elim (get r role_rank) [ none ↦ false | some n ↦ true ]

-- `max(.., key=ROLE_RANK.__getitem__)`: the first of the highest.
unfoldable pub max_by_rank : Text → List Text → Text
max_by_rank best [] = best
max_by_rank best (r ∷ rs) = max_by_rank (if ltb (rank_of best) (rank_of r) then r else best) rs

unfoldable pub highest_role : List Text → Option Text
unfolding is_known max_by_rank
highest_role rs = elim (filter is_known rs) [ [] ↦ none | r ∷ rest ↦ some (max_by_rank r rest) ]

unfoldable pub is_at_least : Option Text → Text → Bool
unfolding is_known rank_of get
is_at_least none requested = false
is_at_least (some granted) requested =
    if is_known granted
    then leb (elim (get requested role_rank) [ none ↦ length roles + 1 | some n ↦ n ])
        (rank_of granted)
    else false

unfoldable pub can_go_live : Option Text → Bool
unfolding has_permission
can_go_live role = has_permission role booth_go_live

unfoldable pub can_set_active : Option Text → Bool
unfolding has_permission
can_set_active role = has_permission role booth_set_active

-- The two texts of `assignment_error`, with the roles that each goes on to list.
pub data AssignmentError : Type 0 where
  unknown_role : List Text → AssignmentError
  cannot_be_given : Text → Text → List Text → AssignmentError

-- `ASSIGNABLE_LEVELS.get(level, frozenset())`
unfoldable pub allowed_at : Text → List Text
unfolding get
allowed_at level = elim (get level assignable_levels) [ none ↦ [] | some rs ↦ rs ]

unfoldable pub assignment_error : Text → Text → Option AssignmentError
unfolding allowed_at contains_role
assignment_error role level =
    let allowed = allowed_at level in
    let listed = filter (λ r. contains_role r allowed) roles in
    if contains_role role allowed
    then none
    else if not (contains_role role roles)
    then some (unknown_role listed)
    else some (cannot_be_given role level listed)
