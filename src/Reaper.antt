-- ===== src/Reaper.antt =====
-- portal/websockets/reaper.py: one pass of the session reaper over the connections of
-- portal/websockets/manager.py. The early returns of the pass only spare queries that would find
-- nothing.
pub mod Pass
pub mod Entitled
mod Tests
use voxbento.Prelude.{
  ℕ, Bool, true, false, ◌&&◌, ◌||◌, not, Option, none, some, List, [], ◌∷◌, Text, nat_eq, leb, any,
  filter, is_empty, if◌then◌else◌, length, Dict, get, put, remove,
}
use voxbento.Connections.{Session, ConnectionManager, in_room, revoke_all, close_all}
use voxbento.UserAdmin.{User, get_user_by_id}

pub data Reason : Type 0 where
  account_deactivated session_expired invite_revoked : Reason

abbrev pub user_reason : Session → Option User → Option Reason
user_reason s none = some account_deactivated
user_reason s (some u) =
    if not u.is_active then some account_deactivated else elim u.sessions_valid_after [
      | none ↦ none
      | some t ↦ if leb s.issued_at t then some session_expired else none
    ]

-- The `revoked_at` of an invitation, if there is a row for it.
abbrev pub invite_reason : Option (Option ℕ) → Option Reason
invite_reason none = some invite_revoked
invite_reason (some none) = none
invite_reason (some (some t)) = some invite_revoked

abbrev pub reason_of : List User → Dict (Option ℕ) → Session → Option Reason
reason_of users invites s = elim s.user_id [
  | some id ↦ user_reason s (get_user_by_id id users)
  | none ↦ elim s.invite_token_id [ none ↦ none | some t ↦ invite_reason (get t invites) ]
]

-- Why a session is closed, if it is.
unfoldable pub stale_reason :
    List User → Dict (Option ℕ) → Dict (List ℕ) → ℕ × Session → Option Reason
stale_reason users invites rooms (ws, s) =
    if s.revoked || not (in_room ws (get s.booth_id rooms)) then none else reason_of users invites s

unfoldable pub stale_sockets :
    List User → Dict (Option ℕ) → Dict (List ℕ) → List (ℕ × Session) → List ℕ
unfolding stale_reason
stale_sockets users invites rooms [] = []
stale_sockets users invites rooms ((ws, s) ∷ ss) =
    let rest = stale_sockets users invites rooms ss in
    elim (stale_reason users invites rooms (ws, s)) [ none ↦ rest | some reason ↦ ws ∷ rest ]

-- The number of sockets closed, and the connections after the pass.
unfoldable pub reap_stale_sessions :
    List User → Dict (Option ℕ) → ConnectionManager → ℕ × ConnectionManager
unfolding stale_sockets revoke_all close_all
reap_stale_sessions users invites m =
    let stale = stale_sockets users invites m.rooms m.sessions in
    (length stale, close_all stale (revoke_all stale m))
