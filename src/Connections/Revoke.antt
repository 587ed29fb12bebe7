-- ===== src/Connections/Revoke.antt =====
-- `ConnectionManager` of portal/websockets/manager.py: taking authorization away from a user, from an
-- invitation or in a booth.
use voxbento.Prelude.{
  ℕ, Bool, true, false, ◌&&◌, Option, none, some, List, [], ◌∷◌, ◌++◌, Text, ◌==◌, nat_has_eq,
  text_has_eq, pair_has_eq, is_empty, filter, if◌then◌else◌, Eq, Dict, get, remove, values,
}
use voxbento.Connections.{
  Session, EpochTable, ConnectionManager, get_session, revoke_all, close_all,
}
use voxbento.Connections.Epochs.{epoch_of, bump}

module _ {K : Type 0} ⦃e : Eq K⦄ where
  -- `revocation_epoch` and `token_revocation_epoch`
  unfoldable pub revocation_epoch : K → Text → EpochTable K → ℕ × ℕ
  unfolding epoch_of
  revocation_epoch k booth_id t =
      (epoch_of k t.wide, if is_empty booth_id then 0 else epoch_of (k, booth_id) t.scoped)

  -- `_bump_user_epoch` or `_bump_booth_epoch`, and the same for tokens.
  unfoldable pub bump_epoch : ℕ → K → Option Text → EpochTable K → EpochTable K
  unfolding bump
  bump_epoch max_epochs k none t = record t { wide = bump max_epochs k t.wide }
  bump_epoch max_epochs k (some booth_id) t = record t {
    scoped = bump max_epochs (k, booth_id) t.scoped;
  }

-- `booth_id is None or session.booth_id == booth_id`
abbrev pub in_scope : Option Text → Text → Bool
in_scope none b = true
in_scope (some booth_id) b = b == booth_id

abbrev pub is_user_session : ℕ → Option Text → Session → Bool
is_user_session user_id booth_id s = elim s.user_id [
  | none ↦ false
  | some i ↦ i == user_id && in_scope booth_id s.booth_id
]

abbrev pub is_token_session : Text → Option Text → Session → Bool
is_token_session token_id booth_id s = elim s.invite_token_id [
  | none ↦ false
  | some i ↦ i == token_id && in_scope booth_id s.booth_id
]

-- The WebSockets of all rooms, room by room.
unfoldable pub all_sockets : List (List ℕ) → List ℕ
all_sockets [] = []
all_sockets (room ∷ rooms) = room ++ all_sockets rooms

abbrev pub has_session : (Session → Bool) → List (ℕ × Session) → ℕ → Bool
has_session p ss ws = elim (get_session ws ss) [ none ↦ false | some s ↦ p s ]

-- A check of the whole cache, or of one booth, is forgotten.
abbrev pub forget : {V : Type 0} → Option Text → Dict V → Dict V
forget none cache = []
forget (some booth_id) cache = remove booth_id cache

-- The loop over all rooms: the WebSockets whose sessions it revoked, and the connections after it.
-- Whether a session is one of them depends on nothing that the loop writes.
unfoldable pub revoke_matching : (Session → Bool) → ConnectionManager → List ℕ × ConnectionManager
unfolding all_sockets
revoke_matching p m =
    let revoked = filter (has_session p m.sessions) (all_sockets (values m.rooms)) in
    (revoked, revoke_all revoked m)

unfoldable pub revoke_user_sessions :
    ℕ → Option Text → ConnectionManager → List ℕ × ConnectionManager
unfolding bump_epoch revoke_matching
revoke_user_sessions user_id booth_id m =
    revoke_matching (is_user_session user_id booth_id) (record m {
      users = bump_epoch m.max_epochs user_id booth_id m.users;
      allowed_cache = forget booth_id m.allowed_cache;
    })

unfoldable pub revoke_token_sessions :
    Text → Option Text → ConnectionManager → List ℕ × ConnectionManager
unfolding bump_epoch revoke_matching
revoke_token_sessions token_id booth_id m =
    revoke_matching (is_token_session token_id booth_id) (record m {
      tokens = bump_epoch m.max_epochs token_id booth_id m.tokens;
      token_allowed_cache = forget booth_id m.token_allowed_cache;
    })

unfoldable pub close_user_sessions : ℕ → Option Text → ConnectionManager → ConnectionManager
unfolding revoke_user_sessions
close_user_sessions user_id booth_id m =
    let (revoked, m') = revoke_user_sessions user_id booth_id m in close_all revoked m'

unfoldable pub close_token_sessions : Text → Option Text → ConnectionManager → ConnectionManager
unfolding revoke_token_sessions
close_token_sessions token_id booth_id m =
    let (revoked, m') = revoke_token_sessions token_id booth_id m in close_all revoked m'

unfoldable pub close_booth_sessions : Text → ConnectionManager → ConnectionManager
close_booth_sessions booth_id m =
    let m' : ConnectionManager = record m { allowed_cache = remove booth_id m.allowed_cache } in
    elim (get booth_id m.rooms) [ none ↦ m' | some room ↦ close_all room (revoke_all room m') ]
