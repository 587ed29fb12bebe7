-- ===== src/Connections/Broadcast.antt =====
-- `ConnectionManager.broadcast` of portal/websockets/manager.py: who gets a message to a booth. The
-- injected checks of members and of invitations are parameters, as functions of the booth and of whom they
-- are asked about; one that raises returns `none`. What other tasks do while a check is awaited is not
-- seen by the call, which goes on with the sessions that it has picked; nothing is between its steps here.
use voxbento.Prelude.{
  ℕ, ◌+◌, Bool, true, false, ◌&&◌, not, Option, none, some, List, [], ◌∷◌, Text, Eq, ◌==◌,
  nat_has_eq, text_has_eq, ltb, any, all, filter, is_empty, if◌then◌else◌, Dict, get, put,
}
use voxbento.Roles.{roles, contains_role}
use voxbento.Connections.{Session, ConnectionManager, get_session, remove_session, revoke_all}

-- What the check of members returns: the members, or the role of each.
pub data Answer : Type 0 where
  a_set : List ℕ → Answer
  a_dict : List (ℕ × Option Text) → Answer

pub record Checkers : Type 0 where
  pub membership : Option (Text → List ℕ → Option Answer)
  pub invitation : Option (Text → List Text → Option (List Text))
  pub cache_ttl : ℕ

-- `session.granted_role in ALL_ROLES`
abbrev pub is_supported : Option Text → Bool
is_supported none = false
is_supported (some r) = contains_role r roles

abbrev pub is_candidate : Session → Bool
is_candidate s = not s.revoked && is_supported s.granted_role

-- The WebSockets of a room whose sessions may get messages, with these sessions.
unfoldable pub candidates : List (ℕ × Session) → List ℕ → List (ℕ × Session)
candidates ss [] = []
candidates ss (ws ∷ room) =
    let rest = candidates ss room in
    elim (get_session ws ss) [
      | none ↦ rest
      | some s ↦ if is_candidate s then (ws, s) ∷ rest else rest
    ]

unfoldable pub user_ids : List (ℕ × Session) → List ℕ
user_ids [] = []
user_ids ((ws, s) ∷ cs) = elim s.user_id [ none ↦ user_ids cs | some i ↦ i ∷ user_ids cs ]

unfoldable pub token_ids : List (ℕ × Session) → List Text
token_ids [] = []
token_ids ((ws, s) ∷ cs) = elim s.user_id [
  | some i ↦ token_ids cs
  | none ↦ elim s.invite_token_id [ none ↦ token_ids cs | some t ↦ t ∷ token_ids cs ]
]

-- `{uid for uid, r in res.items() if r in ALL_ROLES and r is not None}`
abbrev pub with_role : List (ℕ × Option Text) → List ℕ
with_role [] = []
with_role ((i, r) ∷ rest) = let ids = with_role rest in if is_supported r then i ∷ ids else ids

abbrev pub allowed_ids : Answer → List ℕ
allowed_ids (a_set ids) = ids
allowed_ids (a_dict roles_of) = with_role roles_of

-- What is known of some IDs: nothing was checked, the check failed, or who is allowed.
pub data Checked (K : Type 0) : Type 0 where
  unchecked failed : Checked K
  allowed : List K → Checked K

module _ {K : Type 0} ⦃e : Eq K⦄ (ttl : ℕ) (booth_id : Text) (now : ℕ) where
  abbrev pub is_among : List K → K → Bool
  is_among ids k = any (λ i. i == k) ids

  -- A cached check that is fresh and knows all the IDs.
  abbrev pub serves : List K → ℕ × List K → Bool
  serves ids cached = ltb now (cached.0 + ttl) && all (is_among cached.1) ids

  -- The check is asked anew, and its answer cached.
  abbrev pub ask : Option (List K) → Dict (ℕ × List K) → Checked K × Dict (ℕ × List K)
  ask none cache = (failed, cache)
  ask (some ids) cache = (allowed ids, put booth_id (now, ids) cache)

  unfoldable pub check_ids :
      Option (Text → List K → Option (List K))
      → List K
      → Dict (ℕ × List K)
      → Checked K × Dict (ℕ × List K)
  check_ids none ids cache = (unchecked, cache)
  check_ids (some checker) ids cache =
      if is_empty ids then (unchecked, cache) else elim (get booth_id cache) [
        | none ↦ ask (checker booth_id ids) cache
        | some cached ↦
            if serves ids cached
            then (allowed cached.1, cache)
            else ask (checker booth_id ids) cache
      ]

-- The check of members as a check of IDs.
abbrev pub members_of :
    Option (Text → List ℕ → Option Answer) → Option (Text → List ℕ → Option (List ℕ))
members_of none = none
members_of (some checker) =
    some (λ b ids. elim (checker b ids) [ none ↦ none | some a ↦ some (allowed_ids a) ])

pub data Delivery : Type 0 where
  withheld stale_user stale_token valid : Delivery

-- The invitation of a session, where no user decides.
abbrev pub token_verdict : Checked Text → Option Text → Delivery
token_verdict (allowed ts) (some t) = if any (λ i. i == t) ts then valid else stale_token
token_verdict _ _ = valid

-- What becomes of a candidate.
unfoldable pub verdict : Checked ℕ → Checked Text → Session → Delivery
verdict users tokens s = elim s.user_id [
  | some i ↦ elim users [
    | failed ↦ withheld
    | allowed ids ↦ if any (λ j. j == i) ids then valid else stale_user
    | unchecked ↦ token_verdict tokens s.invite_token_id
  ]
  | none ↦ elim s.invite_token_id [
    | none ↦ valid
    | some t ↦ elim tokens [
      | failed ↦ withheld
      | unchecked ↦ valid
      | allowed ts ↦ token_verdict (allowed ts) (some t)
    ]
  ]
]

-- The WebSockets of the candidates with a verdict.
unfoldable pub judged : (Delivery → Bool) → Checked ℕ → Checked Text → List (ℕ × Session) → List ℕ
judged p users tokens [] = []
judged p users tokens ((ws, s) ∷ cs) =
    let rest = judged p users tokens cs in if p (verdict users tokens s) then ws ∷ rest else rest

abbrev pub is_valid : Delivery → Bool
is_valid valid = true
is_valid _ = false

abbrev pub is_stale : Delivery → Bool
is_stale stale_user = true
is_stale stale_token = true
is_stale _ = false

unfoldable pub remove_all : List ℕ → ConnectionManager → ConnectionManager
remove_all [] m = m
remove_all (ws ∷ wss) m = remove_all wss (remove_session ws m)

abbrev pub room_of : Text → ConnectionManager → List ℕ
room_of booth_id m = elim (get booth_id m.rooms) [ none ↦ [] | some room ↦ room ]

-- Who is sent the message, and the connections after it: whoever is stale is revoked, and is closed by
-- tasks of their own; a socket to which sending fails is removed.
unfoldable pub broadcast :
    Checkers → Text → ℕ → (ℕ → Bool) → ConnectionManager → List ℕ × ConnectionManager
unfolding candidates check_ids judged revoke_all
broadcast ch booth_id now is_dead m =
    let cs = candidates m.sessions (room_of booth_id m) in
    let (users, cache) =
      check_ids ch.cache_ttl booth_id now (members_of ch.membership) (user_ids cs)
        m.allowed_cache in
    let (tokens, token_cache) =
      check_ids ch.cache_ttl booth_id now ch.invitation (token_ids cs) m.token_allowed_cache in
    let recipients = judged is_valid users tokens cs in
    (
      recipients,
      remove_all (filter is_dead recipients) (
          revoke_all (judged is_stale users tokens cs)
            (record m { allowed_cache = cache; token_allowed_cache = token_cache })),
    )
