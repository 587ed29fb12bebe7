-- ===== src/Reaper/Pass.antt =====
-- Which sessions a pass of the reaper leaves: portal/websockets/reaper.py.
use voxbento.Prelude.{
  ℕ, ◌≡◌, refl, ap, ◌∙◌, Bool, true, false, ◌&&◌, not, Option, none, some, Option-cases, Bool-cases,
  inl, inr, List, [], ◌∷◌, nat_eq, any, filter, Dict, get, arith,
}
use voxbento.Connections.{
  Session, ConnectionManager, in_room, get_session, remove_session, mark_revoked, revoke_session,
  revoke_all, close_all,
}
use voxbento.UserAdmin.{User, get_user_by_id}
use voxbento.Reaper.{stale_reason, stale_sockets, reap_stale_sessions}

abbrev pub Sessions : Type 0
Sessions = List (ℕ × Session)

abbrev pub has_socket : ℕ → Sessions → Bool
has_socket ws = any (λ k. nat_eq k.0 ws)

-- A dict has a key once.
abbrev pub is_distinct : Sessions → Bool
is_distinct [] = true
is_distinct ((i, s) ∷ ss) = not (has_socket i ss) && is_distinct ss

abbrev without : ℕ → Sessions → Sessions
without ws = filter (λ k. not (nat_eq k.0 ws))

abbrev without_all : List ℕ → Sessions → Sessions
without_all wss = filter (λ k. not (any (λ w. nat_eq k.0 w) wss))

without-mark_revoked : (ws : ℕ) (ss : Sessions) → without ws (mark_revoked ws ss) ≡ without ws ss
unfolding mark_revoked
without-mark_revoked ws [] = refl
without-mark_revoked ws ((i, s) ∷ ss) = ground (arith, without-mark_revoked ws ss)

without_unknown : (ws : ℕ) (ss : Sessions) → get_session ws ss ≡ none → without ws ss ≡ ss
unfolding get_session
without_unknown ws [] h = refl
without_unknown ws ((i, s) ∷ ss) h = ground (arith, without_unknown ws ss)

remove_session-sessions :
    (ws : ℕ) (m : ConnectionManager) → (remove_session ws m).sessions ≡ without ws m.sessions
unfolding remove_session
remove_session-sessions ws m = elim (Option-cases (get_session ws m.sessions)) [
  | inl e ↦ ground (arith, without_unknown ws m.sessions e)
  | inr (s, e) ↦ ground arith
]

without_all_cons :
    (ws : ℕ) (wss : List ℕ) (ss : Sessions)
    → without_all wss (without ws ss) ≡ without_all (ws ∷ wss) ss
without_all_cons ws wss [] = refl
without_all_cons ws wss ((i, s) ∷ ss) = ground (arith, without_all_cons ws wss ss)

without_all-mark_revoked :
    (ws : ℕ) (wss : List ℕ) (ss : Sessions)
    → any (λ w. nat_eq ws w) wss ≡ true
    → without_all wss (mark_revoked ws ss) ≡ without_all wss ss
unfolding mark_revoked
without_all-mark_revoked ws wss [] h = refl
without_all-mark_revoked ws wss ((i, s) ∷ ss) h = elim (Bool-cases (nat_eq i ws)) [
  | inl e ↦
      let same : i ≡ ws = ground (arith, e) in
      ground
        (arith, without_all-mark_revoked ws wss ss h, ap (λ j. any (λ w. nat_eq j w) wss) same, h)
  | inr e ↦ ground (arith, without_all-mark_revoked ws wss ss h)
]

close_all-sessions :
    (wss : List ℕ) (m : ConnectionManager) → (close_all wss m).sessions ≡ without_all wss m.sessions
unfolding close_all revoke_session
close_all-sessions [] m = kept m.sessions
  where
    kept : (ss : Sessions) → ss ≡ without_all [] ss
    kept [] = refl
    kept (k ∷ ss) = ap (◌∷◌ k) (kept ss)
close_all-sessions (ws ∷ wss) m =
    close_all-sessions wss (remove_session ws (revoke_session ws m))
    ∙ ap (without_all wss)
        (remove_session-sessions ws (revoke_session ws m) ∙ without-mark_revoked ws m.sessions)
    ∙ without_all_cons ws wss m.sessions

-- All of the first list are in the second.
abbrev is_part : List ℕ → List ℕ → Bool
is_part [] all = true
is_part (ws ∷ wss) all = any (λ w. nat_eq ws w) all && is_part wss all

is_part_more : (wss all : List ℕ) (w : ℕ) → is_part wss all ≡ true → is_part wss (w ∷ all) ≡ true
is_part_more [] all w h = refl
is_part_more (ws ∷ wss) all w h = ground (arith, is_part_more wss all w)

is_part_self : (wss : List ℕ) → is_part wss wss ≡ true
is_part_self [] = refl
is_part_self (ws ∷ wss) = ground (arith, is_part_more wss wss ws (is_part_self wss))

revoke_all-sessions :
    (wss all : List ℕ) (m : ConnectionManager)
    → is_part wss all ≡ true
    → without_all all (revoke_all wss m).sessions ≡ without_all all m.sessions
unfolding revoke_all revoke_session
revoke_all-sessions [] all m h = refl
revoke_all-sessions (ws ∷ wss) all m h =
    revoke_all-sessions wss all (revoke_session ws m) (ground arith)
    ∙ without_all-mark_revoked ws all m.sessions (ground arith)

without_all_other :
    (ws : ℕ) (wss : List ℕ) (ss : Sessions)
    → has_socket ws ss ≡ false
    → without_all (ws ∷ wss) ss ≡ without_all wss ss
without_all_other ws wss [] h = refl
without_all_other ws wss ((i, s) ∷ ss) h = ground (arith, without_all_other ws wss ss)

module _ (users : List User) (invites : Dict (Option ℕ)) (rooms : Dict (List ℕ)) where
  -- Whether a pass leaves the session alone.
  abbrev pub is_left : ℕ × Session → Bool
  is_left k = elim (stale_reason users invites rooms k) [ none ↦ true | some reason ↦ false ]

  any-stale_sockets :
      (ws : ℕ) (ss : Sessions)
      → has_socket ws ss ≡ false
      → any (λ w. nat_eq ws w) (stale_sockets users invites rooms ss) ≡ false
  unfolding stale_sockets
  any-stale_sockets ws [] h = refl
  any-stale_sockets ws ((i, s) ∷ ss) h = ground (arith, any-stale_sockets ws ss)

  without_all-stale_sockets :
      (ss : Sessions)
      → is_distinct ss ≡ true
      → without_all (stale_sockets users invites rooms ss) ss ≡ filter is_left ss
  unfolding stale_sockets
  without_all-stale_sockets [] d = refl
  without_all-stale_sockets ((i, s) ∷ ss) d =
      elim (Option-cases (stale_reason users invites rooms (i, s))) [
        | inl e ↦ ground (arith, without_all-stale_sockets ss, any-stale_sockets i ss)
        | inr (r, e) ↦ ground (
          arith,
          without_all-stale_sockets ss,
          without_all_other i (stale_sockets users invites rooms ss) ss,
        )
      ]

-- The connections after a pass are those before it, unchanged and in their order, without the stale.
pub reap_stale_sessions-sessions :
    (users : List User) (invites : Dict (Option ℕ)) (m : ConnectionManager)
    → is_distinct m.sessions ≡ true
    → (reap_stale_sessions users invites m).1.sessions
      ≡ filter (is_left users invites m.rooms) m.sessions
unfolding reap_stale_sessions
reap_stale_sessions-sessions users invites m d =
    let stale = stale_sockets users invites m.rooms m.sessions in
    close_all-sessions stale (revoke_all stale m)
    ∙ revoke_all-sessions stale stale m (is_part_self stale)
    ∙ without_all-stale_sockets users invites m.rooms m.sessions d

-- The account does not exist, or is not active.
abbrev pub is_shut : Option User → Bool
is_shut none = true
is_shut (some u) = not u.is_active

abbrev belongs_to : ℕ → Option ℕ → Bool
belongs_to id none = false
belongs_to id (some i) = nat_eq i id

-- A session of the user that is connected and not revoked.
abbrev pub is_live_of : ℕ → Dict (List ℕ) → ℕ × Session → Bool
is_live_of id rooms k =
    belongs_to id k.1.user_id && not k.1.revoked && in_room k.0 (get k.1.booth_id rooms)

left_not_live :
    (users : List User) (invites : Dict (Option ℕ)) (rooms : Dict (List ℕ)) (id : ℕ) (ss : Sessions)
    → is_shut (get_user_by_id id users) ≡ true
    → any (is_live_of id rooms) (filter (is_left users invites rooms) ss) ≡ false
unfolding stale_reason
left_not_live users invites rooms id [] h = refl
left_not_live users invites rooms id (k ∷ ss) h = elim (Option-cases k.1.user_id) [
  | inl e ↦ ground (arith, left_not_live users invites rooms id ss h)
  | inr (i, e) ↦ elim (Bool-cases (nat_eq i id)) [
    | inr n ↦ ground (arith, left_not_live users invites rooms id ss h)
    | inl y ↦
        let same : i ≡ id = ground (arith, y) in
        let shut : is_shut (get_user_by_id i users) ≡ true = rw same h in
        elim (Option-cases (get_user_by_id i users)) [
          | inl g ↦ ground (arith, left_not_live users invites rooms id ss h)
          | inr (u, g) ↦ ground (arith, left_not_live users invites rooms id ss h, shut)
        ]
  ]
]

-- After a pass of the reaper no connection is left that is not revoked of a user whose account is deleted
-- or inactive.
pub reap_stale_sessions_shut :
    (users : List User) (invites : Dict (Option ℕ)) (m : ConnectionManager) (id : ℕ)
    → is_distinct m.sessions ≡ true
    → is_shut (get_user_by_id id users) ≡ true
    → any (is_live_of id m.rooms) (reap_stale_sessions users invites m).1.sessions ≡ false
reap_stale_sessions_shut users invites m id d h =
    ap (any (is_live_of id m.rooms)) (reap_stale_sessions-sessions users invites m d)
    ∙ left_not_live users invites m.rooms id m.sessions h
