-- ===== src/Reaper/Entitled.antt =====
-- Whose connection survives a pass of the reaper: portal/websockets/reaper.py.
use voxbento.Prelude.{
  ℕ, ◌≡◌, ◌↔◌, ◌⊎◌, ◌<◌, ◌∙◌, refl, ap, sym, subst, Bool, true, false, ◌||◌, not, Option, none,
  some, Option-cases, Bool-cases, inl, inr, List, [], ◌∷◌, Text, nat_eq, nat_eq_iff, filter,
  if◌then◌else◌, Dict, get, arith,
}
use voxbento.Connections.{Session, ConnectionManager, in_room, get_session}
use voxbento.UserAdmin.{User, get_user_by_id}
use voxbento.Reaper.{user_reason, invite_reason, reason_of, stale_reason, reap_stale_sessions}
use voxbento.Reaper.Pass.{Sessions, has_socket, is_distinct, is_left, reap_stale_sessions-sessions}

-- The account exists and is active, and the session began after the user last signed out everywhere.
abbrev pub IsSignedIn : List User → Session → ℕ → Type 0
IsSignedIn users s id =
    (u : User) × (get_user_by_id id users ≡ some u)
    × (u.is_active ≡ true)
    × ((t : ℕ) → u.sessions_valid_after ≡ some t → t < s.issued_at)

-- The session may go on: it is of an account in order, of a guest with an invitation that exists and is
-- not revoked, or of nobody.
abbrev pub IsEntitled : List User → Dict (Option ℕ) → Session → Type 0
IsEntitled users invites s =
    ((id : ℕ) × (s.user_id ≡ some id) × IsSignedIn users s id)
    ⊎ ((s.user_id ≡ none) × ((t : Text) → s.invite_token_id ≡ some t → get t invites ≡ some none))

get_session-filter_missing :
    (p : ℕ × Session → Bool) (ws : ℕ) (ss : Sessions)
    → has_socket ws ss ≡ false
    → get_session ws (filter p ss) ≡ none
unfolding get_session
get_session-filter_missing p ws [] h = refl
get_session-filter_missing p ws ((i, x) ∷ ss) h = ground (arith, get_session-filter_missing p ws ss)

get_session-filter :
    (p : ℕ × Session → Bool) (ws : ℕ) (s : Session) (ss : Sessions)
    → is_distinct ss ≡ true
    → get_session ws ss ≡ some s
    → get_session ws (filter p ss) ≡ (if p (ws, s) then some s else none)
unfolding get_session
get_session-filter p ws s [] d h = absurd (cc)
get_session-filter p ws s ((i, x) ∷ ss) d h = elim (Bool-cases (nat_eq i ws)) [
  | inr n ↦ ground (arith, get_session-filter p ws s ss, n)
  | inl y ↦
      let same_ws : i ≡ ws = (nat_eq_iff i ws).0 y in
      let same_s : x ≡ s = ground (arith, y) in
      let missing : has_socket ws ss ≡ false = ground (arith, same_ws) in
      let same_p : p (i, x) ≡ p (ws, s) = ap (λ j. p (j, x)) same_ws ∙ ap (λ z. p (ws, z)) same_s in
      ground (arith, same_p, same_s, y, get_session-filter_missing p ws ss missing)
]

-- A user's session has a reason to be closed unless the user is signed in.
user_reason-IsSignedIn :
    (users : List User) (s : Session) (id : ℕ)
    → (user_reason s (get_user_by_id id users) ≡ none) ↔ IsSignedIn users s id
user_reason-IsSignedIn users s id = elim (Option-cases (get_user_by_id id users)) [
  | inl e ↦ (
    λ h. absurd (ground (arith, e)),
    λ (u, found, active, later). absurd (ground (arith, e, found)),
  )
  | inr (u, e) ↦ elim (Option-cases u.sessions_valid_after) [
    | inl never ↦ (
      λ h. (u, e, ground (arith, Bool-cases u.is_active), λ t v. absurd (ground (arith, never, v))),
      λ (v, found, active, later).
          let same : v ≡ u = ground (arith, e, found) in ground (arith, e, never, same, active),
    )
    | inr (t, since) ↦ (
      λ h. (
        u,
        e,
        ground (arith, Bool-cases u.is_active),
        λ t' v. ground (arith, Bool-cases u.is_active, e, since, v, h),
      ),
      λ (v, found, active, later).
          let same : v ≡ u = ground (arith, e, found) in
          let after : t < s.issued_at =
            later t (ap (λ (x : User). x.sessions_valid_after) same ∙ since) in
          ground (arith, e, since, same, active, after),
    )
  ]
]

reason_of-IsEntitled :
    (users : List User) (invites : Dict (Option ℕ)) (s : Session)
    → (reason_of users invites s ≡ none) ↔ IsEntitled users invites s
reason_of-IsEntitled users invites s = elim (Option-cases s.user_id) [
  | inr (id, e) ↦
      let (to, from) = user_reason-IsSignedIn users s id in
      (
        λ h. inl (id, e, to (ground (arith, e))),
        elim [
          | (inl (i, f, signed_in)) ↦
              let same : id ≡ i = ground (arith, e, f) in
              ground (arith, e, from (subst (IsSignedIn users s) (sym same) signed_in))
          | (inr (f, valid)) ↦ absurd (ground (arith, e, f))
        ],
      )
  | inl e ↦ elim (Option-cases s.invite_token_id) [
    | inl nobody ↦
        (λ h. inr (e, λ t f. absurd (ground (arith, nobody, f))), λ h. ground (arith, e, nobody))
    | inr (t, token) ↦ (
      λ h. inr (
        e,
        λ t' f.
            let same : t ≡ t' = ground (arith, token, f) in
            subst (λ k. get k invites ≡ some none) same
              (still_open t (get t invites) refl (ground (arith, e, token))),
      ),
      elim [
        | (inl (i, f, signed_in)) ↦ absurd (ground (arith, e, f))
        | (inr (f, valid)) ↦ let open_still = valid t token in ground (arith, e, token, open_still)
      ],
    )
  ]
]
  where
    still_open :
        (t : Text) (o : Option (Option ℕ))
        → get t invites ≡ o
        → invite_reason (get t invites) ≡ none
        → get t invites ≡ some none
    still_open t none e h = absurd (ground (arith, e))
    still_open t (some none) e h = e
    still_open t (some (some r)) e h = absurd (ground (arith, e))

-- Where each socket has one session, as in a dict, a connection is there, unchanged, after a pass of
-- the reaper if and only if it was revoked before, or is
-- in no room, or is entitled: its account exists, is active and was not signed out since the session
-- began; or it has no account, and its invitation, if it has one, exists and is not revoked. A
-- connection that is not left unchanged is gone.
pub reap_stale_sessions-IsEntitled :
    (users : List User) (invites : Dict (Option ℕ)) (m : ConnectionManager) (ws : ℕ) (s : Session)
    → is_distinct m.sessions ≡ true
    → get_session ws m.sessions ≡ some s
    → ((get_session ws (reap_stale_sessions users invites m).1.sessions ≡ some s) ↔ (
        (s.revoked ≡ true)
        ⊎ ((in_room ws (get s.booth_id m.rooms) ≡ false) ⊎ IsEntitled users invites s)))
      × ((get_session ws (reap_stale_sessions users invites m).1.sessions ≡ some s)
          ⊎ (get_session ws (reap_stale_sessions users invites m).1.sessions ≡ none))
unfolding stale_reason
reap_stale_sessions-IsEntitled users invites m ws s d has =
    let after = get_session ws (reap_stale_sessions users invites m).1.sessions in
    let found : after ≡ (if is_left users invites m.rooms (ws, s) then some s else none) =
      ap (get_session ws) (reap_stale_sessions-sessions users invites m d)
      ∙ get_session-filter (is_left users invites m.rooms) ws s m.sessions d has in
    let (to, from) = reason_of-IsEntitled users invites s in
    elim (Bool-cases (s.revoked || not (in_room ws (get s.booth_id m.rooms)))) [
      | inl passed ↦
          let kept : after ≡ some s = ground (arith, found, passed) in
          (
            (
              λ h. elim (Bool-cases s.revoked) [ inl y ↦ inl y | inr n ↦ inr (inl (ground arith)) ],
              λ h. kept,
            ),
            inl kept,
          )
      | inr judged ↦ elim (Option-cases (reason_of users invites s)) [
        | inl none_found ↦
            let kept : after ≡ some s = ground (arith, found, judged, none_found) in
            ((λ h. inr (inr (to none_found)), λ h. kept), inl kept)
        | inr (r, reason) ↦
            let gone : after ≡ none = ground (arith, found, judged, reason) in
            (
              (
                λ h. absurd (ground (arith, gone, h)),
                elim [
                  | (inl y) ↦ absurd (ground (arith, y, judged))
                  | (inr (inl y)) ↦ absurd (ground (arith, y, judged))
                  | (inr (inr entitled)) ↦ absurd (ground (arith, reason, from entitled))
                ],
              ),
              inr gone,
            )
      ]
    ]
