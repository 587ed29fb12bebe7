-- ===== src/Connections/Effects.antt =====
-- What the operations on the connections do to the epochs of users and to one connection:
-- portal/websockets/manager.py.
use voxbento.Prelude.{
  ℕ, ◌≡◌, ◌+◌, ◌≤◌, ◌<◌, refl, ◌∙◌, Bool, true, false, ◌&&◌, not, Option, none, some, Option-cases,
  inl, inr, List, [], ◌∷◌, Text, Eq, nat_has_eq, text_has_eq, pair_has_eq, nat_eq, nat_eq_iff, any,
  filter, length, text_eq_iff, is_empty, of_option, get, remove, arith, values,
}
use voxbento.Connections.{
  EpochTable, ConnectionManager, get_session, remove_session, revoke_session, revoke_all, close_all,
}
use voxbento.Connections.Epochs.{epoch_of-bump, length-bump-le}
use voxbento.Connections.Revoke.{
  revocation_epoch, bump_epoch, in_scope, is_user_session, has_session, all_sockets,
  revoke_matching, revoke_token_sessions, close_booth_sessions,
}
use voxbento.Connections.Lookup.{
  get_session-revoke_all, get_session-remove_session, any-all_sockets, is_roomed,
  remove_session-roomed, revoke_all-roomed,
}

-- The part of an epoch that counts the revocations in a scope.
abbrev pub part : Option Text → ℕ × ℕ → ℕ
part none n = n.0
part (some c) n = n.1

module _ {K : Type 0} ⦃e : Eq K⦄ (max_epochs : ℕ) (t : EpochTable K)
    (wide : length t.wide < max_epochs) (scoped : length t.scoped < max_epochs) where
  pub epoch_mono :
      (j k : K) (scope : Option Text) (b : Text)
      → ((revocation_epoch k b t).0 ≤ (revocation_epoch k b (bump_epoch max_epochs j scope t)).0)
        × ((revocation_epoch k b t).1 ≤ (revocation_epoch k b (bump_epoch max_epochs j scope t)).1)
  unfolding revocation_epoch bump_epoch
  epoch_mono j k none b = ground (arith, epoch_of-bump max_epochs j k t.wide wide, e.beq_iff j k)
  epoch_mono j k (some c) b = ground (
    arith,
    epoch_of-bump max_epochs (j, c) (k, b) t.scoped scoped,
    e.beq_iff j k,
    text_eq_iff c b,
  )

  pub length-bump_epoch-le :
      (j : K) (scope : Option Text)
      → (length (bump_epoch max_epochs j scope t).wide ≤ length t.wide + 1)
        × (length (bump_epoch max_epochs j scope t).scoped ≤ length t.scoped + 1)
  unfolding bump_epoch
  length-bump_epoch-le j none = ground (arith, length-bump-le max_epochs j t.wide)
  length-bump_epoch-le j (some c) = ground (arith, length-bump-le max_epochs (j, c) t.scoped)

  -- A revocation moves its part of the epoch.
  pub epoch_moves :
      (k : K) (scope : Option Text) (b : Text)
      → in_scope scope b ≡ true
      → elim scope [ none ↦ false | some c ↦ is_empty c ] ≡ false
      → part scope (revocation_epoch k b t)
        < part scope (revocation_epoch k b (bump_epoch max_epochs k scope t))
  unfolding revocation_epoch bump_epoch
  epoch_moves k none b h n = ground (arith, epoch_of-bump max_epochs k k t.wide wide, e.beq_iff k k)
  epoch_moves k (some c) b h n = ground (
    arith,
    epoch_of-bump max_epochs (k, c) (k, b) t.scoped scoped,
    e.beq_iff k k,
    text_eq_iff b c,
    text_eq_iff c b,
  )

any-filter :
    (p : ℕ → Bool) (j : ℕ) (xs : List ℕ)
    → any (λ i. nat_eq i j) (filter p xs) ≡ (p j && any (λ i. nat_eq i j) xs)
any-filter p j [] = ground arith
any-filter p j (x ∷ xs) = ground (arith, any-filter p j xs, nat_eq_iff x j)

module _ (user_id : ℕ) (scope : Option Text) (ws : ℕ) where
  -- The connection may act for the user in the scope.
  abbrev pub is_live : ConnectionManager → Bool
  is_live m = has_session (λ s. is_user_session user_id scope s && not s.revoked) m.sessions ws

  -- The epochs of users are as before, and the connection gets no authorization.
  abbrev pub Takes : ConnectionManager → ConnectionManager → Type 0
  Takes m m' =
      (m'.users ≡ m.users)
      × (m'.max_epochs ≡ m.max_epochs)
      × (is_roomed ws m ≡ true → is_roomed ws m' ≡ true)
      × (is_live m ≡ false → is_live m' ≡ false)

  pub Takes-refl : (m : ConnectionManager) → Takes m m
  Takes-refl m = (refl, refl, (λ h. h), (λ h. h))

  Takes-trans : (m k l : ConnectionManager) → Takes m k → Takes k l → Takes m l
  Takes-trans m k l (u, n, r, q) (u', n', r', q') =
      (u' ∙ u, n' ∙ n, (λ h. r' (r h)), (λ h. q' (q h)))

  remove_session-users :
      (i : ℕ) (m : ConnectionManager)
      → ((remove_session i m).users ≡ m.users) × ((remove_session i m).max_epochs ≡ m.max_epochs)
  unfolding remove_session
  remove_session-users i m = elim (Option-cases (get_session i m.sessions)) [
    | inl e ↦ ground arith
    | inr (s, e) ↦ ground arith
  ]

  pub remove_session-Takes : (i : ℕ) (m : ConnectionManager) → Takes m (remove_session i m)
  remove_session-Takes i m =
      let (u, n) = remove_session-users i m in
      (u, n, remove_session-roomed i ws m, λ l. ground (arith, get_session-remove_session i ws m))

  pub revoke_session-Takes : (i : ℕ) (m : ConnectionManager) → Takes m (revoke_session i m)
  unfolding revoke_session revoke_all
  revoke_session-Takes i m = (
    refl,
    refl,
    revoke_all-roomed (i ∷ []) ws m,
    λ l. elim (Option-cases (get_session ws m.sessions)) [
      | inl e ↦ ground (arith, get_session-revoke_all (i ∷ []) ws m)
      | inr (s, e) ↦ ground (arith, get_session-revoke_all (i ∷ []) ws m)
    ],
  )

  pub revoke_all-Takes : (wss : List ℕ) (m : ConnectionManager) → Takes m (revoke_all wss m)
  unfolding revoke_all
  revoke_all-Takes [] m = Takes-refl m
  revoke_all-Takes (i ∷ wss) m =
      Takes-trans m (revoke_session i m) (revoke_all wss (revoke_session i m))
        (revoke_session-Takes i m) (revoke_all-Takes wss (revoke_session i m))

  pub close_one-Takes :
      (i : ℕ) (m : ConnectionManager) → Takes m (remove_session i (revoke_session i m))
  close_one-Takes i m =
      let k = revoke_session i m in
      Takes-trans m k (remove_session i k) (revoke_session-Takes i m) (remove_session-Takes i k)

  close_all-Takes : (wss : List ℕ) (m : ConnectionManager) → Takes m (close_all wss m)
  unfolding close_all
  close_all-Takes [] m = Takes-refl m
  close_all-Takes (i ∷ wss) m =
      let k = remove_session i (revoke_session i m) in
      Takes-trans m k (close_all wss k) (close_one-Takes i m) (close_all-Takes wss k)

  pub close_booth_sessions-Takes :
      (b : Text) (m : ConnectionManager) → Takes m (close_booth_sessions b m)
  unfolding close_booth_sessions
  close_booth_sessions-Takes b m =
      let k : ConnectionManager = record m { allowed_cache = remove b m.allowed_cache } in
      of_option (Takes m) (get b m.rooms) _ _ (λ e. Takes-refl m)
        λ room e.
          Takes-trans k (revoke_all room k) (close_all room (revoke_all room k))
            (revoke_all-Takes room k) (close_all-Takes room (revoke_all room k))

  pub revoke_token_sessions-Takes :
      (t : Text) (c : Option Text) (m : ConnectionManager) → Takes m (revoke_token_sessions t c m).1
  unfolding revoke_token_sessions revoke_matching
  revoke_token_sessions-Takes t c m = revoke_all-Takes _ _

  -- The loop over the rooms finds the session, wherever it is.
  pub revoke_matching-is_live :
      (m : ConnectionManager)
      → is_roomed ws m ≡ true
      → is_live (revoke_matching (is_user_session user_id scope) m).1 ≡ false
  unfolding revoke_matching
  revoke_matching-is_live m h =
      let p = is_user_session user_id scope in
      let found = filter (has_session p m.sessions) (all_sockets (values m.rooms)) in
      elim (Option-cases (get_session ws m.sessions)) [
        | inl e ↦ ground (arith, get_session-revoke_all found ws m)
        | inr (s, e) ↦
            let seen = any-all_sockets ws s.booth_id m.rooms (ground arith) in
            ground (
              arith,
              get_session-revoke_all found ws m,
              any-filter (has_session p m.sessions) ws (all_sockets (values m.rooms)),
              seen,
            )
      ]
