-- ===== src/Connections/Attempts.antt =====
-- What is kept of the connections that are being accepted: portal/websockets/handlers.py on
-- portal/websockets/manager.py.
use voxbento.Prelude.{
  ℕ, ◌≡◌, ◌+◌, ◌≤◌, ◌<◌, suc, refl, subst, ap, ◌∙◌, Bool, true, false, ◌&&◌, ◌||◌, not, Option,
  none, some, Option-cases, Bool-cases, of_option, of_if, inl, inr, List, [], ◌∷◌, Text, nat_has_eq,
  text_has_eq, pair_has_eq, nat_eq, nat_eq_iff, ltb, leb, filter, length, is_empty, if◌then◌else◌,
  arith, values,
}
use voxbento.UserAdmin.{User}
use voxbento.Connections.{Session, EpochTable, ConnectionManager, add_session}
use voxbento.Connections.Revoke.{
  revocation_epoch, bump_epoch, in_scope, is_user_session, has_session, all_sockets, forget,
  revoke_matching, revoke_user_sessions,
}
use voxbento.Connections.Lookup.{get_session-add_session, is_roomed, add_session-roomed}
use voxbento.Connections.Effects.{
  part, epoch_mono, length-bump_epoch-le, epoch_moves, is_live, Takes, Takes-refl,
  remove_session-Takes, revoke_all-Takes, close_one-Takes, close_booth_sessions-Takes,
  revoke_token_sessions-Takes,
}
use voxbento.Connections.Connect.{
  Credentials, Attempt, Reading, Hub, HubEvent, begins, reads_user, finishes, leaves, closes,
  revokes_user, revokes_token, closes_booth, begin_attempt, user_was_read, finish_attempt,
  session_of_attempt, epoch_moved, attempt_of, next_attempt, without_attempt, hub_step,
}

attempt_of-without :
    (i j : ℕ) (as' : List (ℕ × Attempt))
    → attempt_of j (without_attempt i as') ≡ (if nat_eq i j then none else attempt_of j as')
unfolding attempt_of
attempt_of-without i j [] = ground arith
attempt_of-without i j ((k, a) ∷ as') = ground (arith, attempt_of-without i j as')

attempt_of-next :
    (i j : ℕ) (o : Option Attempt) (as' : List (ℕ × Attempt))
    → attempt_of j (next_attempt i o as') ≡ (if nat_eq i j then o else attempt_of j as')
unfolding attempt_of
attempt_of-next i j none as' = attempt_of-without i j as'
attempt_of-next i j (some a) as' = ground (arith, attempt_of-without i j as')

module _ (user_id : ℕ) (scope : Option Text) (ws : ℕ) where
  -- The snapshot of an attempt is of the past.
  abbrev pub is_past : EpochTable ℕ → Attempt → Bool
  is_past t a = elim a.credentials.user_id [
    | none ↦ true
    | some id ↦
        leb a.user_epoch.0 (revocation_epoch id a.credentials.booth_id t).0
        && leb a.user_epoch.1 (revocation_epoch id a.credentials.booth_id t).1
  ]

  -- The attempt is not the user's in the scope, or it was begun before a revocation.
  abbrev pub is_late : EpochTable ℕ → Attempt → Bool
  is_late t a = elim a.credentials.user_id [
    | none ↦ true
    | some id ↦
        not (nat_eq id user_id && in_scope scope a.credentials.booth_id)
        || ltb (part scope a.user_epoch) (part scope (revocation_epoch id a.credentials.booth_id t))
  ]

  abbrev pub attempts_are : (Attempt → Bool) → Hub → Bool
  attempts_are p h = elim (attempt_of ws h.attempts) [ none ↦ true | some a ↦ p a ]

  -- There is room for some more revocations.
  abbrev pub Fits : ℕ → ConnectionManager → Type 0
  Fits n m = (length m.users.wide + n ≤ m.max_epochs) × (length m.users.scoped + n ≤ m.max_epochs)

  pub record Sound (n : ℕ) (h : Hub) : Type 0 where
    pub fits : Fits n h.manager
    pub roomed : is_roomed ws h.manager ≡ true
    pub past : attempts_are (is_past h.manager.users) h ≡ true

  pub record Barred (h : Hub) : Type 0 where
    pub live : is_live user_id scope ws h.manager ≡ false
    pub late : attempts_are (is_late h.manager.users) h ≡ true

  module _ (max_epochs id : ℕ) (c : Option Text) (t : EpochTable ℕ) (a : Attempt)
      (wide : length t.wide < max_epochs) (scoped : length t.scoped < max_epochs) where
    pub is_past_later : is_past t a ≡ true → is_past (bump_epoch max_epochs id c t) a ≡ true
    is_past_later h = elim (Option-cases a.credentials.user_id) [
      | inl e ↦ ground arith
      | inr (i, e) ↦
          ground (arith, epoch_mono max_epochs t wide scoped id i c a.credentials.booth_id)
    ]

    pub is_late_later : is_late t a ≡ true → is_late (bump_epoch max_epochs id c t) a ≡ true
    is_late_later h = elim (Option-cases a.credentials.user_id) [
      | inl e ↦ ground arith
      | inr (i, e) ↦
          ground (arith, epoch_mono max_epochs t wide scoped id i c a.credentials.booth_id)
    ]

  pub is_late_now :
      (max_epochs : ℕ) (t : EpochTable ℕ) (a : Attempt)
      → length t.wide < max_epochs
      → length t.scoped < max_epochs
      → elim scope [ none ↦ false | some c ↦ is_empty c ] ≡ false
      → is_past t a ≡ true
      → is_late (bump_epoch max_epochs user_id scope t) a ≡ true
  is_late_now max_epochs t a wide scoped filled h =
      let b = a.credentials.booth_id in
      elim (Option-cases a.credentials.user_id) [
        | inl e ↦ ground arith
        | inr (id, e) ↦ elim (Bool-cases (nat_eq id user_id && in_scope scope b)) [
          | inr other ↦ ground arith
          | inl same ↦
              let one : id ≡ user_id = ground (arith, nat_eq_iff id user_id) in
              let later : part scope a.user_epoch ≤ part scope (revocation_epoch user_id b t) =
                ground (arith, Option-cases scope, one) in
              ground (
                arith,
                epoch_moves max_epochs t wide scoped user_id scope b (ground arith) filled,
                later,
                one,
              )
        ]
      ]

  -- What takes authorization only.
  module _ (n : ℕ) (h : Hub) (m : ConnectionManager)
      (takes : Takes user_id scope ws h.manager m) where
    pub taken_Sound : Sound (suc n) h → Sound n (record h { manager = m })
    taken_Sound s = record {
      fits = (
        omega (arith, s.fits, takes.1, ap (λ (t : EpochTable ℕ). length t.wide) takes.0),
        omega (arith, s.fits, takes.1, ap (λ (t : EpochTable ℕ). length t.scoped) takes.0),
      );
      roomed = takes.2 s.roomed;
      past = ap (λ t. attempts_are (is_past t) h) takes.0 ∙ s.past;
    }

    pub taken_Barred : Barred h → Barred (record h { manager = m })
    taken_Barred b = record {
      live = takes.3 b.live;
      late = ap (λ t. attempts_are (is_late t) h) takes.0 ∙ b.late;
    }

  pub read_keeps :
      (p : Attempt → Bool) (user : Option User) (a : Attempt) (m : ConnectionManager)
      → ((x : Option ℕ) (t : Option (ℕ × ℕ))
          → p (record a { valid_after = x; token_epoch = t }) ≡ true)
      → elim (user_was_read user a m) [ none ↦ true | some a' ↦ p a' ] ≡ true
  unfolding user_was_read
  read_keeps p user a m keep =
      let P = λ (o : Option Attempt). elim o [ none ↦ true | some a' ↦ p a' ] ≡ true in
      of_option P a.credentials.user_id _ _ (λ e. keep a.valid_after _)
        λ id e.
          of_option P user _ _ (λ none_there. refl)
            λ u there.
              of_if P u.is_active _ _ (λ active. keep u.sessions_valid_after _) (λ inactive. refl)

  abbrev pub Same : ConnectionManager → ConnectionManager → Type 0
  Same m m' =
      (m'.users ≡ m.users)
      × (m'.max_epochs ≡ m.max_epochs)
      × (is_roomed ws m ≡ true → is_roomed ws m' ≡ true)

  pub add_session-Same : (i : ℕ) (t : Session) (m : ConnectionManager) → Same m (add_session i t m)
  unfolding add_session
  add_session-Same i t m = (refl, refl, add_session-roomed i ws t m)

  pub finish-Same :
      (i : ℕ) (a : Attempt) (r : Reading) (m : ConnectionManager) → Same m (finish_attempt i a r m)
  unfolding finish_attempt
  finish-Same i a r m =
      of_option (Same m) a.token_epoch _ _ (λ e. (refl, refl, λ h. h))
        λ t e.
          of_if (Same m) _ _ _ (λ e. (refl, refl, λ h. h))
            λ e. add_session-Same i (session_of_attempt a r) m

  -- A session that is registered now is not one that a revocation was meant for.
  pub added_live :
      (i : ℕ) (a : Attempt) (r : Reading) (m : ConnectionManager)
      → (nat_eq i ws ≡ true → is_late m.users a ≡ true)
      → is_live user_id scope ws m ≡ false
      → epoch_moved a m ≡ false
      → is_live user_id scope ws (add_session i (session_of_attempt a r) m) ≡ false
  added_live i a r m late l moved = elim (Option-cases a.credentials.user_id) [
    | inl e ↦ ground (arith, get_session-add_session i ws (session_of_attempt a r) m)
    | inr (id, e) ↦
        ground (arith, get_session-add_session i ws (session_of_attempt a r) m, Option-cases scope)
  ]

  pub finish_live :
      (i : ℕ) (a : Attempt) (r : Reading) (m : ConnectionManager)
      → (nat_eq i ws ≡ true → is_late m.users a ≡ true)
      → is_live user_id scope ws m ≡ false
      → is_live user_id scope ws (finish_attempt i a r m) ≡ false
  unfolding finish_attempt
  finish_live i a r m late l =
      let P = λ (m' : ConnectionManager). is_live user_id scope ws m' ≡ false in
      of_option P a.token_epoch _ _ (λ e. l)
        λ t e. of_if P _ _ _ (λ h. l) λ h. added_live i a r m late l (ground arith)

  pub of_attempt :
      (p q : Attempt → Bool) (h : Hub)
      → ((a : Attempt) → p a ≡ true → q a ≡ true)
      → attempts_are p h ≡ true
      → attempts_are q h ≡ true
  of_attempt p q h f b =
      elim (attempt_of ws h.attempts)
          as (λ o.
            elim o [ none ↦ true | some a ↦ p a ] ≡ true
            → elim o [ none ↦ true | some a ↦ q a ] ≡ true) [
              | none ↦ λ x. refl
              | some a ↦ λ x. f a x
            ]
        b

  -- What holds of the attempts holds of the one that an event is about, if it is this connection's.
  pub attempt_here :
      (p : Attempt → Bool) (i : ℕ) (a : Attempt) (h : Hub)
      → attempts_are p h ≡ true
      → attempt_of i h.attempts ≡ some a
      → nat_eq i ws ≡ true
      → p a ≡ true
  attempt_here p i a h before e same =
      let here = subst (λ k. attempt_of k h.attempts ≡ some a) ((nat_eq_iff i ws).0 same) e in
      ground arith

  pub attempts_next :
      (p : Attempt → Bool) (i : ℕ) (o : Option Attempt) (h : Hub)
      → attempts_are p h ≡ true
      → (nat_eq i ws ≡ true → elim o [ none ↦ true | some a ↦ p a ] ≡ true)
      → elim (attempt_of ws (next_attempt i o h.attempts)) [ none ↦ true | some a ↦ p a ] ≡ true
  attempts_next p i o h before now = elim (Bool-cases (nat_eq i ws)) [
    | inl e ↦ rw (attempt_of-next i ws o h.attempts, e) (now e)
    | inr e ↦ rw (attempt_of-next i ws o h.attempts, e) before
  ]

  pub begun_past :
      (c : Credentials) (m : ConnectionManager) → is_past m.users (begin_attempt c m) ≡ true
  unfolding begin_attempt
  begun_past c m = ground arith

  pub revoked_Sound :
      (n : ℕ) (h : Hub) (id : ℕ) (c : Option Text)
      → Sound (suc n) h
      → Sound n (hub_step (revokes_user id c) h)
  unfolding hub_step revoke_user_sessions revoke_matching
  revoked_Sound n h id c s =
      let m = h.manager in
      let wide : length m.users.wide < m.max_epochs = omega (arith, s.fits) in
      let scoped : length m.users.scoped < m.max_epochs = omega (arith, s.fits) in
      let k : ConnectionManager = record m {
        users = bump_epoch m.max_epochs id c m.users;
        allowed_cache = forget c m.allowed_cache;
      } in
      let longer = length-bump_epoch-le m.max_epochs m.users wide scoped id c in
      let wss =
        filter (has_session (is_user_session id c) m.sessions) (all_sockets (values m.rooms)) in
      let (u, x, r, l) = revoke_all-Takes user_id scope ws wss k in
      record {
        fits = (
          omega (arith, s.fits, x, longer, ap (λ (t : EpochTable ℕ). length t.wide) u),
          omega (arith, s.fits, x, longer, ap (λ (t : EpochTable ℕ). length t.scoped) u),
        );
        roomed = r s.roomed;
        past =
            ap (λ t. attempts_are (is_past t) h) u
            ∙ of_attempt (is_past m.users) (is_past k.users) h
                (λ a. is_past_later m.max_epochs id c m.users a wide scoped) s.past;
      }

  pub step_Sound : (n : ℕ) (e : HubEvent) (h : Hub) → Sound (suc n) h → Sound n (hub_step e h)
  unfolding hub_step
  step_Sound n (begins i c) h s = record {
    fits = omega (arith, s.fits);
    roomed = s.roomed;
    past =
        attempts_next (is_past h.manager.users) i (some (begin_attempt c h.manager)) h s.past
          (λ e. begun_past c h.manager);
  }
  step_Sound n (reads_user i user) h s =
      of_option (Sound n) (attempt_of i h.attempts) _ _
        (λ e. taken_Sound n h h.manager (Takes-refl user_id scope ws h.manager) s)
        λ a e. record {
          fits = omega (arith, s.fits);
          roomed = s.roomed;
          past =
              let p = is_past h.manager.users in
              attempts_next p i (user_was_read user a h.manager) h s.past
                λ same. read_keeps p user a h.manager (λ x y. attempt_here p i a h s.past e same);
        }
  step_Sound n (finishes i r) h s =
      of_option (Sound n) (attempt_of i h.attempts) _ _
        (λ e. taken_Sound n h h.manager (Takes-refl user_id scope ws h.manager) s)
        λ a e.
          let (u, x, roomed) = finish-Same i a r h.manager in
          record {
            fits = (
              omega (arith, s.fits, x, ap (λ (t : EpochTable ℕ). length t.wide) u),
              omega (arith, s.fits, x, ap (λ (t : EpochTable ℕ). length t.scoped) u),
            );
            roomed = roomed s.roomed;
            past = rw u (attempts_next (is_past h.manager.users) i none h s.past (λ same. refl));
          }
  step_Sound n (leaves i) h s =
      taken_Sound n h _ (remove_session-Takes user_id scope ws i h.manager) s
  step_Sound n (closes i) h s = taken_Sound n h _ (close_one-Takes user_id scope ws i h.manager) s
  step_Sound n (revokes_user id c) h s = revoked_Sound n h id c s
  step_Sound n (revokes_token t c) h s =
      taken_Sound n h _ (revoke_token_sessions-Takes user_id scope ws t c h.manager) s
  step_Sound n (closes_booth b) h s =
      taken_Sound n h _ (close_booth_sessions-Takes user_id scope ws b h.manager) s
