-- ===== src/Connections/Barred.antt =====
-- Nobody slips through a revocation: portal/websockets/manager.py and portal/websockets/handlers.py.
use voxbento.Prelude.{
  ℕ, ◌≡◌, ◌+◌, ◌≤◌, ◌<◌, suc, refl, ap, ◌∙◌, Bool, false, ◌&&◌, Option, none, some, of_option, List,
  [], ◌∷◌, ◌++◌, Text, nat_has_eq, text_has_eq, pair_has_eq, nat_eq, any, filter, length, is_empty,
  arith, values,
}
use voxbento.Connections.{ConnectionManager, get_session}
use voxbento.Connections.Revoke.{
  bump_epoch, in_scope, is_user_session, has_session, all_sockets, forget, revoke_matching,
  revoke_user_sessions,
}
use voxbento.Connections.Effects.{
  is_live, remove_session-Takes, revoke_all-Takes, close_one-Takes, close_booth_sessions-Takes,
  revoke_token_sessions-Takes, revoke_matching-is_live,
}
use voxbento.Connections.Connect.{
  Hub, HubEvent, begins, reads_user, finishes, leaves, closes, revokes_user, revokes_token,
  closes_booth, begin_attempt, user_was_read, attempt_of, new_manager, hub_step, hub_run,
}
use voxbento.Connections.Attempts.{
  is_past, is_late, attempts_are, Sound, Barred, is_late_later, is_late_now, taken_Barred,
  read_keeps, finish-Same, finish_live, of_attempt, attempt_here, attempts_next, step_Sound,
}

module _ (user_id : ℕ) (scope : Option Text) (ws : ℕ) where
  -- The user begins a connection in the scope.
  abbrev pub begins_for : HubEvent → Bool
  begins_for (begins i c) = elim c.user_id [
    | none ↦ false
    | some id ↦ nat_eq id user_id && in_scope scope c.booth_id
  ]
  begins_for _ = false

  revoked_Barred :
      (n : ℕ) (h : Hub) (id : ℕ) (c : Option Text)
      → Sound user_id scope ws (suc n) h
      → Barred user_id scope ws h
      → Barred user_id scope ws (hub_step (revokes_user id c) h)
  unfolding hub_step revoke_user_sessions revoke_matching
  revoked_Barred n h id c s b =
      let m = h.manager in
      let wide : length m.users.wide < m.max_epochs = omega (arith, s.fits) in
      let scoped : length m.users.scoped < m.max_epochs = omega (arith, s.fits) in
      let k : ConnectionManager = record m {
        users = bump_epoch m.max_epochs id c m.users;
        allowed_cache = forget c m.allowed_cache;
      } in
      let wss =
        filter (has_session (is_user_session id c) m.sessions) (all_sockets (values m.rooms)) in
      let (u, x, r, l) = revoke_all-Takes user_id scope ws wss k in
      record {
        live = l b.live;
        late =
            ap (λ t. attempts_are user_id scope ws (is_late user_id scope ws t) h) u
            ∙ of_attempt user_id scope ws (is_late user_id scope ws m.users)
                (is_late user_id scope ws k.users) h
                (λ a. is_late_later user_id scope ws m.max_epochs id c m.users a wide scoped)
                b.late;
      }

  -- A revocation bars who it is for.
  bars :
      (n : ℕ) (h : Hub)
      → elim scope [ none ↦ false | some c ↦ is_empty c ] ≡ false
      → Sound user_id scope ws (suc n) h
      → Barred user_id scope ws (hub_step (revokes_user user_id scope) h)
  unfolding hub_step revoke_user_sessions revoke_matching
  bars n h filled s =
      let m = h.manager in
      let wide : length m.users.wide < m.max_epochs = omega (arith, s.fits) in
      let scoped : length m.users.scoped < m.max_epochs = omega (arith, s.fits) in
      let k : ConnectionManager = record m {
        users = bump_epoch m.max_epochs user_id scope m.users;
        allowed_cache = forget scope m.allowed_cache;
      } in
      let wss =
        filter (has_session (is_user_session user_id scope) m.sessions)
          (all_sockets (values m.rooms)) in
      record {
        live = revoke_matching-is_live user_id scope ws k s.roomed;
        late =
            ap (λ t. attempts_are user_id scope ws (is_late user_id scope ws t) h)
              (revoke_all-Takes user_id scope ws wss k).0
            ∙ of_attempt user_id scope ws (is_past user_id scope ws m.users)
                (is_late user_id scope ws k.users) h
                (λ a. is_late_now user_id scope ws m.max_epochs m.users a wide scoped filled)
                s.past;
      }

  step_Barred :
      (n : ℕ) (e : HubEvent) (h : Hub)
      → Sound user_id scope ws (suc n) h
      → begins_for e ≡ false
      → Barred user_id scope ws h
      → Barred user_id scope ws (hub_step e h)
  unfolding hub_step begin_attempt
  step_Barred n (begins i c) h s o b = record {
    live = b.live;
    late =
        attempts_next user_id scope ws (is_late user_id scope ws h.manager.users) i
          (some (begin_attempt c h.manager)) h b.late (λ e. ground arith);
  }
  step_Barred n (reads_user i user) h s o b =
      of_option (Barred user_id scope ws) (attempt_of i h.attempts) _ _ (λ e. b)
        λ a e. record {
          live = b.live;
          late =
              let p = is_late user_id scope ws h.manager.users in
              attempts_next user_id scope ws p i (user_was_read user a h.manager) h b.late λ same.
                read_keeps user_id scope ws p user a h.manager
                  (λ x y. attempt_here user_id scope ws p i a h b.late e same);
        }
  step_Barred n (finishes i r) h s o b =
      of_option (Barred user_id scope ws) (attempt_of i h.attempts) _ _ (λ e. b)
        λ a e.
          let (u, x, roomed) = finish-Same user_id scope ws i a r h.manager in
          record {
            live =
                finish_live user_id scope ws i a r h.manager
                  (attempt_here user_id scope ws (is_late user_id scope ws h.manager.users) i a h
                    b.late e)
                  b.live;
            late = rw u (
                attempts_next user_id scope ws (is_late user_id scope ws h.manager.users) i none h
                  b.late (λ same. refl));
          }
  step_Barred n (leaves i) h s o b =
      taken_Barred user_id scope ws n h _ (remove_session-Takes user_id scope ws i h.manager) b
  step_Barred n (closes i) h s o b =
      taken_Barred user_id scope ws n h _ (close_one-Takes user_id scope ws i h.manager) b
  step_Barred n (revokes_user id c) h s o b = revoked_Barred n h id c s b
  step_Barred n (revokes_token t c) h s o b =
      taken_Barred user_id scope ws n h _
        (revoke_token_sessions-Takes user_id scope ws t c h.manager) b
  step_Barred n (closes_booth x) h s o b =
      taken_Barred user_id scope ws n h _ (close_booth_sessions-Takes user_id scope ws x h.manager)
        b

  Sound-le : (k n : ℕ) (h : Hub) → k ≤ n → Sound user_id scope ws n h → Sound user_id scope ws k h
  Sound-le k n h le s = record {
    fits = (omega (arith, s.fits), omega (arith, s.fits));
    roomed = s.roomed;
    past = s.past;
  }

  -- Nothing has happened yet.
  new_Sound :
      (n max_epochs : ℕ)
      → n ≤ max_epochs
      → Sound user_id scope ws n (record { manager = new_manager max_epochs; attempts = [] })
  unfolding get_session attempt_of
  new_Sound n max_epochs le = record {
    fits = (omega arith, omega arith);
    roomed = refl;
    past = refl;
  }

  run_Sound :
      (n : ℕ) (es : List HubEvent) (h : Hub)
      → Sound user_id scope ws (length es + n) h
      → Sound user_id scope ws n (hub_run es h)
  unfolding hub_run
  run_Sound n [] h s = Sound-le n (0 + n) h (omega arith) s
  run_Sound n (e ∷ es) h s = run_Sound n es (hub_step e h) (
      step_Sound user_id scope ws (length es + n) e h
        (Sound-le (suc (length es + n)) (length (e ∷ es) + n) h (omega arith) s))

  run_Barred :
      (n : ℕ) (es : List HubEvent) (h : Hub)
      → Sound user_id scope ws (length es + n) h
      → any begins_for es ≡ false
      → Barred user_id scope ws h
      → Barred user_id scope ws (hub_run es h)
  unfolding hub_run
  run_Barred n [] h s o b = b
  run_Barred n (e ∷ es) h s o b =
      let s' = Sound-le (suc (length es + n)) (length (e ∷ es) + n) h (omega arith) s in
      run_Barred n es (hub_step e h) (step_Sound user_id scope ws (length es + n) e h s')
        (ground arith) (step_Barred (length es + n) e h s' (ground arith) b)

  run-append : (es fs : List HubEvent) (h : Hub) → hub_run (es ++ fs) h ≡ hub_run fs (hub_run es h)
  unfolding hub_run
  run-append [] fs h = refl
  run-append (e ∷ es) fs h = run-append es fs (hub_step e h)

  -- Once a user's authorization is revoked, everywhere or in one booth, no connection acts for them
  -- there until they begin a new one: whatever came before, whichever connections were being accepted at
  -- the time, and whatever follows, in any order, every connection that is registered for the user in
  -- the scope is revoked. There are no more events than epochs that the manager remembers.
  pub is_live-revokes_user :
      (max_epochs : ℕ) (before later : List HubEvent)
      → elim scope [ none ↦ false | some c ↦ is_empty c ] ≡ false
      → length before + length later < max_epochs
      → any begins_for later ≡ false
      → is_live user_id scope ws
          (hub_run
            (before ++ revokes_user user_id scope ∷ later)
            (record { manager = new_manager max_epochs; attempts = [] })).manager
        ≡ false
  unfolding hub_run
  is_live-revokes_user max_epochs before later filled bound o =
      let start : Hub = record { manager = new_manager max_epochs; attempts = [] } in
      let n = length later in
      let then_on = hub_run before start in
      let s =
        run_Sound (suc n) before start
          (new_Sound (length before + suc n) max_epochs (omega arith)) in
      let s' = step_Sound user_id scope ws n (revokes_user user_id scope) then_on s in
      let revoked = hub_step (revokes_user user_id scope) then_on in
      ap (λ (h : Hub). is_live user_id scope ws h.manager)
        (run-append before (revokes_user user_id scope ∷ later) start)
      ∙ (run_Barred 0 later revoked (Sound-le (n + 0) n revoked (omega arith) s') o
          (bars n then_on filled s)).live
