-- ===== src/Sockets/Silence.antt =====
-- Connections whose authorization has been revoked: portal/websockets/manager.py and
-- portal/websockets/handlers.py.
use voxbento.Prelude.{
  ℕ, ◌≡◌, refl, ap, ◌∙◌, sym, subst, nat_eq_iff, Bool, true, false, Bool-cases, inl, inr, of_if,
  of_option, none, some, List, [], ◌∷◌, Text, nat_eq, any, if◌then◌else◌, map, arith,
}
use voxbento.Connections.{Session, without_role}
use voxbento.Sockets.Messages.{Turn, handle}
use voxbento.Sockets.Loop.{
  Server, Event, opened, received, revoked, ended, booth_made, booth_removed, booth_shown,
  publish_checked, overload_reported, session_of, set_session, closed, disconnect, after_turn,
  on_message, step, run,
}

session_of-set_session :
    (i j : ℕ) (t : Session) (ss : List (ℕ × Session))
    → session_of j (set_session i t ss) ≡ (
        if nat_eq i j
        then elim (session_of j ss) [ none ↦ none | some s ↦ some t ]
        else session_of j ss)
unfolding session_of set_session
session_of-set_session i j t [] = ground arith
session_of-set_session i j t ((k, s) ∷ ss) = ground (arith, session_of-set_session i j t ss)

session_of-closed :
    (i j : ℕ) (ss : List (ℕ × Session))
    → session_of j (closed i ss) ≡ (if nat_eq i j then none else session_of j ss)
unfolding session_of
session_of-closed i j [] = ground arith
session_of-closed i j ((k, s) ∷ ss) = ground (arith, session_of-closed i j ss)

-- No session, or one that has been revoked.
abbrev pub is_shut : ℕ → Server → Bool
is_shut ws v = elim (session_of ws v.sessions) [ none ↦ true | some s ↦ s.revoked ]

abbrev pub opens : ℕ → Event → Bool
opens ws (opened i s) = nat_eq i ws
opens ws _ = false

-- A history in which each message of the connection is replaced by its end.
abbrev pub silenced : ℕ → Event → Event
silenced ws (received i m fresh) = if nat_eq i ws then ended i else received i m fresh
silenced ws e = e

module _ (lower : Text → Text) (hash : Text → Text) where
  disconnect_shut :
      (ws i : ℕ) (s : Session) (v : Server)
      → is_shut ws v ≡ true
      → is_shut ws (disconnect lower hash i s v) ≡ true
  unfolding disconnect
  disconnect_shut ws i s v h = ground (arith, session_of-closed i ws v.sessions)

  after_turn_shut :
      (ws i : ℕ) (t : Turn) (v : Server)
      → nat_eq i ws ≡ false
      → is_shut ws v ≡ true
      → is_shut ws (after_turn lower hash i t v) ≡ true
  unfolding after_turn
  after_turn_shut ws i t v other h =
      let w : Server = record {
        sessions = set_session i t.session v.sessions;
        portal = t.portal;
      } in
      let shut : is_shut ws w ≡ true =
        ground (arith, session_of-set_session i ws t.session v.sessions) in
      of_option (λ u. is_shut ws u ≡ true) t.raised _ _ (λ e. shut)
        λ x e. disconnect_shut ws i t.session w shut

  -- A socket that is not shut is another one.
  other_socket :
      (ws i : ℕ) (v : Server) (s : Session)
      → is_shut ws v ≡ true
      → session_of i v.sessions ≡ some s
      → s.revoked ≡ false
      → nat_eq i ws ≡ false
  other_socket ws i v s h e r = elim (Bool-cases (nat_eq i ws)) [
    | inl same ↦
        let e' = subst (λ k. session_of k v.sessions ≡ some s) ((nat_eq_iff i ws).0 same) e in
        absurd (ground arith)
    | inr other ↦ other
  ]

  step_shut :
      (ws : ℕ) (e : Event) (v : Server)
      → opens ws e ≡ false
      → is_shut ws v ≡ true
      → is_shut ws (step lower hash e v) ≡ true
  unfolding step session_of on_message
  step_shut ws (opened i s) v o h = ground arith
  step_shut ws (received i m fresh) v o h =
      of_option (λ u. is_shut ws u ≡ true) (session_of i v.sessions) _ _ (λ e. h)
        λ s e.
          of_if (λ u. is_shut ws u ≡ true) s.revoked _ _ (λ r. disconnect_shut ws i s v h)
            λ r.
              after_turn_shut ws i (handle lower hash m s fresh v.portal) v
                (other_socket ws i v s h e r) h
  step_shut ws (revoked i) v o h =
      of_option (λ u. is_shut ws u ≡ true) (session_of i v.sessions) _ _ (λ e. h)
        λ s e. ground (arith, session_of-set_session i ws (without_role s) v.sessions)
  step_shut ws (ended i) v o h =
      of_option (λ u. is_shut ws u ≡ true) (session_of i v.sessions) _ _ (λ e. h)
        λ s e. disconnect_shut ws i s v h
  step_shut ws (booth_made slug code language room channel inst) v o h = h
  step_shut ws (booth_removed slug room code) v o h = h
  step_shut ws (booth_shown a) v o h = h
  step_shut ws (publish_checked a id) v o h = h
  step_shut ws (overload_reported id) v o h = h

  step-silenced :
      (ws : ℕ) (e : Event) (v : Server)
      → is_shut ws v ≡ true
      → step lower hash (silenced ws e) v ≡ step lower hash e v
  unfolding step on_message
  step-silenced ws (received i m fresh) v h = elim (Bool-cases (nat_eq i ws)) [
    | inl same ↦
        let k = subst (λ k. is_shut k v ≡ true) (sym ((nat_eq_iff i ws).0 same)) h in
        rw same (as_ended k)
    | inr other ↦ rw other refl
  ]
    where
      as_ended :
          is_shut i v ≡ true → step lower hash (ended i) v ≡ step lower hash (received i m fresh) v
      as_ended k = ground arith
  step-silenced ws (opened i s) v h = refl
  step-silenced ws _ v h = refl

  -- A connection whose authorization was revoked is silent: whatever else happens, in whatever order, as
  -- long as the connection is not opened again, its messages have no effect but that of its end. The
  -- server after a history is the server after the same history with each of them replaced by the end
  -- of the connection.
  pub run-silenced :
      (ws : ℕ) (es : List Event) (v : Server)
      → any (opens ws) es ≡ false
      → is_shut ws v ≡ true
      → run lower hash (map (silenced ws) es) v ≡ run lower hash es v
  unfolding run
  run-silenced ws [] v o h = refl
  run-silenced ws (e ∷ es) v o h =
      ap (run lower hash (map (silenced ws) es)) (step-silenced ws e v h)
      ∙ (run-silenced ws es (step lower hash e v) (ground arith)
          (step_shut ws e v (ground arith) h))
