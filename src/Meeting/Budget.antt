-- ===== src/Meeting/Budget.antt =====
-- How often the portal restarts a meeting agent: portal/meeting_source.py.
use voxbento.Prelude.{
  ℕ, suc, ◌≡◌, ◌⊎◌, inl, inr, ◌+◌, ◌≤◌, refl, Bool, true, false, not, Option, none, some, of_if,
  of_option, List, [], ◌∷◌, ◌++◌, Text, text_eq, leb, ltb, arith,
}
use voxbento.Meeting.{
  AgentState, receiving, processing, sentence, AgentHealth, AgentCall, start_agent, stop_agent,
  stop_worker, start_worker, Settings, Tick, Outcome,
}
use voxbento.Meeting.Recover.{recover, restart, restart_time, failure_message, worker_stopped}
use voxbento.Meeting.Reconcile.{
  start_on, config_changed, has_progress, stable_reset_secs, progressed, judge_worker, run_worker,
  after_calls, time_since, time_or, is_time, shown,
}

abbrev pub starts : List AgentCall → ℕ
starts [] = 0
starts (start_agent ∷ cs) = suc (starts cs)
starts (_ ∷ cs) = starts cs

abbrev pub is_processing : AgentState → Bool
is_processing processing = true
is_processing _ = false

pub starts-append : (cs ds : List AgentCall) → starts (cs ++ ds) ≡ starts cs + starts ds
starts-append [] ds = omega arith
starts-append (start_agent ∷ cs) ds = omega (arith, starts-append cs ds)
starts-append (stop_agent ∷ cs) ds = starts-append cs ds
starts-append (stop_worker ∷ cs) ds = starts-append cs ds
starts-append (start_worker ∷ cs) ds = starts-append cs ds

-- What a recovery begins with.
abbrev pub cleared : Text → AgentHealth → AgentHealth
cleared failure h = record h {
  joined_at = none;
  last_progress = none;
  last_bytes = none;
  failure = failure;
}

-- The URL that the agent was last started for is the given one, if it is known.
abbrev pub is_url : Text → Option Text → Bool
is_url u none = true
is_url u (some a) = text_eq a u

-- What is known of the URL that the agent was last started for.
module _ (limit : ℕ) (p : Option Text → Bool) where
  abbrev pub is_for : AgentHealth → Bool
  is_for h = p h.agent_url

  -- Every start is counted in `restarts`, which only processing sets back.
  abbrev pub Counts : ℕ → List AgentCall → AgentHealth → Type 0
  Counts n cs h =
      (h.restarts ≡ starts cs + n)
      ⊎ ((h.restarts ≡ 0) × (starts cs ≡ 0) × (is_processing h.state ≡ true))

  pub record Spends (n : ℕ) (o : Outcome) : Type 0 where
    pub counts : Counts n o.calls o.health
    pub calm : o.raised ≡ true → o.health.restarts ≡ starts o.calls + n
    pub within : o.health.restarts ≤ limit
    pub same : is_for o.health ≡ true

  -- A tick that starts nothing and keeps the count.
  pub idle :
      (n : ℕ) (o : Outcome)
      → n ≤ limit
      → o.health.restarts ≡ n
      → starts o.calls ≡ 0
      → is_for o.health ≡ true
      → Spends n o
  idle n o le kept none_started f = record {
    counts = inl (omega arith);
    calm = λ r. omega arith;
    within = omega arith;
    same = f;
  }

  restart-Spends :
      (tick : Tick) (message : Text) (h : AgentHealth)
      → h.restarts + 1 ≤ limit
      → is_for h ≡ true
      → p (some tick.target_url) ≡ true
      → Spends h.restarts (restart tick message h)
  restart-Spends tick message h le f t =
      of_if (Spends h.restarts) tick.start_works _ _
        (λ w. record { counts = inl (omega arith); calm = λ r. omega arith; within = le; same = t })
        (λ w. record { counts = inl (omega arith); calm = λ r. omega arith; within = le; same = f })

  module _ (tick : Tick) (t : p (some tick.target_url) ≡ true) where
    pub recover-Spends :
        (failure : Text) (h : AgentHealth)
        → h.restarts ≤ limit
        → is_for h ≡ true
        → Spends h.restarts (recover limit tick failure h)
    unfolding recover
    recover-Spends failure h le f =
        of_if (Spends h.restarts) (leb limit h.restarts) _ _
          (λ full. idle h.restarts _ le refl refl f)
          λ left.
            of_if (Spends h.restarts) (ltb tick.now (restart_time h tick.now)) _ _
              (λ early. idle h.restarts _ le refl refl f)
              λ due.
                restart-Spends tick (failure_message failure) (cleared failure h) (ground arith) f t

    pub after_calls-Spends :
        (n : ℕ) (cs : List AgentCall) (o : Outcome)
        → starts cs ≡ 0
        → Spends n o
        → Spends n (after_calls cs o)
    after_calls-Spends n cs o quiet s = record {
      counts = more s.counts;
      calm = λ r. omega (arith, starts-append cs o.calls, s.calm r);
      within = s.within;
      same = s.same;
    }
      where
        more : Counts n o.calls o.health → Counts n (cs ++ o.calls) o.health
        more (inl e) = inl (omega (arith, starts-append cs o.calls))
        more (inr (e, q, d)) = inr (e, omega (arith, starts-append cs o.calls), d)

    judge_worker-Spends :
        (settings : Settings) (fingerprint : Text → Text) (cs : List AgentCall) (h : AgentHealth)
        → starts cs ≡ 0
        → h.restarts ≤ limit
        → is_for h ≡ true
        → Spends h.restarts (judge_worker settings fingerprint cs tick h)
    unfolding judge_worker
    judge_worker-Spends settings fingerprint cs h quiet le f =
        let since = time_since h.worker_started_at tick.now in
        let stopped : starts (cs ++ stop_worker ∷ []) ≡ 0 =
          omega (arith, starts-append cs (stop_worker ∷ [])) in
        let P = λ (x : AgentHealth).
          Spends h.restarts (shown cs processing "Meeting audio is being transcribed." x) in
        of_if (Spends h.restarts)
          (ltb (time_or tick.last_audio since + settings.stall_secs) tick.now) _ _
          (λ stalled. idle h.restarts _ le refl stopped f)
          λ fresh.
            of_if (Spends h.restarts) (not (is_time tick.last_audio)) _ _
              (λ silent. idle h.restarts _ le refl quiet f)
              λ heard.
                of_option P h.healthy_since _ _ (λ new. idle h.restarts _ le refl quiet f)
                  λ from e.
                    of_if P (leb (from + stable_reset_secs) tick.now) _ _
                      (λ stable. record {
                        counts = inr (refl, quiet, refl);
                        calm = λ r. absurd (cc);
                        within = omega arith;
                        same = f;
                      })
                      (λ early. idle h.restarts _ le refl quiet f)

    start_on-Spends :
        (settings : Settings) (fingerprint : Text → Text) (cs : List AgentCall) (h : AgentHealth)
        → starts cs ≡ 0
        → h.restarts ≤ limit
        → is_for h ≡ true
        → Spends h.restarts (start_on settings fingerprint cs tick h)
    unfolding start_on
    start_on-Spends settings fingerprint cs h quiet le f =
        let more : starts (cs ++ start_worker ∷ []) ≡ 0 =
          omega (arith, starts-append cs (start_worker ∷ [])) in
        of_if (Spends h.restarts) tick.worker_works _ _
          (λ works.
            judge_worker-Spends settings fingerprint (cs ++ start_worker ∷ [])
              (record h { worker_config = some tick.config }) more le f)
          (λ fails. idle h.restarts _ le refl more f)

    pub run_worker-Spends :
        (settings : Settings) (fingerprint : Text → Text) (h : AgentHealth)
        → h.restarts ≤ limit
        → is_for h ≡ true
        → Spends h.restarts (run_worker settings fingerprint tick h)
    unfolding run_worker
    run_worker-Spends settings fingerprint h le f =
        let h' : AgentHealth = record h {
          state = receiving;
          reason = sentence "Meeting audio received; starting transcription.";
        } in
        of_if (Spends h.restarts) (config_changed tick h') _ _
          (λ changed.
            start_on-Spends settings fingerprint (stop_worker ∷ []) (worker_stopped h') refl le f)
          (λ same. start_on-Spends settings fingerprint [] h' refl le f)

    pub progressed_lem :
        (h : AgentHealth)
        → ((progressed tick h).restarts ≡ h.restarts)
          × ((progressed tick h).agent_url ≡ h.agent_url)
    progressed_lem h =
        let P = λ (x : AgentHealth). (x.restarts ≡ h.restarts) × (x.agent_url ≡ h.agent_url) in
        of_option P tick.path _ _ (λ e. (refl, refl))
          λ path e. of_if P (has_progress tick h) _ _ (λ y. (refl, refl)) (λ n. (refl, refl))
