-- ===== src/Meeting/Bound.antt =====
-- How often the portal starts a meeting agent: portal/meeting_source.py.
use voxbento.Prelude.{
  ℕ, ◌≡◌, ◌⊎◌, inl, inr, ◌∙◌, ◌+◌, ◌*◌, ◌≤◌, refl, ap, sym, subst, Bool, true, false, ◌||◌, ◌&&◌,
  not, Bool-cases, Option, some, of_if, of_option, List, [], ◌∷◌, Text, codes, leb, if◌then◌else◌,
  arith,
}
use voxbento.Meeting.{AgentHealth, AgentCall, stop_agent, stop_worker, Settings, Tick, Outcome}
use voxbento.Meeting.Recover.{worker_stopped}
use voxbento.Meeting.Reconcile.{
  judge_audio, is_alive, failure_of, is_set, progressed, stage_of, joined_other_url, rejoin,
  in_meeting, by_stage, reconcile_room, reconcile, reconcile_all, time_since, time_or, is_text,
}
use voxbento.Meeting.Budget.{
  starts, starts-append, is_processing, is_for, Counts, Spends, idle, recover-Spends,
  after_calls-Spends, run_worker-Spends, progressed_lem,
}

more_allowed : (b : Bool) (l r : ℕ) → l * (1 + r) ≤ l * (1 + ((if b then 1 else 0) + r))
more_allowed true l r = grind arith
more_allowed false l r = grind arith

-- One tick more: its starts are counted, or it ends with audio being processed, or it starts the agent in
-- another meeting.
add_up :
    (c rest n n' l r e : ℕ) (processes elsewhere : Bool)
    → ((n' ≡ c + n) ⊎ ((n' ≡ 0) × (c ≡ 0) × (processes ≡ true)))
      ⊎ ((elsewhere ≡ true) × (c ≡ 1) × (n' ≤ n))
    → rest + n' ≤ l * (1 + r) + e
    → n ≤ l
    → c + rest + n
      ≤ l * (1 + ((if processes || elsewhere then 1 else 0) + r))
        + ((if elsewhere then 1 else 0) + e)
add_up c rest n n' l r e processes elsewhere (inl (inl same)) h k =
    omega (arith, more_allowed (processes || elsewhere) l r)
add_up c rest n n' l r e processes elsewhere (inl (inr (none_left, none_started, y))) h k =
    let next : l * (1 + (1 + r)) ≡ l * (1 + r) + l = grind arith in rw y (omega (arith, next))
add_up c rest n n' l r e processes true (inr (y, one, le)) h k =
    let next : l * (1 + (1 + r)) ≡ l * (1 + r) + l = grind arith in
    let more = more_allowed (processes || true) l r in
    elim (Bool-cases processes) [
      | inl p ↦ rw p (omega (arith, next))
      | inr p ↦ rw p (omega (arith, next))
    ]
add_up c rest n n' l r e processes false (inr (y, one, le)) h k = absurd (cc)

module _ (settings : Settings) (fingerprint : Text → Text) (p : Option Text → Bool) where
  abbrev Pays : ℕ → Outcome → Type 0
  Pays = Spends settings.max_restarts p

  module _ (tick : Tick) (t : p (some tick.target_url) ≡ true) where
    judge_audio-Spends :
        (joined_at : ℕ) (h : AgentHealth)
        → h.restarts ≤ settings.max_restarts
        → is_for settings.max_restarts p h ≡ true
        → Pays h.restarts (judge_audio settings fingerprint tick joined_at h)
    unfolding judge_audio
    judge_audio-Spends joined_at h le f =
        let late = leb (time_or h.last_progress joined_at + settings.no_audio_secs) tick.now in
        let recovered =
          recover-Spends settings.max_restarts p tick t (codes "no_audio") (worker_stopped h) le
            f in
        of_if (Pays h.restarts) late _ _
          (λ silent.
            after_calls-Spends settings.max_restarts p tick t h.restarts
              (stop_worker ∷ stop_agent ∷ []) _ refl recovered)
          λ heard.
            of_if (Pays h.restarts) (not (is_set h.last_progress)) _ _
              (λ waiting. idle settings.max_restarts p h.restarts _ le refl refl f)
              λ flows.
                of_option (Pays h.restarts) tick.problem _ _
                  (λ fine.
                    run_worker-Spends settings.max_restarts p tick t settings fingerprint h le f)
                  λ problem e. idle settings.max_restarts p h.restarts _ le refl refl f

    in_meeting-Spends :
        (joined_at : ℕ) (h : AgentHealth)
        → h.restarts ≤ settings.max_restarts
        → is_for settings.max_restarts p h ≡ true
        → Pays h.restarts (in_meeting settings fingerprint tick joined_at h)
    unfolding in_meeting
    in_meeting-Spends joined_at h le f =
        let (r, a) = progressed_lem settings.max_restarts p tick t h in
        of_if (Pays h.restarts) (not tick.media_known) _ _
          (λ unknown. idle settings.max_restarts p h.restarts _ le refl refl f)
          λ known.
            subst
              (λ n. Pays n (judge_audio settings fingerprint tick joined_at (progressed tick h))) r
              (judge_audio-Spends joined_at (progressed tick h) (omega (arith, r)) (ap p a ∙ f))

    by_stage-Spends :
        (stage : Option Text) (h : AgentHealth)
        → h.restarts ≤ settings.max_restarts
        → is_for settings.max_restarts p h ≡ true
        → Pays h.restarts (by_stage settings fingerprint tick stage h)
    unfolding by_stage
    by_stage-Spends stage h le f =
        let still : (o : Outcome)
            → o.health.restarts ≡ h.restarts
            → starts o.calls ≡ 0
            → is_for settings.max_restarts p o.health ≡ true
            → Pays h.restarts o =
          λ o. idle settings.max_restarts p h.restarts o le in
        of_if (Pays h.restarts) (is_text "launching" stage) _ _ (λ e. still _ refl refl f)
          λ n.
            of_if (Pays h.restarts) (is_text "joining" stage) _ _ (λ e. still _ refl refl f)
              λ n'.
                of_if (Pays h.restarts) (not (is_text "in_meeting" stage)) _ _
                  (λ e. still _ refl refl f)
                  λ inside.
                    let joined_at = time_since h.joined_at tick.now in
                    in_meeting-Spends joined_at (record h { joined_at = some joined_at }) le f

    reconcile_room-Spends :
        (h : AgentHealth)
        → h.restarts ≤ settings.max_restarts
        → is_for settings.max_restarts p h ≡ true
        → joined_other_url settings fingerprint tick.agent h.agent_url tick.target_url ≡ false
        → Pays h.restarts (reconcile_room settings fingerprint tick h)
    unfolding reconcile_room
    reconcile_room-Spends h le f same =
        of_if (Pays h.restarts)
          (joined_other_url settings fingerprint tick.agent h.agent_url tick.target_url) _ _
          (λ other. absurd (cc))
          λ one.
            of_if (Pays h.restarts) (not (is_alive tick) || is_set h.next_restart_at) _ _
              (λ down.
                after_calls-Spends settings.max_restarts p tick t h.restarts (stop_worker ∷ []) _
                  refl
                  (recover-Spends settings.max_restarts p tick t (failure_of tick h)
                    (worker_stopped h) le f))
              λ up.
                by_stage-Spends (stage_of tick.agent)
                  (record h { agent_url = some tick.target_url }) le t

  pub reconcile-Counts :
      (tick : Tick) (h : AgentHealth)
      → p (some tick.target_url) ≡ true
      → h.restarts ≤ settings.max_restarts
      → is_for settings.max_restarts p h ≡ true
      → (tick.reachable
          && joined_other_url settings fingerprint tick.agent h.agent_url tick.target_url)
        ≡ false
      → let (cs, h') = reconcile settings fingerprint tick h in
        Counts settings.max_restarts p h.restarts cs h'
        × (h'.restarts ≤ settings.max_restarts)
        × (is_for settings.max_restarts p h' ≡ true)
  unfolding reconcile
  reconcile-Counts tick h t le f same =
      let P = λ (r : List AgentCall × AgentHealth).
        Counts settings.max_restarts p h.restarts r.0 r.1
        × (r.1.restarts ≤ settings.max_restarts)
        × (is_for settings.max_restarts p r.1 ≡ true) in
      let o = reconcile_room settings fingerprint tick h in
      of_if P (not tick.reachable) _ _ (λ silent. (inl (omega arith), le, f))
        λ answered.
          let spent = reconcile_room-Spends tick t h le f (ground arith) in
          of_if
            (λ (h' : AgentHealth).
              Counts settings.max_restarts p h.restarts o.calls h'
              × (h'.restarts ≤ settings.max_restarts)
              × (is_for settings.max_restarts p h' ≡ true))
            o.raised _ _ (λ raised. (inl (spent.calm raised), spent.within, spent.same))
            (λ returned. (spent.counts, spent.within, spent.same))

module _ (settings : Settings) (fingerprint : Text → Text) where
  -- The floor bot answers that the agent is in another meeting than the one that the room wants.
  abbrev pub is_elsewhere : Tick → AgentHealth → Bool
  is_elsewhere t h =
      t.reachable && joined_other_url settings fingerprint t.agent h.agent_url t.target_url

  rejoins_once :
      (t : Tick) (h : AgentHealth)
      → is_elsewhere t h ≡ true
      → let (cs, h') = reconcile settings fingerprint t h in
        (starts cs ≡ 1) × (h'.restarts ≤ h.restarts)
  unfolding reconcile reconcile_room rejoin
  rejoins_once t h e =
      let answered : t.reachable ≡ true = ground arith in
      let other : joined_other_url settings fingerprint t.agent h.agent_url t.target_url ≡ true =
        ground arith in
      elim (Bool-cases t.start_works) [
        | inl w ↦ rw (answered, other, w) (refl, omega arith)
        | inr w ↦ rw (answered, other, w) (refl, omega arith)
      ]

  tick_cost :
      (t : Tick) (h : AgentHealth)
      → h.restarts ≤ settings.max_restarts
      → let (cs, h') = reconcile settings fingerprint t h in
        (((h'.restarts ≡ starts cs + h.restarts)
            ⊎ ((h'.restarts ≡ 0) × (starts cs ≡ 0) × (is_processing h'.state ≡ true)))
          ⊎ ((is_elsewhere t h ≡ true) × (starts cs ≡ 1) × (h'.restarts ≤ h.restarts)))
        × (h'.restarts ≤ settings.max_restarts)
  tick_cost t h le = elim (Bool-cases (is_elsewhere t h)) [
    | inl e ↦ let (one, less) = rejoins_once t h e in (inr (e, one, less), omega arith)
    | inr n ↦
        let (counts, within, same) =
          reconcile-Counts settings fingerprint (λ known. true) t h refl le refl n in
        (inl counts, within)
  ]

  -- How many ticks end with audio being processed or find the agent in another meeting.
  unfoldable pub renewals : List Tick → AgentHealth → ℕ
  renewals [] h = 0
  renewals (t ∷ ts) h =
      let h' = (reconcile settings fingerprint t h).1 in
      (if is_processing h'.state || is_elsewhere t h then 1 else 0) + renewals ts h'

  -- How many ticks find the agent in another meeting.
  unfoldable pub rejoins : List Tick → AgentHealth → ℕ
  rejoins [] h = 0
  rejoins (t ∷ ts) h =
      (if is_elsewhere t h then 1 else 0) + rejoins ts (reconcile settings fingerprint t h).1

  -- Whatever the floor bot and the media server answer, whatever URLs the room wants, and however often a
  -- start fails, a room's agent is started at most `max_restarts` times, less those that were used up
  -- before and are no more than these; as often again for every tick that ends with audio being processed or finds the agent in
  -- another meeting than the room wants; and once more for every tick of the latter kind. An agent is in
  -- another meeting if it reports the fingerprint of another URL, or reports none and was last started
  -- for another URL.
  pub starts-reconcile_all-le :
      (ts : List Tick) (h : AgentHealth)
      → h.restarts ≤ settings.max_restarts
      → starts (reconcile_all settings fingerprint ts h).0 + h.restarts
        ≤ settings.max_restarts * (1 + renewals ts h) + rejoins ts h
  unfolding reconcile_all renewals rejoins
  starts-reconcile_all-le [] h le = grind arith
  starts-reconcile_all-le (t ∷ ts) h le =
      let r = reconcile settings fingerprint t h in
      let (cost, within) = tick_cost t h le in
      let rest = starts-reconcile_all-le ts r.1 within in
      let sum = starts-append r.0 (reconcile_all settings fingerprint ts r.1).0 in
      subst
        (λ n.
          n + h.restarts ≤ settings.max_restarts * (1 + renewals (t ∷ ts) h) + rejoins (t ∷ ts) h)
        (sym sum)
        (add_up (starts r.0) (starts (reconcile_all settings fingerprint ts r.1).0) h.restarts
          r.1.restarts settings.max_restarts (renewals ts r.1) (rejoins ts r.1)
          (is_processing r.1.state) (is_elsewhere t h) cost rest le)
