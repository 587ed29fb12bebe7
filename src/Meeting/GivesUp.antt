-- ===== src/Meeting/GivesUp.antt =====
-- What becomes of an agent that does not come back: portal/meeting_source.py.
use voxbento.Prelude.{
  ℕ, zero, suc, ◌≡◌, inl, inr, ◌+◌, ◌-◌, ◌*◌, ◌≤◌, ◌<◌, refl, Bool, true, false, ◌&&◌, ◌||◌, not,
  Bool-cases, Option-cases, none, some, of_if, List, [], ◌∷◌, Text, length, all, leb, ltb,
  if◌then◌else◌, arith,
}
use voxbento.Meeting.{degraded, AgentHealth, AgentCall, Settings, Tick, Outcome}
use voxbento.Meeting.Recover.{backoff, recover, restart_time, worker_stopped}
use voxbento.Meeting.Reconcile.{
  reconcile_interval_secs, is_alive, failure_of, is_set, joined_other_url, reconcile_room,
  reconcile, reconcile_all,
}
use voxbento.Meeting.Bound.{is_elsewhere, rejoins, reconcile-Counts}

backoff_bounds : (n : ℕ) → (1 ≤ backoff n) × (backoff n ≤ 30)
backoff_bounds zero = omega arith
backoff_bounds (suc zero) = omega arith
backoff_bounds (suc (suc zero)) = omega arith
backoff_bounds (suc (suc (suc zero))) = omega arith
backoff_bounds (suc (suc (suc (suc n)))) = omega arith

-- The ticks of the loop, which sleeps between them; the first one is at the time or later.
abbrev pub is_spaced : ℕ → List Tick → Bool
is_spaced from [] = true
is_spaced from (t ∷ ts) = leb from t.now && is_spaced (t.now + reconcile_interval_secs) ts

-- A restart is scheduled for 30 seconds after the time at most, the longest backoff.
abbrev pub is_near : ℕ → AgentHealth → Bool
is_near from h = elim h.next_restart_at [ none ↦ true | some t ↦ leb t (from + 30) ]

-- How many seconds of ticks it takes at most to use up the restarts, from a time on.
abbrev secs_left : ℕ → ℕ → AgentHealth → ℕ
secs_left limit from h = if leb limit h.restarts then 0 else elim h.next_restart_at [
  | none ↦ 33 * (limit - h.restarts)
  | some t ↦ 33 * (limit - h.restarts - 1) + 2 + (t + 1 - from)
]

record Falls (limit from now : ℕ) (h : AgentHealth) (o : Outcome) : Type 0 where
  falls :
      leb limit h.restarts ≡ false
      → secs_left limit (now + reconcile_interval_secs) o.health + 2 ≤ secs_left limit from h
  stuck :
      leb limit h.restarts ≡ true
      → (o.health.state ≡ degraded) × (o.health.restarts ≡ h.restarts) × (o.raised ≡ false)

recover-Falls :
    (limit from : ℕ) (tick : Tick) (failure : Text) (h : AgentHealth)
    → from ≤ tick.now
    → Falls limit from tick.now h (recover limit tick failure h)
unfolding recover
recover-Falls limit from tick failure h d =
    of_if (Falls limit from tick.now h) (leb limit h.restarts) _ _
      (λ full. record { falls = λ e. absurd (cc); stuck = λ e. (refl, refl, refl) })
      λ left.
        of_if (Falls limit from tick.now h) (ltb tick.now (restart_time h tick.now)) _ _
          (λ early. record {
            falls = λ e. ground (arith, backoff_bounds h.restarts, Option-cases h.next_restart_at);
            stuck = λ e. absurd (cc);
          })
          λ late.
            of_if (Falls limit from tick.now h) tick.start_works _ _
              (λ works. record {
                falls =
                    λ e. ground (arith, backoff_bounds h.restarts, Option-cases h.next_restart_at);
                stuck = λ e. absurd (cc);
              })
              (λ fails. record {
                falls =
                    λ e. ground (arith, backoff_bounds h.restarts, Option-cases h.next_restart_at);
                stuck = λ e. absurd (cc);
              })

module _ (settings : Settings) (fingerprint : Text → Text) where
  -- The floor bot answers that the agent is not running.
  abbrev pub is_down : Tick → Bool
  is_down tick = tick.reachable && not (is_alive tick)

  down_tick :
      (from : ℕ) (t : Tick) (h : AgentHealth)
      → is_down t ≡ true
      → is_elsewhere settings fingerprint t h ≡ false
      → from ≤ t.now
      → Falls settings.max_restarts from t.now h (reconcile_room settings fingerprint t h)
  unfolding reconcile_room
  down_tick from t h dead same d =
      let limit = settings.max_restarts in
      of_if (Falls limit from t.now h)
        (joined_other_url settings fingerprint t.agent h.agent_url t.target_url) _ _
        (λ other. absurd (ground arith))
        λ one.
          of_if (Falls limit from t.now h) (not (is_alive t) || is_set h.next_restart_at) _ _
            (λ down.
              let s = recover-Falls limit from t (failure_of t h) (worker_stopped h) d in
              record { falls = s.falls; stuck = s.stuck })
            (λ up. absurd (ground arith))

  -- The same of the health that is shown, also where the tick raised.
  abbrev Declines : ℕ → Tick → AgentHealth → AgentHealth → Type 0
  Declines from t h h' =
      (leb settings.max_restarts h.restarts ≡ false
        → secs_left settings.max_restarts (t.now + reconcile_interval_secs) h' + 2
          ≤ secs_left settings.max_restarts from h)
      × (leb settings.max_restarts h.restarts ≡ true
          → (h'.state ≡ degraded) × (h'.restarts ≡ h.restarts))

  shown_tick :
      (from : ℕ) (t : Tick) (h : AgentHealth)
      → is_down t ≡ true
      → is_elsewhere settings fingerprint t h ≡ false
      → from ≤ t.now
      → Declines from t h (reconcile settings fingerprint t h).1
  unfolding reconcile
  shown_tick from t h dead same d =
      let s = down_tick from t h dead same d in
      let P = λ (r : List AgentCall × AgentHealth). Declines from t h r.1 in
      of_if P (not t.reachable) _ _ (λ silent. absurd (ground arith))
        λ answered.
          of_if (Declines from t h) (reconcile_room settings fingerprint t h).raised _ _
            (λ raised. (s.falls, λ full. absurd (ground (arith, s.stuck full))))
            (λ returned. (s.falls, λ full. ((s.stuck full).0, (s.stuck full).1)))

  -- The room is shown as given up after some ticks.
  abbrev IsGivenUp : AgentHealth → Type 0
  IsGivenUp h = (h.state ≡ degraded) × (h.restarts ≡ settings.max_restarts)

  last-IsGivenUp :
      (ts : List Tick) (h : AgentHealth)
      → IsGivenUp h
      → (0 < length ts → IsGivenUp (reconcile_all settings fingerprint ts h).1)
      → IsGivenUp (reconcile_all settings fingerprint ts h).1
  unfolding reconcile_all
  last-IsGivenUp [] h g later = g
  last-IsGivenUp (t ∷ ts) h g later = later (omega arith)

  used_up :
      (ts : List Tick) (h : AgentHealth) (from : ℕ)
      → all is_down ts ≡ true
      → rejoins settings fingerprint ts h ≡ 0
      → is_spaced from ts ≡ true
      → h.restarts ≤ settings.max_restarts
      → secs_left settings.max_restarts from h < 2 * length ts
      → IsGivenUp (reconcile_all settings fingerprint ts h).1
  unfolding reconcile_all rejoins
  used_up [] h from dead same spaced le enough = absurd (omega (arith, enough))
  used_up (t ∷ ts) h from dead same spaced le enough =
      let h' = (reconcile settings fingerprint t h).1 in
      let here : is_elsewhere settings fingerprint t h ≡ false =
        ground (arith, Bool-cases (is_elsewhere settings fingerprint t h)) in
      let later : rejoins settings fingerprint ts h' ≡ 0 = omega (arith, same) in
      let (falls, stuck) = shown_tick from t h (ground arith) here (ground arith) in
      let (counts, within, kept) =
        reconcile-Counts settings fingerprint (λ known. true) t h refl le refl here in
      let rest =
        used_up ts h' (t.now + reconcile_interval_secs) (ground arith) later (ground arith)
          within in
      elim (Bool-cases (leb settings.max_restarts h.restarts)) [
        | inr left ↦ rest (omega (arith, falls left, enough))
        | inl full ↦
            let (shown_degraded, unchanged) = stuck full in
            let at_limit : h'.restarts ≡ settings.max_restarts = ground (arith, unchanged) in
            last-IsGivenUp ts h' (shown_degraded, at_limit) λ more. rest (ground (arith, at_limit))
      ]

  -- An agent that does not come back is given up. Take ticks 2 seconds or more apart, as in the loop, in
  -- all of which the floor bot answers that the agent is not running and none of which finds it in
  -- another meeting than the room wants; let a restart that is scheduled already be at most 30 seconds
  -- off, and no more restarts be used up than are allowed. If there are more of
  -- them than make up 33 seconds, at 2 seconds each, for each restart that is left, then all restarts
  -- are used up and the room is shown as degraded, whether or not the starts got through.
  pub reconcile_all_gives_up :
      (ts : List Tick) (h : AgentHealth) (from : ℕ)
      → all is_down ts ≡ true
      → rejoins settings fingerprint ts h ≡ 0
      → is_spaced from ts ≡ true
      → is_near from h ≡ true
      → h.restarts ≤ settings.max_restarts
      → 33 * (settings.max_restarts - h.restarts) < 2 * length ts
      → ((reconcile_all settings fingerprint ts h).1.state ≡ degraded)
        × ((reconcile_all settings fingerprint ts h).1.restarts ≡ settings.max_restarts)
  reconcile_all_gives_up ts h from dead same spaced near le enough =
      used_up ts h from dead same spaced le (ground (arith, Option-cases h.next_restart_at))
