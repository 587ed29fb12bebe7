-- ===== src/Meeting/Reconcile.antt =====
-- `reconcile_room` of portal/meeting_source.py, one tick of the loop for one room, and what
-- `reconcile_once` does with it. `fingerprint` stands for `url_fingerprint`, a prefix of SHA-256.
use Prim.Native.String.{String}
use voxbento.Prelude.{
  ℕ, zero, ◌+◌, Bool, true, false, ◌&&◌, ◌||◌, not, Option, none, some, List, [], ◌∷◌, ◌++◌, Text,
  codes, text_eq, ◌==◌, nat_has_eq, text_has_eq, opt_has_eq, is_empty, leb, ltb, if◌then◌else◌,
}
use voxbento.Meeting.{
  AgentState, starting, degraded, reconnecting, joined, receiving, processing, sentence,
  WorkerConfig, AgentHealth, AgentCall, start_agent, stop_agent, stop_worker, start_worker, Agent,
  Settings, Tick, Outcome,
}
use voxbento.Meeting.Recover.{worker_stopped, recover}

abbrev pub stable_reset_secs : ℕ
stable_reset_secs = 60

abbrev pub reconcile_interval_secs : ℕ
reconcile_interval_secs = 2

-- A text that is there and not empty.
abbrev pub given : Option Text → Option Text
given none = none
given (some t) = if is_empty t then none else some t

abbrev pub is_text : String → Option Text → Bool
is_text s none = false
is_text s (some t) = text_eq t (codes s)

-- `a or b` of times: 0 counts as none.
abbrev pub time_or : Option ℕ → ℕ → ℕ
time_or none b = b
time_or (some zero) b = b
time_or (some a) b = a

abbrev pub is_set : Option ℕ → Bool
is_set none = false
is_set (some t) = true

abbrev pub same_config : WorkerConfig → WorkerConfig → Bool
same_config a b =
    text_eq a.provider b.provider && text_eq a.model b.model && text_eq a.language b.language

abbrev pub config_changed : Tick → AgentHealth → Bool
config_changed tick h = elim h.worker_config [
  | none ↦ false
  | some c ↦ not (same_config c tick.config)
]

-- Calls before an outcome.
abbrev pub after_calls : List AgentCall → Outcome → Outcome
after_calls cs o = record o { calls = cs ++ o.calls }

abbrev pub shown : List AgentCall → AgentState → String → AgentHealth → Outcome
shown cs state reason h = record {
  calls = cs;
  health = record h { state = state; reason = sentence reason };
  raised = false;
}

-- `alive`
abbrev pub is_alive : Tick → Bool
is_alive tick = elim tick.agent [ none ↦ false | some a ↦ is_text "healthy" a.state ]

-- The failure that a recovery is for.
abbrev pub failure_of : Tick → AgentHealth → Text
failure_of tick h = if is_alive tick then h.failure else elim tick.agent [
  | none ↦ codes "missing"
  | some a ↦ elim (given a.failure) [ none ↦ codes "exited" | some f ↦ f ]
]

-- Bytes have arrived since the last tick.
abbrev pub has_progress : Tick → AgentHealth → Bool
has_progress tick h = elim tick.path [
  | none ↦ false
  | some p ↦
      p.ready
      && p.source
      && elim h.last_bytes [ none ↦ true | some n ↦ not (p.bytes_received == n) ]
]

abbrev pub progressed : Tick → AgentHealth → AgentHealth
progressed tick h = elim tick.path [
  | none ↦ h
  | some p ↦
      if has_progress tick h
      then record h { last_bytes = some p.bytes_received; last_progress = some tick.now }
      else h
]

abbrev pub reported_fingerprint : Option Agent → Option Text
reported_fingerprint none = none
reported_fingerprint (some a) = given a.url_fingerprint

-- A time that was taken before, or now.
abbrev pub time_since : Option ℕ → ℕ → ℕ
time_since none now = now
time_since (some t) now = t

abbrev pub stage_of : Option Agent → Option Text
stage_of none = none
stage_of (some a) = a.stage

-- A time that counts as true.
abbrev pub is_time : Option ℕ → Bool
is_time none = false
is_time (some zero) = false
is_time (some t) = true

module _ (settings : Settings) (fingerprint : Text → Text) where
  unfoldable pub joined_other_url : Option Agent → Option Text → Text → Bool
  joined_other_url agent known_url target_url = elim (reported_fingerprint agent) [
    | some f ↦ not (text_eq f (fingerprint target_url))
    | none ↦ elim known_url [ none ↦ false | some u ↦ not (text_eq u target_url) ]
  ]

  -- The room's URL has changed: a new agent, and a fresh budget once it was started.
  unfoldable pub rejoin : Tick → AgentHealth → Outcome
  rejoin tick h =
      if tick.start_works
      then shown (stop_worker ∷ start_agent ∷ []) starting
          "The meeting URL changed; joining the new meeting."
          (record (worker_stopped h) {
            agent_url = some tick.target_url;
            restarts = 0;
            next_restart_at = none;
            joined_at = none;
            last_progress = none;
            last_bytes = none;
          })
      else record {
        calls = stop_worker ∷ start_agent ∷ [];
        health = worker_stopped h;
        raised = true;
      }

  -- The end of a tick in which audio flows and the worker has been started.
  unfoldable pub judge_worker : List AgentCall → Tick → AgentHealth → Outcome
  judge_worker cs tick h =
      let since = time_since h.worker_started_at tick.now in
      let h' : AgentHealth = record h { worker_started_at = some since } in
      if ltb (time_or tick.last_audio since + settings.stall_secs) tick.now
      then shown (cs ++ stop_worker ∷ []) degraded
          "Audio decoder stalled or failed; restarting the processing worker." (worker_stopped h')
      else if not (is_time tick.last_audio)
      then record { calls = cs; health = h'; raised = false }
      else shown cs processing "Meeting audio is being transcribed." (elim h.healthy_since [
        | none ↦ record h' { healthy_since = some tick.now }
        | some t ↦ if leb (t + stable_reset_secs) tick.now then record h' { restarts = 0 } else h'
      ])

  -- The start of the worker, after what was done before it.
  unfoldable pub start_on : List AgentCall → Tick → AgentHealth → Outcome
  start_on cs tick h =
      if tick.worker_works
      then judge_worker (cs ++ start_worker ∷ []) tick
          (record h { worker_config = some tick.config })
      else record { calls = cs ++ start_worker ∷ []; health = h; raised = true }

  -- Audio reaches the portal: the worker is started, anew if its configuration has changed.
  unfoldable pub run_worker : Tick → AgentHealth → Outcome
  run_worker tick current =
      let h : AgentHealth = record current {
        state = receiving;
        reason = sentence "Meeting audio received; starting transcription.";
      } in
      if config_changed tick h
      then start_on (stop_worker ∷ []) tick (worker_stopped h)
      else start_on [] tick h

  -- A tick with an agent that is in the meeting, when the progress of its audio is known.
  unfoldable pub judge_audio : Tick → ℕ → AgentHealth → Outcome
  judge_audio tick joined_at h =
      if leb (time_or h.last_progress joined_at + settings.no_audio_secs) tick.now
      then after_calls (stop_worker ∷ stop_agent ∷ [])
          (recover settings.max_restarts tick (codes "no_audio") (worker_stopped h))
      else if not (is_set h.last_progress)
      then shown [] joined "In the meeting; waiting for audio to reach VoxBento." h
      else elim tick.problem [
        | none ↦ run_worker tick h
        | some problem ↦ shown (stop_worker ∷ []) degraded problem (worker_stopped h)
      ]

  -- The same, once it is known when it joined.
  unfoldable pub in_meeting : Tick → ℕ → AgentHealth → Outcome
  in_meeting tick joined_at current =
      if not tick.media_known
      then shown [] degraded "Media control unavailable; retrying automatically." current
      else judge_audio tick joined_at (progressed tick current)

  -- A tick with an agent that runs, by its stage.
  unfoldable pub by_stage : Tick → Option Text → AgentHealth → Outcome
  by_stage tick stage h =
      if is_text "launching" stage
      then shown [] starting "Launching the meeting agent." h
      else if is_text "joining" stage
      then shown [] starting "Joining the meeting." h
      else if not (is_text "in_meeting" stage)
      then shown (stop_worker ∷ []) reconnecting "The meeting agent is leaving the meeting."
          (worker_stopped h)
      else let joined_at = time_since h.joined_at tick.now in
        in_meeting tick joined_at (record h { joined_at = some joined_at })

  unfoldable pub reconcile_room : Tick → AgentHealth → Outcome
  reconcile_room tick current =
      if joined_other_url tick.agent current.agent_url tick.target_url
      then rejoin tick current
      else if not (is_alive tick) || is_set current.next_restart_at
      then after_calls (stop_worker ∷ [])
          (recover settings.max_restarts tick (failure_of tick current) (worker_stopped current))
      else by_stage tick (stage_of tick.agent) (record current { agent_url = some tick.target_url })

  -- What is kept of a room that a tick has reconciled: what was raised is shown as a degraded agent.
  abbrev pub settled : Outcome → AgentHealth
  settled o =
      if o.raised
      then record o.health {
        state = degraded;
        reason = sentence "Agent control or processing unavailable; retrying automatically.";
      }
      else o.health

  -- The floor bot does not answer.
  abbrev pub unreachable : AgentHealth → AgentHealth
  unreachable h = record h {
    state = degraded;
    reason =
        sentence
          "The meeting agent service is unreachable. Ask the server operator to check the floor-bot service. Retrying automatically.";
  }

  -- What `reconcile_once` does with a room, while the agent owns the floor: nothing while the floor bot
  -- does not answer.
  unfoldable pub reconcile : Tick → AgentHealth → List AgentCall × AgentHealth
  reconcile tick current =
      if not tick.reachable
      then ([], unreachable current)
      else let o = reconcile_room tick current in (o.calls, settled o)

  -- Ticks one after the other.
  unfoldable pub reconcile_all : List Tick → AgentHealth → List AgentCall × AgentHealth
  reconcile_all [] h = ([], h)
  reconcile_all (t ∷ ts) h =
      let (cs, h') = reconcile t h in let (ds, h'') = reconcile_all ts h' in (cs ++ ds, h'')
