-- ===== src/Meeting/Recover.antt =====
-- `_recover` and `_stop_worker` of portal/meeting_source.py.
use voxbento.Prelude.{
  ℕ, zero, suc, ◌+◌, true, false, none, some, [], ◌∷◌, Text, codes, text_eq, leb, ltb,
  if◌then◌else◌,
}
use voxbento.Meeting.{
  degraded, reconnecting, gave_up, waits, restarting, AgentHealth, start_agent, Outcome, Tick,
}

-- `RESTART_BACKOFF_SECS[min(restarts, len(RESTART_BACKOFF_SECS) - 1)]`
abbrev pub backoff : ℕ → ℕ
backoff zero = 2
backoff (suc zero) = 5
backoff (suc (suc zero)) = 10
backoff (suc (suc (suc zero))) = 20
backoff _ = 30

-- `FAILURES.get(failure, FAILURES["exited"])`
unfoldable pub failure_message : Text → Text
failure_message failure =
    if text_eq failure (codes "missing")
    then codes "The meeting agent is not running."
    else if text_eq failure (codes "join_failed")
    then codes
        "The agent could not join the meeting. Check the room URL and that the meeting has no lobby or password."
    else if text_eq failure (codes "not_jitsi")
    then codes
        "The room URL did not open a Jitsi meeting. Use a meeting URL on the self-hosted Jitsi server."
    else if text_eq failure (codes "redirected")
    then codes
        "The meeting URL redirects to a different room. Use the URL the meeting finally opens at."
    else if text_eq failure (codes "left_meeting")
    then codes "The agent was removed from the meeting or the meeting ended."
    else if text_eq failure (codes "audio_failed")
    then codes "The agent joined but could not send meeting audio to the media server."
    else if text_eq failure (codes "no_audio")
    then codes "The agent joined but no meeting audio reached the media server."
    else codes "The meeting agent process exited unexpectedly."

-- `_stop_worker`, what it does to the health.
abbrev pub worker_stopped : AgentHealth → AgentHealth
worker_stopped h = record h { worker_config = none; worker_started_at = none; healthy_since = none }

-- The time of the next restart, which is set if there is none.
abbrev pub restart_time : AgentHealth → ℕ → ℕ
restart_time h now = elim h.next_restart_at [ none ↦ now + backoff h.restarts | some t ↦ t ]

-- A restart: the attempt is counted before the agent is started, which may raise.
abbrev pub restart : Tick → Text → AgentHealth → Outcome
restart tick message h =
    let h' : AgentHealth = record h {
      state = reconnecting;
      restarts = h.restarts + 1;
      next_restart_at = none;
    } in
    if tick.start_works
    then record {
      calls = start_agent ∷ [];
      health = record h' {
        agent_url = some tick.target_url;
        reason = restarting message (h.restarts + 1);
      };
      raised = false;
    }
    else record { calls = start_agent ∷ []; health = h'; raised = true }

unfoldable pub recover : ℕ → Tick → Text → AgentHealth → Outcome
recover limit tick failure current =
    let h : AgentHealth = record current {
      joined_at = none;
      last_progress = none;
      last_bytes = none;
      failure = failure;
    } in
    let message = failure_message failure in
    if leb limit h.restarts
    then record {
      calls = [];
      health = record h { state = degraded; reason = gave_up message limit };
      raised = false;
    }
    else if ltb tick.now (restart_time h tick.now)
    then record {
      calls = [];
      health = record h {
        state = reconnecting;
        next_restart_at = some (restart_time h tick.now);
        reason = waits message (h.restarts + 1);
      };
      raised = false;
    }
    else restart tick message h
