-- ===== src/Meeting.antt =====
-- portal/meeting_source.py: how the portal keeps the meeting agent of a room running. What the floor bot,
-- the media server and the transcription answer in a tick is an argument, and what the tick asks of them
-- is part of its result; times are whole seconds of `time.monotonic()`.
pub mod Recover
pub mod Reconcile
pub mod Budget
pub mod Bound
pub mod GivesUp
mod Tests
use Prim.Native.String.{String}
use voxbento.Prelude.{ℕ, ◌+◌, Bool, true, false, Option, none, some, List, [], ◌∷◌, Text, codes}

pub data AgentState : Type 0 where
  starting degraded reconnecting joined receiving processing : AgentState

-- A reason is one of the code's sentences, or a failure with what is done about it.
pub data Reason : Type 0 where
  sentence : String → Reason
  gave_up : Text → ℕ → Reason
  waits : Text → ℕ → Reason
  restarting : Text → ℕ → Reason

-- The provider, the model and the language of the floor's transcription.
pub record WorkerConfig : Type 0 where
  pub provider : Text
  pub model : Text
  pub language : Text

-- `last_bytes` is `none` for -1.
pub record AgentHealth : Type 0 where
  pub state : AgentState
  pub reason : Reason
  pub restarts : ℕ
  pub failure : Text
  pub agent_url : Option Text
  pub next_restart_at : Option ℕ
  pub joined_at : Option ℕ
  pub last_bytes : Option ℕ
  pub last_progress : Option ℕ
  pub healthy_since : Option ℕ
  pub worker_config : Option WorkerConfig
  pub worker_started_at : Option ℕ

-- `AgentHealth()`
abbrev pub new_health : AgentHealth
new_health = record {
  state = starting;
  reason = sentence "Launching the meeting agent.";
  restarts = 0;
  failure = codes "exited";
  agent_url = none;
  next_restart_at = none;
  joined_at = none;
  last_bytes = none;
  last_progress = none;
  healthy_since = none;
  worker_config = none;
  worker_started_at = none;
}

-- What is asked of the floor bot and of the transcription.
pub data AgentCall : Type 0 where
  start_agent stop_agent stop_worker start_worker : AgentCall

-- What the floor bot reports of a room's agent.
pub record Agent : Type 0 where
  pub state : Option Text
  pub stage : Option Text
  pub failure : Option Text
  pub url_fingerprint : Option Text

-- What the media server reports of the floor's path.
pub record MediaPath : Type 0 where
  pub ready : Bool
  pub source : Bool
  pub bytes_received : ℕ

pub record Settings : Type 0 where
  pub max_restarts : ℕ
  pub no_audio_secs : ℕ
  pub stall_secs : ℕ

-- What a tick finds: whether the floor bot answered, the agent, the path, whether the media server answered, the URL that the room wants,
-- the problem of its pipeline, when audio was last decoded, the configuration, and whether the calls of
-- this tick that start and stop things get through.
pub record Tick : Type 0 where
  pub now : ℕ
  pub reachable : Bool
  pub agent : Option Agent
  pub path : Option MediaPath
  pub media_known : Bool
  pub target_url : Text
  pub problem : Option String
  pub last_audio : Option ℕ
  pub config : WorkerConfig
  pub start_works : Bool
  pub worker_works : Bool

-- The calls of a tick in their order, the health after it, and whether it raised.
pub record Outcome : Type 0 where
  pub calls : List AgentCall
  pub health : AgentHealth
  pub raised : Bool
