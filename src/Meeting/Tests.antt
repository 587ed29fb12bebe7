-- ===== src/Meeting/Tests.antt =====
-- Runs and witnesses for portal/meeting_source.py, with the identity for `url_fingerprint`.
use voxbento.Prelude.{
  ℕ, zero, suc, ◌≡◌, ◌≤◌, ◌+◌, ◌*◌, refl, true, false, none, some, List, [], ◌∷◌, Text, codes,
  text_eq, arith,
}
use voxbento.Meeting.{degraded, processing, new_health, Settings, Tick}
use voxbento.Meeting.Recover.{recover, failure_message}
use voxbento.Meeting.Reconcile.{
  joined_other_url, rejoin, judge_worker, start_on, run_worker, judge_audio, in_meeting, by_stage,
  reconcile_room, reconcile, reconcile_all,
}
use voxbento.Meeting.Budget.{starts}
use voxbento.Meeting.Bound.{renewals, rejoins, starts-reconcile_all-le}
use voxbento.Meeting.GivesUp.{reconcile_all_gives_up}

abbrev raw : Text → Text
raw s = s

abbrev one_restart : Settings
one_restart = record { max_restarts = 1; no_audio_secs = 20; stall_secs = 15 }

abbrev url : Text
url = codes "https://meet.x.org/A"

-- A tick in which the agent is gone.
abbrev gone : ℕ → Tick
gone now = record {
  now = now;
  reachable = true;
  agent = none;
  path = none;
  media_known = true;
  target_url = url;
  problem = none;
  last_audio = none;
  config = record { provider = []; model = []; language = [] };
  start_works = false;
  worker_works = true;
}

-- A tick in which its audio is transcribed.
abbrev live : ℕ → Tick
live now = record (gone now) {
  agent = some (record {
    state = some (codes "healthy");
    stage = some (codes "in_meeting");
    failure = none;
    url_fingerprint = none;
  });
  path = some (record { ready = true; source = true; bytes_received = now });
  last_audio = some now;
}

live_tick : (reconcile one_restart raw (live 100) new_health).1.state ≡ processing
unfolding reconcile reconcile_room joined_other_url by_stage in_meeting judge_audio run_worker
    start_on judge_worker text_eq
live_tick = refl

-- Ticks every two seconds in which the agent is gone.
abbrev outage : ℕ → ℕ → List Tick
outage now zero = []
outage now (suc n) = gone now ∷ outage (now + 2) n

one_start : starts (reconcile_all one_restart raw (outage 100 17) new_health).0 ≡ 1
unfolding reconcile_all reconcile reconcile_room joined_other_url recover failure_message text_eq
one_start = refl

-- The agent reports that it is in another meeting, and cannot be started anew.
abbrev elsewhere : ℕ → Tick
elsewhere now = record (gone now) {
  agent =
      some
        (record { state = none; stage = none; failure = none; url_fingerprint = some (codes "B") });
}

-- Such starts are not counted, and are tried in each tick.
uncounted :
    (starts
        (reconcile_all one_restart raw
          (elsewhere 90 ∷ elsewhere 92 ∷ elsewhere 94 ∷ [])
          new_health).0
      ≡ 3)
    × ((reconcile_all one_restart raw
          (elsewhere 90 ∷ elsewhere 92 ∷ elsewhere 94 ∷ [])
          new_health).1.restarts
        ≡ 0)
unfolding reconcile_all reconcile reconcile_room rejoin joined_other_url text_eq
uncounted = (refl, refl)

starts-reconcile_all-le_example :
    starts (reconcile_all one_restart raw (live 80 ∷ elsewhere 90 ∷ outage 100 17) new_health).0 + 0
    ≤ 1 * (1 + renewals one_restart raw (live 80 ∷ elsewhere 90 ∷ outage 100 17) new_health)
      + rejoins one_restart raw (live 80 ∷ elsewhere 90 ∷ outage 100 17) new_health
starts-reconcile_all-le_example =
    starts-reconcile_all-le one_restart raw (live 80 ∷ elsewhere 90 ∷ outage 100 17) new_health
      (omega arith)

reconcile_all_gives_up_example :
    ((reconcile_all one_restart raw (outage 100 17) new_health).1.state ≡ degraded)
    × ((reconcile_all one_restart raw (outage 100 17) new_health).1.restarts ≡ 1)
unfolding rejoins reconcile reconcile_room joined_other_url recover failure_message text_eq
reconcile_all_gives_up_example =
    reconcile_all_gives_up one_restart raw (outage 100 17) new_health 100 refl refl refl refl
      (omega arith) (omega arith)
