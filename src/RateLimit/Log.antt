-- ===== src/RateLimit/Log.antt =====
-- What the limiter of portal/rate_limit.py promises: a log of the allowed requests that forgets
-- nothing, and a run of requests through the limiter and through the log.
use voxbento.Prelude.{
  ℕ, ◌+◌, Bool, true, ◌&&◌, List, [], ◌∷◌, Text, text_eq, leb, ltb, if◌then◌else◌,
}
use voxbento.RateLimit.{InMemoryRateLimiter, is_rate_limited}

-- A request: its key and its time.
abbrev pub Request : Type 0
Request = Text × ℕ

-- The requests of a key in the window that ends with `now`.
unfoldable pub count : ℕ → Text → ℕ → List Request → ℕ
count window key now [] = 0
count window key now ((k, t) ∷ log) =
    let rest = count window key now log in
    if text_eq k key && ltb now (t + window) then rest + 1 else rest

-- The answers, `true` for a refusal, with a log of the allowed requests, the newest first.
unfoldable pub log_answers : ℕ → ℕ → List Request → List Request → List Bool
unfolding count
log_answers max window [] log = []
log_answers max window ((key, now) ∷ rs) log =
    let refused = leb max (count window key now log) in
    refused ∷ log_answers max window rs (if refused then log else (key, now) ∷ log)

unfoldable pub answers : List Request → InMemoryRateLimiter → List Bool
answers [] l = []
answers ((key, now) ∷ rs) l =
    let (refused, l') = is_rate_limited key now l in refused ∷ answers rs l'

-- The clock is never set back.
abbrev pub is_forward : ℕ → List Request → Bool
is_forward now [] = true
is_forward now ((k, t) ∷ rs) = leb now t && is_forward t rs

-- The log of the allowed requests after a run.
unfoldable pub log_after : ℕ → ℕ → List Request → List Request → List Request
unfolding count
log_after max window [] log = log
log_after max window ((key, now) ∷ rs) log =
    log_after max window rs (if leb max (count window key now log) then log else (key, now) ∷ log)
