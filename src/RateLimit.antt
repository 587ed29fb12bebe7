-- ===== src/RateLimit.antt =====
-- portal/rate_limit.py: the sliding windows of `check_rate_limit` and of `InMemoryRateLimiter`. Times
-- and windows are whole numbers of seconds, the code's are floats; a call gets the `time.time()` that it
-- reads. Differences of times are written as sums, since a clock may be set back.
pub mod Window
pub mod Log
pub mod Refine
pub mod Bound
mod Tests
use voxbento.Prelude.{
  ℕ, ◌+◌, Bool, true, false, ◌||◌, not, Option, none, some, List, [], ◌∷◌, ◌++◌, Text, codes, leb,
  ltb, is_empty, if◌then◌else◌, length, filter, Dict, get, put,
}

-- The window of a key and its timestamps, the newest last.
pub record Entry : Type 0 where
  pub window : ℕ
  pub timestamps : List ℕ

pub record Store : Type 0 where
  pub rates : Dict Entry
  pub last_sweep : ℕ

abbrev pub sweep_interval : ℕ
sweep_interval = 60

unfoldable pub newest : List ℕ → Option ℕ
newest [] = none
newest (t ∷ []) = some t
newest (t ∷ u ∷ ts) = newest (u ∷ ts)

-- `not timestamps or now - timestamps[-1] >= window`
unfoldable pub is_expired : ℕ → Entry → Bool
unfolding newest
is_expired now e = elim (newest e.timestamps) [ none ↦ true | some t ↦ leb (e.window + t) now ]

-- The keys of a dict are different, so deleting a key deletes its entry.
unfoldable pub evict_expired : Dict Entry → ℕ → Dict Entry
unfolding is_expired
evict_expired store now = filter (λ k. not (is_expired now k.1)) store

unfoldable pub sweep : ℕ → Store → Store
unfolding evict_expired
sweep now s =
    if leb (s.last_sweep + sweep_interval) now
    then record { rates = evict_expired s.rates now; last_sweep = now }
    else s

-- `ts > now - window_seconds`
unfoldable pub in_window : ℕ → ℕ → List ℕ → List ℕ
in_window window now = filter (λ t. ltb now (t + window))

abbrev pub timestamps_of : Option Entry → List ℕ
timestamps_of none = []
timestamps_of (some e) = e.timestamps

-- The hits of a key that are inside the window.
unfoldable pub recent : Text → ℕ → ℕ → Store → List ℕ
unfolding in_window
recent key window now s = in_window window now (timestamps_of (get key s.rates))

-- A request of a key: whether it is allowed, and the store after it.
unfoldable pub hit : Text → ℕ → ℕ → ℕ → Store → Bool × Store
hit key max_requests window now s =
    let swept = sweep now s in
    let timestamps = recent key window now swept in
    if leb max_requests (length timestamps)
    then (
      false,
      record swept {
        rates = put key (record { window = window; timestamps = timestamps }) swept.rates;
      },
    )
    else (
      true,
      record swept {
        rates =
            put key (record { window = window; timestamps = timestamps ++ now ∷ [] }) swept.rates;
      },
    )

-- `check_rate_limit` returns whether the request is allowed.
unfoldable pub check_rate_limit : Text → Text → ℕ → ℕ → ℕ → Store → Bool × Store
unfolding hit
check_rate_limit action identifier max_requests window now s =
    hit (action ++ (b':' ∷ identifier)) max_requests window now s

pub record InMemoryRateLimiter : Type 0 where
  pub max_requests : ℕ
  pub window_seconds : ℕ
  pub store : Store

-- `is_rate_limited` returns whether the request is refused.
unfoldable pub is_rate_limited : Text → ℕ → InMemoryRateLimiter → Bool × InMemoryRateLimiter
unfolding hit
is_rate_limited key now l =
    let (allowed, s) = hit key l.max_requests l.window_seconds now l.store in
    (not allowed, record l { store = s })

unfoldable pub cleanup : ℕ → InMemoryRateLimiter → InMemoryRateLimiter
unfolding evict_expired
cleanup now l = record l {
  store = record { rates = evict_expired l.store.rates now; last_sweep = now };
}
