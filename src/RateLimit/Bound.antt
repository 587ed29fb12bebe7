-- ===== src/RateLimit/Bound.antt =====
-- How many requests the limiter of portal/rate_limit.py lets through.
use voxbento.Prelude.{
  ℕ, ◌+◌, ◌≤◌, ◌≡◌, Bool, true, ◌&&◌, Bool-cases, inl, inr, List, [], ◌∷◌, Text, text_eq,
  text_eq_iff, leb, ltb, if◌then◌else◌, arith,
}
use voxbento.RateLimit.{InMemoryRateLimiter}
use voxbento.RateLimit.Log.{Request, count, log_answers, answers, is_forward}
use voxbento.RateLimit.Refine.{is_rate_limited-log}

-- The requests that were not refused.
unfoldable pub granted : List Request → List Bool → List Request
granted (r ∷ rs) (refused ∷ bs) = let rest = granted rs bs in if refused then rest else r ∷ rest
granted _ _ = []

-- The requests of a key in the `window` seconds from `start` on.
unfoldable pub within : ℕ → Text → ℕ → List Request → ℕ
within window key start [] = 0
within window key start ((k, t) ∷ rs) =
    let rest = within window key start rs in
    if text_eq k key && (leb start t && ltb t (start + window)) then rest + 1 else rest

within-le-count :
    (w : ℕ) (k : Text) (a t : ℕ) (log : List Request)
    → t + 1 ≤ a + w
    → within w k a log ≤ count w k t log
unfolding within count
within-le-count w k a t [] h = omega arith
within-le-count w k a t ((j, u) ∷ log) h = ground (arith, within-le-count w k a t log h)

bounded_run :
    (max w : ℕ) (k : Text) (a : ℕ) (rs log : List Request)
    → within w k a log ≤ max
    → within w k a (granted rs (log_answers max w rs log)) + within w k a log ≤ max
unfolding granted log_answers within
bounded_run max w k a [] log h = omega arith
bounded_run max w k a ((j, t) ∷ rs) log h = elim (Bool-cases (leb max (count w j t log))) [
  | inl e ↦ rw e (bounded_run max w k a rs log h)
  | inr e ↦
      let less : within w k a ((j, t) ∷ log) ≤ max =
        ground (arith, within-le-count w k a t log, text_eq_iff j k) in
      rw e (ground (arith, bounded_run max w k a rs ((j, t) ∷ log) less))
]

-- As long as the clock is never set back, a new limiter lets through at most `max_requests` requests of
-- a key in any span of `window_seconds`, whichever requests come between.
pub is_rate_limited_bound :
    (l : InMemoryRateLimiter) (rs : List Request) (key : Text) (start : ℕ)
    → is_forward 0 rs ≡ true
    → l.store.rates ≡ []
    → within l.window_seconds key start (granted rs (answers rs l)) ≤ l.max_requests
is_rate_limited_bound l rs key start f e =
    rw (is_rate_limited-log l rs f e) (
      ground
        (arith, bounded_run l.max_requests l.window_seconds key start rs [] none_yet, none_yet))
  where
    none_yet : within l.window_seconds key start [] ≤ l.max_requests
    none_yet = unfold within in omega arith
