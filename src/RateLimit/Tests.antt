-- ===== src/RateLimit/Tests.antt =====
-- Runs and witnesses for portal/rate_limit.py.
use voxbento.Prelude.{◌≤◌, ◌≡◌, refl, true, false, List, [], ◌∷◌, codes, text_eq, get, put}
use voxbento.RateLimit.{
  InMemoryRateLimiter, is_rate_limited, hit, sweep, evict_expired, is_expired, newest, recent,
  in_window,
}
use voxbento.RateLimit.Log.{Request, answers, log_answers}
use voxbento.RateLimit.Refine.{is_rate_limited-log}
use voxbento.RateLimit.Bound.{granted, within, is_rate_limited_bound}

-- Two requests in 60 seconds.
abbrev limiter : InMemoryRateLimiter
limiter = record {
  max_requests = 2;
  window_seconds = 60;
  store = record { rates = []; last_sweep = 0 };
}

abbrev requests : List Request
requests =
    (codes "a", 100)
    ∷ (codes "a", 130)
    ∷ (codes "a", 159)
    ∷ (codes "b", 159)
    ∷ (codes "a", 160)
    ∷ (codes "a", 161)
    ∷ []

-- The third request is refused, and one fits again when the first has left the window.
requests_answered : answers requests limiter ≡ false ∷ false ∷ true ∷ false ∷ false ∷ true ∷ []
unfolding answers is_rate_limited hit sweep evict_expired is_expired newest recent in_window get put
    text_eq
requests_answered = refl

is_rate_limited-log_example : answers requests limiter ≡ log_answers 2 60 requests []
is_rate_limited-log_example = is_rate_limited-log limiter requests refl refl

is_rate_limited_bound_example :
    within 60 (codes "a") 105 (granted requests (answers requests limiter)) ≤ 2
is_rate_limited_bound_example = is_rate_limited_bound limiter requests (codes "a") 105 refl refl
