-- ===== src/JoinCode.antt =====
-- portal/join_code_limit.py: the budget of wrong join codes of each client. Times are those of
-- `time.monotonic()` in whole seconds. `ip_address` stands for the function of that name of Python's
-- ipaddress module, with what is read of its result.
pub mod Budget
pub mod Capacity
mod Tests
use voxbento.Prelude.{
  ℕ, ◌+◌, ◌-◌, Bool, true, false, ◌&&◌, not, Option, none, some, List, [], ◌∷◌, Text, text_eq, leb,
  ltb, is_empty, if◌then◌else◌, length, drop, Dict, get, put, has,
}

abbrev pub join_code_rate_limit : ℕ
join_code_rate_limit = 10

abbrev pub join_code_rate_window_seconds : ℕ
join_code_rate_window_seconds = 60

abbrev pub max_clients : ℕ
max_clients = 10000

-- The wrong codes of a key since the start of its window.
pub record Attempts : Type 0 where
  pub count : ℕ
  pub start : ℕ

-- The keys in the order of their windows' starts.
abbrev pub Table : Type 0
Table = Dict Attempts

-- An address as text; for IPv6 that of the IPv4 address that it maps, and that of its /64 network.
pub data IpAddress : Type 0 where
  ipv4 : Text → IpAddress
  ipv6 : Option Text → Text → IpAddress

unfoldable pub client_key : (Text → Option IpAddress) → Text → Text
client_key ip_address client_ip = elim (ip_address client_ip) [
  | none ↦ client_ip
  | some (ipv4 address) ↦ address
  | some (ipv6 (some mapped) network) ↦ mapped
  | some (ipv6 none network) ↦ network
]

unfoldable pub purge_expired : ℕ → Table → Table
purge_expired now [] = []
purge_expired now ((k, a) ∷ table) =
    let rest = purge_expired now table in
    if ltb now (a.start + join_code_rate_window_seconds) then (k, a) ∷ table else rest

-- What `verify_join_code` returns, or that it raises `JoinCodeThrottled` with the seconds to wait.
pub data Verdict : Type 0 where
  accepted : Verdict
  rejected : Verdict
  throttled : ℕ → Verdict

abbrev at_least_one : ℕ → ℕ
at_least_one n = if leb n 0 then 1 else n

-- `max(1, math.ceil(60 - (now - start)))`
unfoldable pub retry_after : ℕ → ℕ → ℕ
retry_after now start = at_least_one (start + join_code_rate_window_seconds - now)

-- `expected and secrets.compare_digest(..)`
abbrev pub is_correct : Text → Option Text → Bool
is_correct submitted none = false
is_correct submitted (some expected) = not (is_empty expected) && text_eq submitted expected

-- `_join_code_attempts.get(key, (0, now))`
abbrev pub attempts_of : ℕ → Option Attempts → Attempts
attempts_of now none = record { count = 0; start = now }
attempts_of now (some a) = a

-- A wrong code is recorded; the oldest window makes room in a full table.
unfoldable pub record_failure : Text → Attempts → Table → Table
record_failure key a table =
    put key (record { count = a.count + 1; start = a.start })
      (if not (has key table) && leb max_clients (length table) then drop 1 table else table)

unfoldable pub verify_for_key : Text → Text → Option Text → ℕ → Table → Verdict × Table
unfolding purge_expired retry_after record_failure
verify_for_key key submitted expected now table =
    let purged = purge_expired now table in
    let a = attempts_of now (get key purged) in
    if leb join_code_rate_limit a.count
    then (throttled (retry_after now a.start), purged)
    else if is_correct submitted expected
    then (accepted, purged)
    else (rejected, record_failure key a purged)

unfoldable pub verify_join_code :
    (Text → Option IpAddress) → Text → Option Text → Option Text → ℕ → Table → Verdict × Table
unfolding client_key verify_for_key
verify_join_code ip_address client_ip none expected now table = (rejected, table)
verify_join_code ip_address client_ip (some submitted) expected now table =
    if is_empty submitted
    then (rejected, table)
    else verify_for_key (client_key ip_address client_ip) submitted expected now table
