-- ===== src/JoinCode/Tests.antt =====
-- Runs and witnesses for portal/join_code_limit.py, where no text is an address.
use voxbento.Prelude.{
  ℕ, ◌≡◌, ◌≤◌, ◌*◌, refl, Option, none, some, [], ◌∷◌, Text, codes, text_eq, get, has, arith,
}
use voxbento.JoinCode.{
  IpAddress, Table, join_code_rate_limit, accepted, throttled, verify_join_code, verify_for_key,
  client_key, purge_expired, retry_after,
}
use voxbento.JoinCode.Budget.{Guess, allowance, is_once, wrong_guesses, wrong_guesses_le}
use voxbento.JoinCode.Capacity.{IsBounded, verify_all, verify_all-IsBounded}

abbrev no_address : Text → Option IpAddress
no_address s = none

abbrev spent : Table
spent = (codes "host", record { count = 10; start = 100 }) ∷ []

-- Not even the right code is accepted of a throttled client; it is when the window has ended.
throttled_until :
    ((verify_join_code no_address
        (codes "host")
        (some (codes "code"))
        (some (codes "code"))
        130
        spent).0
      ≡ throttled 30)
    × ((verify_join_code no_address
          (codes "host")
          (some (codes "code"))
          (some (codes "code"))
          160
          spent).0
        ≡ accepted)
unfolding verify_join_code verify_for_key client_key purge_expired retry_after get text_eq
throttled_until = (refl, refl)

abbrev wrong : ℕ → Guess
wrong now = record {
  client_ip = codes "host";
  submitted = some (codes "x");
  expected = some (codes "code");
  now = now;
}

-- The window of `host` began at 50 and ends before the last guess.
abbrev begun : Table
begun = (codes "host", record { count = 9; start = 50 }) ∷ []

wrong_guesses_le_example :
    (wrong_guesses no_address (codes "host") (wrong 100 ∷ wrong 105 ∷ wrong 110 ∷ []) begun
      ≤ allowance 100 (get (codes "host") begun))
    × (get (codes "host") begun ≡ none
        → wrong_guesses no_address (codes "host") (wrong 100 ∷ wrong 105 ∷ wrong 110 ∷ []) begun
          ≤ join_code_rate_limit)
    × (wrong_guesses no_address (codes "host") (wrong 100 ∷ wrong 105 ∷ wrong 110 ∷ []) begun
        ≤ 2 * join_code_rate_limit)
unfolding is_once has text_eq
wrong_guesses_le_example =
    wrong_guesses_le no_address 100 (codes "host") (wrong 100 ∷ wrong 105 ∷ wrong 110 ∷ []) begun
      (omega arith, omega arith, (omega arith, omega arith, (omega arith, omega arith, tt))) refl
      (omega arith)

verify_all-IsBounded_example : IsBounded (verify_all no_address (wrong 120 ∷ wrong 130 ∷ []) spent)
verify_all-IsBounded_example =
    verify_all-IsBounded no_address (wrong 120 ∷ wrong 130 ∷ []) spent
      (record { clients = omega arith; counts = (omega arith, tt) })
