-- ===== src/JoinCode/Budget.antt =====
-- How many wrong join codes a client may try: portal/join_code_limit.py.
use voxbento.Prelude.{
  ℕ, ◌+◌, ◌-◌, ◌*◌, ◌≤◌, ◌<◌, ◌≡◌, refl, ap, Bool, true, false, ◌&&◌, not, Option, none, some,
  Option-cases, Bool-cases, inl, inr, List, [], ◌∷◌, Text, text_eq, text_eq_iff, leb, is_empty,
  if◌then◌else◌, length, put, has-put, get, get-put, has, length-put-le, arith,
}
use voxbento.JoinCode.{
  join_code_rate_limit, join_code_rate_window_seconds, max_clients, Attempts, Table, IpAddress,
  client_key, purge_expired, Verdict, rejected, is_correct, attempts_of, record_failure,
  verify_for_key, verify_join_code,
}

-- A code that a client submits, and the one that is expected of it.
pub record Guess : Type 0 where
  pub client_ip : Text
  pub submitted : Option Text
  pub expected : Option Text
  pub now : ℕ

abbrev pub is_rejected : Verdict → Bool
is_rejected rejected = true
is_rejected _ = false

-- A submitted code that is not empty is a guess; without one nothing is compared.
abbrev pub is_guess : Option Text → Bool
is_guess none = false
is_guess (some s) = not (is_empty s)

abbrev pub Within : ℕ → List Guess → Type 0
Within t [] = Unit
Within t (g ∷ gs) = (t ≤ g.now) × (g.now < t + join_code_rate_window_seconds) × Within t gs

-- How many more wrong codes of a key may be compared before a minute from `t` on is over: what its window
-- has left, and a whole budget more if the window began before `t`, as it ends within the minute.
abbrev pub allowance : ℕ → Option Attempts → ℕ
allowance t none = join_code_rate_limit
allowance t (some a) =
    (join_code_rate_limit - a.count) + (if leb t a.start then 0 else join_code_rate_limit)

-- The key is in the table once, if at all.
unfoldable pub is_once : Text → Table → Bool
is_once key [] = true
is_once key ((k, a) ∷ table) = if text_eq k key then not (has key table) else is_once key table

get_missing : (key : Text) (table : Table) → has key table ≡ false → get key table ≡ none
unfolding get has
get_missing key [] h = refl
get_missing key ((k, a) ∷ table) h = ground (arith, get_missing key table)

has-purge_expired :
    (key : Text) (now : ℕ) (table : Table)
    → has key table ≡ false
    → has key (purge_expired now table) ≡ false
unfolding purge_expired has
has-purge_expired key now [] h = refl
has-purge_expired key now ((k, a) ∷ table) h = ground (arith, has-purge_expired key now table)

is_once_missing : (key : Text) (table : Table) → has key table ≡ false → is_once key table ≡ true
unfolding is_once has
is_once_missing key [] h = refl
is_once_missing key ((k, a) ∷ table) h = ground (arith, is_once_missing key table)

is_once-put :
    (key k : Text) (a : Attempts) (table : Table)
    → is_once key table ≡ true
    → is_once key (put k a table) ≡ true
unfolding is_once put has
is_once-put key k a [] h = ground arith
is_once-put key k a ((j, x) ∷ table) h = ground (
  arith,
  text_eq_iff j k,
  text_eq_iff k key,
  text_eq_iff j key,
  has-put k key a table,
  is_once-put key k a table,
)

is_once-purge_expired :
    (key : Text) (now : ℕ) (table : Table)
    → is_once key table ≡ true
    → is_once key (purge_expired now table) ≡ true
unfolding is_once purge_expired
is_once-purge_expired key now [] h = refl
is_once-purge_expired key now ((k, a) ∷ table) h = ground (
  arith,
  is_once-purge_expired key now table,
  has-purge_expired key now table,
  is_once_missing key (purge_expired now table),
)

length-purge_expired-le :
    (now : ℕ) (table : Table) → length (purge_expired now table) ≤ length table
unfolding purge_expired
length-purge_expired-le now [] = omega arith
length-purge_expired-le now ((k, a) ∷ table) = ground (arith, length-purge_expired-le now table)

-- Before a minute from `t` on is over, purging adds nothing to what a key has left.
allowance-purge_expired-le :
    (t now : ℕ) (key : Text) (table : Table)
    → now < t + join_code_rate_window_seconds
    → is_once key table ≡ true
    → allowance t (get key (purge_expired now table)) ≤ allowance t (get key table)
unfolding is_once purge_expired get
allowance-purge_expired-le t now key [] late once = omega arith
allowance-purge_expired-le t now key ((k, a) ∷ table) late once = ground (
  arith,
  allowance-purge_expired-le t now key table late,
  has-purge_expired key now table,
  get_missing key (purge_expired now table),
)

module _ (ip_address : Text → Option IpAddress) where
  unfoldable pub verify : Guess → Table → Verdict × Table
  verify g table = verify_join_code ip_address g.client_ip g.submitted g.expected g.now table

  -- The guesses of a key that are compared and found wrong.
  unfoldable pub wrong_guesses : Text → List Guess → Table → ℕ
  unfolding verify
  wrong_guesses key [] table = 0
  wrong_guesses key (g ∷ gs) table =
      let (v, table') = verify g table in
      let rest = wrong_guesses key gs table' in
      if text_eq (client_key ip_address g.client_ip) key && (is_guess g.submitted && is_rejected v)
      then rest + 1
      else rest

-- What one check does to a table that has room, before a minute from `t` on is over.
module _ (t now : ℕ) (k submitted : Text) (expected : Option Text) (table : Table) (key : Text)
    (early : t ≤ now) (late : now < t + join_code_rate_window_seconds)
    (room : length table < max_clients) (once : is_once key table ≡ true) where
  abbrev after_check : Verdict × Table
  after_check = verify_for_key k submitted expected now table

  abbrev purged : Table
  purged = purge_expired now table

  abbrev counted : Attempts
  counted = record {
    count = (attempts_of now (get k purged)).count + 1;
    start = (attempts_of now (get k purged)).start;
  }

  full : (not (has k purged) && leb max_clients (length purged)) ≡ false
  full = ground (arith, length-purge_expired-le now table)

  checked_length : length after_check.1 ≤ length table + 1
  unfolding verify_for_key record_failure
  checked_length =
      ground (arith, full, length-purge_expired-le now table, length-put-le k counted purged)

  checked_once : is_once key after_check.1 ≡ true
  unfolding verify_for_key record_failure
  checked_once =
      ground
        (arith, full, is_once-purge_expired key now table once, is_once-put key k counted purged)

  -- A wrong code that is compared is taken off what its key has left.
  spent_le :
      (o : Option Attempts)
      → leb join_code_rate_limit (attempts_of now o).count ≡ false
      → allowance t (
            some
              (record { count = (attempts_of now o).count + 1; start = (attempts_of now o).start }))
          + 1
        ≤ allowance t o
  spent_le none below = ground arith
  spent_le (some a) below = ground arith

  checked_allowance :
      allowance t (get key after_check.1)
        + (if text_eq k key && is_rejected after_check.0 then 1 else 0)
      ≤ allowance t (get key table)
  unfolding verify_for_key record_failure
  checked_allowance =
      let less = allowance-purge_expired-le t now key table late once in
      elim (Bool-cases (leb join_code_rate_limit (attempts_of now (get k purged)).count)) [
        | inl e ↦ rw e (ground (arith, less))
        | inr e ↦ elim (Bool-cases (is_correct submitted expected)) [
          | inl c ↦ rw (e, c) (ground (arith, less))
          | inr c ↦ elim (Bool-cases (text_eq k key)) [
            | inr n ↦ rw (e, c, full, get-put k key counted purged, n) (ground (arith, less))
            | inl y ↦
                let same : get k purged ≡ get key purged =
                  ap (λ j. get j purged) ((text_eq_iff k key).0 y) in
                let spent = spent_le (get k purged) e in
                let bounded : allowance t (some counted) + 1 ≤ allowance t (get key table) =
                  omega (arith, spent, less, ap (allowance t) same) in
                rw (e, c, full, get-put k key counted purged, y) bounded
          ]
        ]
      ]

module _ (ip_address : Text → Option IpAddress) where
  budget_left :
      (t : ℕ) (key : Text) (gs : List Guess) (table : Table)
      → Within t gs
      → is_once key table ≡ true
      → length table + length gs ≤ max_clients
      → wrong_guesses ip_address key gs table ≤ allowance t (get key table)
  unfolding wrong_guesses verify_join_code verify
  budget_left t key [] table w once room = omega arith
  budget_left t key (g ∷ gs) table w once room = elim (Option-cases g.submitted) [
    | inl e ↦ rw e (ground (arith, budget_left t key gs table w.2 once (omega arith)))
    | inr (s, e) ↦ elim (Bool-cases (is_empty s)) [
      | inl x ↦ rw (e, x) (ground (arith, budget_left t key gs table w.2 once (omega arith)))
      | inr x ↦
          let k = client_key ip_address g.client_ip in
          let free : length table < max_clients = omega arith in
          let longer = checked_length t g.now k s g.expected table key w.0 w.1 free once in
          let next =
            budget_left t key gs (verify_for_key k s g.expected g.now table).1 w.2
              (checked_once t g.now k s g.expected table key w.0 w.1 free once)
              (ground (arith, longer)) in
          rw (e, x)
            (ground
              (arith, next, checked_allowance t g.now k s g.expected table key w.0 w.1 free once))
    ]
  ]

  -- Whatever the table holds, as long as it has the key at most once, as a
  -- dict has, and room for the guesses of one minute: of these, no more
  -- wrong ones of a key are compared than its window has left of 10, and 10 more if the window began
  -- before the minute and so can end in it. That is at most 10 for a key without a window, and at most 20
  -- in any minute. A client that moves between addresses of one key gains nothing.
  pub wrong_guesses_le :
      (t : ℕ) (key : Text) (gs : List Guess) (table : Table)
      → Within t gs
      → is_once key table ≡ true
      → length table + length gs ≤ max_clients
      → (wrong_guesses ip_address key gs table ≤ allowance t (get key table))
        × (get key table ≡ none → wrong_guesses ip_address key gs table ≤ join_code_rate_limit)
        × (wrong_guesses ip_address key gs table ≤ 2 * join_code_rate_limit)
  wrong_guesses_le t key gs table w once room =
      let left = budget_left t key gs table w once room in
      (left, λ e. ground (arith, left, e), ground (arith, left, Option-cases (get key table)))
