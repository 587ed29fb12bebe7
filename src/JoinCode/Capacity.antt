-- ===== src/JoinCode/Capacity.antt =====
-- The table of the join-code budget: portal/join_code_limit.py.
use voxbento.Prelude.{
  ℕ, ◌+◌, ◌≤◌, ◌<◌, ◌≡◌, true, ◌&&◌, not, Option, none, some, Bool-cases, inl, inr, List, [], ◌∷◌,
  Text, leb, ltb, is_empty, length, length-drop, drop, get, put, has, length-put-le, All, All-put,
  arith,
}
use voxbento.JoinCode.{
  join_code_rate_limit, max_clients, Attempts, Table, IpAddress, client_key, purge_expired,
  attempts_of, is_correct, record_failure, verify_for_key, verify_join_code,
}
use voxbento.JoinCode.Budget.{Guess, verify}

-- At most 10000 keys, each with at most 10 wrong codes.
abbrev IsSpent : Text → Attempts → Type 0
IsSpent k a = a.count ≤ join_code_rate_limit

pub record IsBounded (table : Table) : Type 0 where
  pub clients : length table ≤ max_clients
  pub counts : All IsSpent table

length-put_present :
    (k : Text) (a : Attempts) (table : Table)
    → has k table ≡ true
    → length (put k a table) ≡ length table
unfolding put has
length-put_present k a [] h = absurd (cc)
length-put_present k a ((i, x) ∷ table) h = ground (arith, length-put_present k a table)

All-drop_one : (P : Text → Attempts → Type 0) (table : Table) → All P table → All P (drop 1 table)
All-drop_one P [] a = tt
All-drop_one P ((i, x) ∷ table) (y, a) = a

IsBounded-purge_expired :
    (now : ℕ) (table : Table) → IsBounded table → IsBounded (purge_expired now table)
unfolding purge_expired
IsBounded-purge_expired now [] v = v
IsBounded-purge_expired now ((k, a) ∷ table) v =
    let rest =
      IsBounded-purge_expired now table
        (record { clients = ground (arith, v.clients); counts = v.counts.1 }) in
    elim (Bool-cases (ltb now (a.start + 60))) [ inl e ↦ rw e v | inr e ↦ rw e rest ]

IsBounded-record_failure :
    (key : Text) (a : Attempts) (table : Table)
    → a.count < join_code_rate_limit
    → IsBounded table
    → IsBounded (record_failure key a table)
unfolding record_failure
IsBounded-record_failure key a table h v =
    elim (Bool-cases (not (has key table) && leb max_clients (length table))) [
      | inl e ↦ rw e (record {
        clients =
            ground (arith, length-put-le key next (drop 1 table), length-drop 1 table, v.clients);
        counts =
            All-put IsSpent key next (drop 1 table) (ground arith)
              (All-drop_one IsSpent table v.counts);
      })
      | inr e ↦ rw e (record {
        clients =
            ground
              (arith, length-put-le key next table, length-put_present key next table, v.clients);
        counts = All-put IsSpent key next table (ground arith) v.counts;
      })
    ]
  where
    next : Attempts
    next = record { count = a.count + 1; start = a.start }

IsBounded-verify_for_key :
    (key submitted : Text) (expected : Option Text) (now : ℕ) (table : Table)
    → IsBounded table
    → IsBounded (verify_for_key key submitted expected now table).1
unfolding verify_for_key
IsBounded-verify_for_key key submitted expected now table v =
    let purged = purge_expired now table in
    let w = IsBounded-purge_expired now table v in
    let a = attempts_of now (get key purged) in
    elim (Bool-cases (leb join_code_rate_limit a.count)) [
      | inl e ↦ rw e w
      | inr e ↦ elim (Bool-cases (is_correct submitted expected)) [
        | inl c ↦ rw (e, c) w
        | inr c ↦ rw (e, c) (IsBounded-record_failure key a purged (ground arith) w)
      ]
    ]

module _ (ip_address : Text → Option IpAddress) where
  unfoldable pub verify_all : List Guess → Table → Table
  verify_all [] table = table
  verify_all (g ∷ gs) table = verify_all gs (verify ip_address g table).1

  -- In every sequence of checks the table holds at most 10000 clients, of which each has at most 10
  -- wrong codes, whatever is submitted and whatever the clock does.
  pub verify_all-IsBounded :
      (gs : List Guess) (table : Table) → IsBounded table → IsBounded (verify_all gs table)
  unfolding verify_all verify verify_join_code
  verify_all-IsBounded [] table v = v
  verify_all-IsBounded (g ∷ gs) table v = verify_all-IsBounded gs _ (one g.submitted)
    where
      one :
          (s : Option Text)
          → IsBounded (verify_join_code ip_address g.client_ip s g.expected g.now table).1
      one none = v
      one (some s) = elim (Bool-cases (is_empty s)) [
        | inl e ↦ rw e v
        | inr e ↦ rw e (
            IsBounded-verify_for_key (client_key ip_address g.client_ip) s g.expected g.now table v)
      ]
