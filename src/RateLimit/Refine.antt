-- ===== src/RateLimit/Refine.antt =====
-- The limiter of portal/rate_limit.py and the log that forgets nothing.
use voxbento.Prelude.{
  ℕ, ◌+◌, ◌≤◌, ◌≡◌, refl, ap, ◌∙◌, Bool, true, false, ◌&&◌, not, none, Option-cases, Bool-cases,
  inl, inr, List, [], ◌∷◌, ◌++◌, Text, text_eq, text_eq_iff, leb, ltb, if◌then◌else◌, length, Dict,
  get, put, get-put, has, has-put, All, All-put, All-get, All-mono, arith,
}
use voxbento.RateLimit.{
  Entry, Store, sweep_interval, is_expired, evict_expired, sweep, in_window, timestamps_of, recent,
  hit, InMemoryRateLimiter, is_rate_limited,
}
use voxbento.RateLimit.Window.{
  is_sorted, is_past, in_window_nil, all-snoc, in_window_later, length-in_window_snoc,
  is_sorted-filter, is_sorted-snoc, is_past_later, is_expired-in_window, all-filter,
}
use voxbento.RateLimit.Log.{Request, count, log_answers, answers, is_forward}

-- A dict has a key once.
abbrev pub is_distinct : Dict Entry → Bool
is_distinct [] = true
is_distinct ((k, e) ∷ d) = not (has k d) && is_distinct d

abbrev pub FitsEntry : ℕ → ℕ → Text → Entry → Type 0
FitsEntry w now k e =
    (e.window ≡ w) × (is_sorted e.timestamps ≡ true) × (is_past now e.timestamps ≡ true)

abbrev pub times : Text → Dict Entry → List ℕ
times k d = timestamps_of (get k d)

has-evict_expired :
    (k : Text) (d : Dict Entry) (now : ℕ) → has k d ≡ false → has k (evict_expired d now) ≡ false
unfolding evict_expired has
has-evict_expired k [] now h = refl
has-evict_expired k ((i, e) ∷ d) now h = ground (arith, has-evict_expired k d now)

is_distinct-evict_expired :
    (d : Dict Entry) (now : ℕ) → is_distinct d ≡ true → is_distinct (evict_expired d now) ≡ true
unfolding evict_expired has
is_distinct-evict_expired [] now h = refl
is_distinct-evict_expired ((i, e) ∷ d) now h =
    ground (arith, is_distinct-evict_expired d now, has-evict_expired i d now)

is_distinct-put :
    (k : Text) (e : Entry) (d : Dict Entry) → is_distinct d ≡ true → is_distinct (put k e d) ≡ true
unfolding put has
is_distinct-put k e [] h = refl
is_distinct-put k e ((i, f) ∷ d) h =
    ground (arith, is_distinct-put k e d, has-put k i e d, text_eq_iff i k, text_eq_iff k i)

get_absent : (k : Text) (d : Dict Entry) → has k d ≡ false → get k d ≡ none
unfolding get has
get_absent k [] h = refl
get_absent k ((i, e) ∷ d) h = ground (arith, get_absent k d)

-- The sweep changes no window from now on.
evict_expired-times :
    (w now n : ℕ) (k : Text) (d : Dict Entry)
    → All (FitsEntry w now) d
    → is_distinct d ≡ true
    → now ≤ n
    → in_window w n (times k (evict_expired d now)) ≡ in_window w n (times k d)
unfolding evict_expired get
evict_expired-times w now n k [] a u le = refl
evict_expired-times w now n k ((i, e) ∷ d) (f, a) u le = elim (Bool-cases (text_eq i k)) [
  | inr m ↦ ground (arith, evict_expired-times w now n k d a)
  | inl y ↦ elim (Bool-cases (is_expired now e)) [
    | inr live ↦ ground arith
    | inl x ↦
        let gone : get k (evict_expired d now) ≡ none =
          get_absent k (evict_expired d now)
            (has-evict_expired k d now (ground (arith, text_eq_iff i k))) in
        ground (arith, gone, is_expired-in_window e now n f.1 x le, in_window_nil w n)
  ]
]

-- The store `s` at the time `now`, against the log of the allowed requests.
pub record Agrees (w now : ℕ) (s : Store) (log : List Request) : Type 0 where
  pub entries : All (FitsEntry w now) s.rates
  pub distinct : is_distinct s.rates ≡ true
  pub same :
      (k : Text) (n : ℕ) → now ≤ n → length (in_window w n (times k s.rates)) ≡ count w k n log

keep_entries :
    (w m n : ℕ) → m ≤ n → (d : Dict Entry) → All (FitsEntry w m) d → All (FitsEntry w n) d
keep_entries w m n le d =
    All-mono (FitsEntry w m) (FitsEntry w n)
      (λ k e f. (f.0, f.1, is_past_later m n e.timestamps le f.2)) d

Agrees-later :
    (w m n : ℕ) (s : Store) (log : List Request) → m ≤ n → Agrees w m s log → Agrees w n s log
Agrees-later w m n s log le v = record {
  entries = keep_entries w m n le s.rates v.entries;
  distinct = v.distinct;
  same = λ k t later. v.same k t (omega arith);
}

FitsEntry-evict_expired :
    (w now : ℕ) (d : Dict Entry)
    → All (FitsEntry w now) d
    → All (FitsEntry w now) (evict_expired d now)
unfolding evict_expired
FitsEntry-evict_expired w now [] a = tt
FitsEntry-evict_expired w now ((i, e) ∷ d) (f, a) = elim (Bool-cases (is_expired now e)) [
  | inl x ↦ rw x (FitsEntry-evict_expired w now d a)
  | inr x ↦ rw x (f, FitsEntry-evict_expired w now d a)
]

evicted-Agrees :
    (w now : ℕ) (s : Store) (log : List Request) (last : ℕ)
    → Agrees w now s log
    → Agrees w now (record { rates = evict_expired s.rates now; last_sweep = last }) log
evicted-Agrees w now s log last v = record {
  entries = FitsEntry-evict_expired w now s.rates v.entries;
  distinct = is_distinct-evict_expired s.rates now v.distinct;
  same = λ k n le.
      ap length (evict_expired-times w now n k s.rates v.entries v.distinct le) ∙ v.same k n le;
}

sweep-Agrees :
    (w now : ℕ) (s : Store) (log : List Request)
    → Agrees w now s log
    → Agrees w now (sweep now s) log
unfolding sweep
sweep-Agrees w now s log v = elim (Bool-cases (leb (s.last_sweep + sweep_interval) now)) [
  | inl e ↦ rw e (evicted-Agrees w now s log now v)
  | inr e ↦ rw e v
]

module _ (w now : ℕ) (key : Text) (s : Store) (log : List Request) (v : Agrees w now s log) where
  abbrev hits : List ℕ
  hits = recent key w now s

  hits_sorted : (is_sorted hits ≡ true) × (is_past now hits ≡ true)
  unfolding recent in_window
  hits_sorted = elim (Option-cases (get key s.rates)) [
    | inl e ↦ rw e (refl, refl)
    | inr (f, e) ↦
        let fits = All-get (FitsEntry w now) key s.rates v.entries e in
        rw e (
          is_sorted-filter (λ t. ltb now (t + w)) f.timestamps fits.1,
          all-filter (λ t. leb t now) (λ t. ltb now (t + w)) f.timestamps fits.2,
        )
  ]

  hits_later : (n : ℕ) → now ≤ n → length (in_window w n hits) ≡ count w key n log
  unfolding recent
  hits_later n le = ap length (in_window_later w now n (times key s.rates) le) ∙ v.same key n le

  length-hits : length hits ≡ count w key now log
  unfolding recent
  length-hits = v.same key now (omega arith)

  refused-Agrees :
      Agrees w now
        (record s { rates = put key (record { window = w; timestamps = hits }) s.rates })
        log
  refused-Agrees = record {
    entries =
        All-put (FitsEntry w now) key _ s.rates (refl, hits_sorted.0, hits_sorted.1) v.entries;
    distinct = is_distinct-put key _ s.rates v.distinct;
    same = λ k n le. ground (
      arith,
      get-put key k (record { window = w; timestamps = hits }) s.rates,
      v.same k n le,
      hits_later n le,
      text_eq_iff key k,
    );
  }

  allowed-Agrees :
      Agrees w now
        (record s {
          rates = put key (record { window = w; timestamps = hits ++ now ∷ [] }) s.rates;
        })
        ((key, now) ∷ log)
  unfolding count
  allowed-Agrees = record {
    entries =
        All-put (FitsEntry w now) key _ s.rates
          (
            refl,
            is_sorted-snoc now hits hits_sorted.0 hits_sorted.1,
            (all-snoc (λ t. leb t now) now hits ∙ ground (arith, hits_sorted.1)),
          )
          v.entries;
    distinct = is_distinct-put key _ s.rates v.distinct;
    same = λ k n le. ground (
      arith,
      get-put key k (record { window = w; timestamps = hits ++ now ∷ [] }) s.rates,
      v.same k n le,
      hits_later n le,
      length-in_window_snoc w n now hits,
      text_eq_iff key k,
    );
  }

hit-Agrees :
    (w max last now : ℕ) (key : Text) (s : Store) (log : List Request)
    → last ≤ now
    → Agrees w last s log
    → let refused = leb max (count w key now log) in
      ((hit key max w now s).0 ≡ not refused)
      × Agrees w now (hit key max w now s).1 (if refused then log else (key, now) ∷ log)
unfolding hit
hit-Agrees w max last now key s log le v =
    let agrees = sweep-Agrees w now s log (Agrees-later w last now s log le v) in
    let same = length-hits w now key (sweep now s) log agrees in
    elim (Bool-cases (leb max (count w key now log))) [
      | inl e ↦ rw (same, e) (refl, refused-Agrees w now key (sweep now s) log agrees)
      | inr e ↦ rw (same, e) (refl, allowed-Agrees w now key (sweep now s) log agrees)
    ]

answers_agree :
    (l : InMemoryRateLimiter) (now : ℕ) (rs log : List Request)
    → is_forward now rs ≡ true
    → Agrees l.window_seconds now l.store log
    → answers rs l ≡ log_answers l.max_requests l.window_seconds rs log
unfolding answers log_answers is_rate_limited
answers_agree l now [] log f v = refl
answers_agree l now ((k, t) ∷ rs) log f v =
    let (same, next) =
      hit-Agrees l.window_seconds l.max_requests now t k l.store log (ground arith) v in
    let rest =
      answers_agree (record l { store = (hit k l.max_requests l.window_seconds t l.store).1 }) t rs
        (if leb l.max_requests (count l.window_seconds k t log) then log else (k, t) ∷ log)
        (ground arith) next in
    ground (arith, same, rest)

-- As long as the clock is never set back, a new limiter, which sweeps expired entries away every 60
-- seconds and keeps a list for each key, answers each request of a run as a log that forgets nothing
-- would: it refuses a request exactly if `max_requests` requests of its key, counted over all that were
-- allowed, are less than `window_seconds` old.
pub is_rate_limited-log :
    (l : InMemoryRateLimiter) (rs : List Request)
    → is_forward 0 rs ≡ true
    → l.store.rates ≡ []
    → answers rs l ≡ log_answers l.max_requests l.window_seconds rs []
unfolding get has in_window count
is_rate_limited-log l rs f e =
    answers_agree l 0 rs [] f
      (record { entries = rw e tt; distinct = rw e refl; same = λ k n le. rw e refl })
