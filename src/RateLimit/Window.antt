-- ===== src/RateLimit/Window.antt =====
-- The stores of portal/rate_limit.py against a log of the allowed requests that forgets nothing.
use voxbento.Prelude.{
  ℕ, ◌+◌, ◌≤◌, ◌≡◌, refl, Bool, true, ◌&&◌, none, some, Option-cases, inl, inr, List, [], ◌∷◌, ◌++◌,
  leb, ltb, if◌then◌else◌, length, all, filter, arith,
}
use voxbento.RateLimit.{Entry, newest, is_expired, in_window}

-- Times in the order in which they were added.
abbrev pub is_sorted : List ℕ → Bool
is_sorted [] = true
is_sorted (t ∷ ts) = all (leb t) ts && is_sorted ts

abbrev pub is_past : ℕ → List ℕ → Bool
is_past now = all (λ t. leb t now)

pub all-filter : (p q : ℕ → Bool) (ts : List ℕ) → all p ts ≡ true → all p (filter q ts) ≡ true
all-filter p q [] h = refl
all-filter p q (t ∷ ts) h = ground (arith, all-filter p q ts)

pub is_sorted-filter :
    (q : ℕ → Bool) (ts : List ℕ) → is_sorted ts ≡ true → is_sorted (filter q ts) ≡ true
is_sorted-filter q [] h = refl
is_sorted-filter q (t ∷ ts) h = ground (arith, is_sorted-filter q ts, all-filter (leb t) q ts)

pub all-snoc : (p : ℕ → Bool) (n : ℕ) (ts : List ℕ) → all p (ts ++ n ∷ []) ≡ (all p ts && p n)
all-snoc p n [] = ground arith
all-snoc p n (t ∷ ts) = ground (arith, all-snoc p n ts)

pub is_sorted-snoc :
    (n : ℕ) (ts : List ℕ)
    → is_sorted ts ≡ true
    → is_past n ts ≡ true
    → is_sorted (ts ++ n ∷ []) ≡ true
is_sorted-snoc n [] h p = refl
is_sorted-snoc n (t ∷ ts) h p = ground (arith, is_sorted-snoc n ts, all-snoc (leb t) n ts)

pub is_past_later : (m n : ℕ) (ts : List ℕ) → m ≤ n → is_past m ts ≡ true → is_past n ts ≡ true
is_past_later m n [] le h = refl
is_past_later m n (t ∷ ts) le h = ground (arith, is_past_later m n ts le)

pub in_window_nil : (w n : ℕ) → in_window w n [] ≡ []
unfolding in_window
in_window_nil w n = refl

-- A window ends before a later one.
pub in_window_later :
    (w m n : ℕ) (ts : List ℕ) → m ≤ n → in_window w n (in_window w m ts) ≡ in_window w n ts
unfolding in_window
in_window_later w m n [] le = refl
in_window_later w m n (t ∷ ts) le = ground (arith, in_window_later w m n ts le)

pub length-in_window_snoc :
    (w n t : ℕ) (ts : List ℕ)
    → length (in_window w n (ts ++ t ∷ []))
      ≡ length (in_window w n ts) + (if ltb n (t + w) then 1 else 0)
unfolding in_window
length-in_window_snoc w n t [] = ground arith
length-in_window_snoc w n t (u ∷ ts) = ground (arith, length-in_window_snoc w n t ts)

-- The newest time is behind no other.
newest-is_past :
    (ts : List ℕ) (t : ℕ) → is_sorted ts ≡ true → newest ts ≡ some t → is_past t ts ≡ true
unfolding newest
newest-is_past [] t h e = refl
newest-is_past (u ∷ []) t h e = ground arith
newest-is_past (u ∷ v ∷ ts) t h e = ground (arith, newest-is_past (v ∷ ts) t)

past_window : (w n t : ℕ) (ts : List ℕ) → w + t ≤ n → is_past t ts ≡ true → in_window w n ts ≡ []
unfolding in_window
past_window w n t [] le h = refl
past_window w n t (u ∷ ts) le h = ground (arith, past_window w n t ts le)

newest_absent : (ts : List ℕ) → newest ts ≡ none → ts ≡ []
unfolding newest
newest_absent [] e = refl
newest_absent (u ∷ []) e = absurd (cc)
newest_absent (u ∷ v ∷ ts) e = absurd (nonempty v ts e)
  where
    nonempty : (v : ℕ) (ts : List ℕ) → newest (v ∷ ts) ≡ none → ⊥
    nonempty v [] e = cc
    nonempty v (u ∷ ts) e = nonempty u ts e

-- An entry that is swept away would have had no time in any window from now on.
pub is_expired-in_window :
    (e : Entry) (now n : ℕ)
    → is_sorted e.timestamps ≡ true
    → is_expired now e ≡ true
    → now ≤ n
    → in_window e.window n e.timestamps ≡ []
unfolding is_expired
is_expired-in_window e now n s x le = elim (Option-cases (newest e.timestamps)) [
  | inl h ↦ rw (newest_absent e.timestamps h) (in_window_nil e.window n)
  | inr (t, h) ↦
      past_window e.window n t e.timestamps (ground arith) (newest-is_past e.timestamps t s h)
]
