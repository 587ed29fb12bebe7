-- ===== src/Connections/Epochs.antt =====
-- The epochs of `ConnectionManager` (portal/websockets/manager.py): counters of revocations by key, of
-- which the least recently written one is dropped when there are too many.
use voxbento.Prelude.{
  ℕ, ◌≡◌, ◌+◌, ◌≤◌, ◌<◌, List, [], ◌∷◌, ◌++◌, Eq, ◌==◌, length-append, length-drop, ltb, length,
  drop, if◌then◌else◌, arith,
}

module _ {K : Type 0} ⦃e : Eq K⦄ where
  -- `epochs.get(key, 0)`
  unfoldable pub epoch_of : K → List (K × ℕ) → ℕ
  epoch_of k [] = 0
  epoch_of k ((j, n) ∷ t) = if j == k then n else epoch_of k t

  -- A dict holds a key once, and every entry with the key is dropped.
  unfoldable pub drop_key : K → List (K × ℕ) → List (K × ℕ)
  drop_key k [] = []
  drop_key k ((j, n) ∷ t) = let rest = drop_key k t in if j == k then rest else (j, n) ∷ rest

  -- One more revocation of the key, which becomes the most recently written.
  unfoldable pub bump : ℕ → K → List (K × ℕ) → List (K × ℕ)
  unfolding epoch_of drop_key
  bump max_epochs k t =
      let t' = drop_key k t ++ (k, epoch_of k t + 1) ∷ [] in
      if ltb max_epochs (length t') then drop 1 t' else t'

  length-drop_key-le : (k : K) (t : List (K × ℕ)) → length (drop_key k t) ≤ length t
  unfolding drop_key
  length-drop_key-le k [] = omega arith
  length-drop_key-le k ((j, n) ∷ t) = ground (arith, length-drop_key-le k t)

  -- A write at the end.
  epoch_of-written :
      (j k : K) (n : ℕ) (t : List (K × ℕ))
      → epoch_of k (drop_key j t ++ (j, n) ∷ []) ≡ (if j == k then n else epoch_of k t)
  unfolding epoch_of drop_key
  epoch_of-written j k n [] = ground arith
  epoch_of-written j k n ((i, m) ∷ t) =
      ground (arith, epoch_of-written j k n t, e.beq_iff i j, e.beq_iff i k, e.beq_iff j k)

  length-written-le :
      (k : K) (n : ℕ) (t : List (K × ℕ)) → length (drop_key k t ++ (k, n) ∷ []) ≤ length t + 1
  length-written-le k n t =
      omega (arith, length-append (drop_key k t) ((k, n) ∷ []), length-drop_key-le k t)

  -- A table that is not full forgets nothing.
  pub epoch_of-bump :
      (max_epochs : ℕ) (j k : K) (t : List (K × ℕ))
      → length t < max_epochs
      → epoch_of k (bump max_epochs j t) ≡ (if j == k then epoch_of j t + 1 else epoch_of k t)
  unfolding bump
  epoch_of-bump max_epochs j k t h =
      ground
        (arith, epoch_of-written j k (epoch_of j t + 1) t, length-written-le j (epoch_of j t + 1) t)

  pub length-bump-le :
      (max_epochs : ℕ) (k : K) (t : List (K × ℕ)) → length (bump max_epochs k t) ≤ length t + 1
  unfolding bump
  length-bump-le max_epochs k t = ground (
    arith,
    length-written-le k (epoch_of k t + 1) t,
    length-drop 1 (drop_key k t ++ (k, epoch_of k t + 1) ∷ []),
  )

  -- The table never holds more than `max_epochs` keys.
  pub length-bump_max :
      (max_epochs : ℕ) (k : K) (t : List (K × ℕ))
      → length t ≤ max_epochs
      → length (bump max_epochs k t) ≤ max_epochs
  unfolding bump
  length-bump_max max_epochs k t h = ground (
    arith,
    length-written-le k (epoch_of k t + 1) t,
    length-drop 1 (drop_key k t ++ (k, epoch_of k t + 1) ∷ []),
  )
