-- ===== src/Prelude/Maps.antt =====
-- Python's `dict` with text keys, in insertion order: a write to a key that is there keeps its place.
use Prim.Native.Nat.{◌+◌, ◌≤◌}
use mathlib.Core.Path.{◌≡◌, refl, sym, subst}
use mathlib.Core.Logic.{inl, inr}
use mathlib.Core.Bool.{Bool, true, false, not, ◌&&◌, ◌||◌}
use mathlib.Core.List.{List, [], ◌∷◌}
use mathlib.Core.Option.{Option, none, some}
use native.Mathlib.Omega.{arith}
use voxbento.Prelude.Tests.{if◌then◌else◌, Bool-cases}
use voxbento.Prelude.Lists.{length}
use voxbento.Prelude.Texts.{Text, text_eq, text_eq_iff}

abbrev pub Dict {ℓ} : Type ℓ → Type ℓ
Dict V = List (Text × V)

module _ {ℓ} {V : Type ℓ} where
  -- `d.get(k)`
  unfoldable pub get : Text → Dict V → Option V
  get k [] = none
  get k ((j, v) ∷ d) = if text_eq j k then some v else get k d

  -- `d[k] = v`
  unfoldable pub put : Text → V → Dict V → Dict V
  put k v [] = (k, v) ∷ []
  put k v ((j, w) ∷ d) = if text_eq j k then (j, v) ∷ d else (j, w) ∷ put k v d

  -- `d.pop(k, None)`; a dict holds a key once, and every entry with the key is dropped
  unfoldable pub remove : Text → Dict V → Dict V
  remove k [] = []
  remove k ((j, w) ∷ d) = let rest = remove k d in if text_eq j k then rest else (j, w) ∷ rest

  pub get-put :
      (k j : Text) (v : V) (d : Dict V)
      → get j (put k v d) ≡ (if text_eq k j then some v else get j d)
  unfolding get put
  get-put k j v [] = refl
  get-put k j v ((i, w) ∷ d) =
      ground (arith, text_eq_iff k j, text_eq_iff i k, text_eq_iff i j, get-put k j v d)

  pub get-remove :
      (k j : Text) (d : Dict V) → get j (remove k d) ≡ (if text_eq k j then none else get j d)
  unfolding get remove
  get-remove k j [] = ground arith
  get-remove k j ((i, w) ∷ d) =
      ground (arith, text_eq_iff k j, text_eq_iff i k, text_eq_iff i j, get-remove k j d)

  pub length-put-le : (k : Text) (v : V) (d : Dict V) → length (put k v d) ≤ length d + 1
  unfolding put
  length-put-le k v [] = omega arith
  length-put-le k v ((i, w) ∷ d) = ground (arith, length-put-le k v d)

module _ {ℓ} {V : Type ℓ} where
  -- `list(d.values())`
  abbrev pub values : Dict V → List V
  values [] = []
  values ((k, v) ∷ d) = v ∷ values d

  -- `k in d`
  unfoldable pub has : Text → Dict V → Bool
  has k [] = false
  has k ((j, v) ∷ d) = text_eq j k || has k d

  -- `for v in d.values(): v = f(v)`
  abbrev pub map_values : (V → V) → Dict V → Dict V
  map_values f [] = []
  map_values f ((k, v) ∷ d) = (k, f v) ∷ map_values f d

  pub has-put : (k j : Text) (v : V) (d : Dict V) → has j (put k v d) ≡ (text_eq k j || has j d)
  unfolding has put
  has-put k j v [] = refl
  has-put k j v ((i, w) ∷ d) =
      ground (arith, text_eq_iff k j, text_eq_iff i k, text_eq_iff i j, has-put k j v d)

  pub has-remove : (k j : Text) (d : Dict V) → has j (remove k d) ≡ (not (text_eq k j) && has j d)
  unfolding has remove
  has-remove k j [] = ground arith
  has-remove k j ((i, w) ∷ d) =
      ground (arith, text_eq_iff k j, text_eq_iff i k, text_eq_iff i j, has-remove k j d)

  pub has-map_values : (f : V → V) (j : Text) (d : Dict V) → has j (map_values f d) ≡ has j d
  unfolding has
  has-map_values f j [] = refl
  has-map_values f j ((i, w) ∷ d) = ground (arith, has-map_values f j d)

  pub get_of_has : (k : Text) (d : Dict V) → has k d ≡ true → (v : V) × (get k d ≡ some v)
  unfolding has get
  get_of_has k [] h = absurd_of h
    where
      absurd_of : false ≡ true → (v : V) × (none ≡ some v)
      absurd_of h = cc
  get_of_has k ((i, w) ∷ d) h = elim (Bool-cases (text_eq i k)) [
    | inl e ↦ (w, rw e)
    | inr e ↦ let (v, f) = get_of_has k d (ground arith) in (v, rw e f)
  ]

  pub has_of_get : (k : Text) (d : Dict V) (v : V) → get k d ≡ some v → has k d ≡ true
  unfolding has get
  has_of_get k [] v h = cc
  has_of_get k ((i, w) ∷ d) v h = elim (Bool-cases (text_eq i k)) [
    | inl e ↦ rw e
    | inr e ↦ rw e (has_of_get k d v (ground arith))
  ]

  pub get-map_values :
      (f : V → V) (k : Text) (d : Dict V)
      → get k (map_values f d) ≡ elim (get k d) [ none ↦ none | some v ↦ some (f v) ]
  unfolding get
  get-map_values f k [] = refl
  get-map_values f k ((i, w) ∷ d) = ground (arith, get-map_values f k d)

-- A property of every entry.
abbrev pub All {ℓ κ} : {V : Type ℓ} → (Text → V → Type κ) → Dict V → Type κ
All P [] = Unit
All P ((k, v) ∷ d) = P k v × All P d

module _ {ℓ κ} {V : Type ℓ} (P : Text → V → Type κ) where
  pub All-put : (k : Text) (v : V) (d : Dict V) → P k v → All P d → All P (put k v d)
  unfolding put
  All-put k v [] h a = (h, tt)
  All-put k v ((i, w) ∷ d) h (x, a) = elim (Bool-cases (text_eq i k)) [
    | inl e ↦ rw e (subst (λ j. P j v) (sym ((text_eq_iff i k).0 e)) h, a)
    | inr e ↦ rw e (x, All-put k v d h a)
  ]

  -- What is left after a removal has another key.
  pub All-remove :
      (k : Text) (d : Dict V) → All P d → All (λ j v. P j v × (text_eq j k ≡ false)) (remove k d)
  unfolding remove
  All-remove k [] a = tt
  All-remove k ((i, w) ∷ d) (x, a) = elim (Bool-cases (text_eq i k)) [
    | inl e ↦ rw e (All-remove k d a)
    | inr e ↦ rw e ((x, e), All-remove k d a)
  ]

  pub All-get : (k : Text) (d : Dict V) {v : V} → All P d → get k d ≡ some v → P k v
  unfolding get
  All-get k [] a h = cc
  All-get k ((i, w) ∷ d) (x, a) h = elim (Bool-cases (text_eq i k)) [
    | inl e ↦ subst (P k) (ground arith) (subst (λ j. P j w) ((text_eq_iff i k).0 e) x)
    | inr e ↦ All-get k d a (ground arith)
  ]

module _ {ℓ κ} {V : Type ℓ} (P Q : Text → V → Type κ) where
  pub All-map_values :
      (f : V → V)
      → ((k : Text) (v : V) → P k v → Q k (f v))
      → (d : Dict V) → All P d
      → All Q (map_values f d)
  All-map_values f h [] a = tt
  All-map_values f h ((i, w) ∷ d) (x, a) = (h i w x, All-map_values f h d a)

  pub All-mono : ((k : Text) (v : V) → P k v → Q k v) → (d : Dict V) → All P d → All Q d
  All-mono h [] a = tt
  All-mono h ((i, w) ∷ d) (x, a) = (h i w x, All-mono h d a)
