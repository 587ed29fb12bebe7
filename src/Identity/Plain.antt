-- ===== src/Identity/Plain.antt =====
-- Texts over `[a-z0-9-]`, stripping and the patterns of portal/booth_identity.py.
use mathlib.Core.List.{reverse, reverse-reverse, reverse-append, append_assoc}
use voxbento.Prelude.{
  ℕ, ◌≡◌, refl, ◌∙◌, Bool, true, false, ◌&&◌, ◌||◌, none, some, Option-cases, Bool-cases, inl, inr,
  nat_eq_iff, List, [], ◌∷◌, ◌++◌, Text, nat_eq, any, all, is_empty, lstrip_of, strip_of, strip,
  is_space, arith,
}
use voxbento.Identity.Pattern.{
  hyphen, is_digit, is_slug_char, slug_from, matches_slug, matches_language, rsplit_once, split,
}

abbrev pub is_plain : ℕ → Bool
is_plain c = is_slug_char c || nat_eq c hyphen

-- What the program relies on of `str.lower`: lower-case letters, digits and hyphens stay.
pub record LowerLaws (lower : Text → Text) : Type 0 where
  pub keeps_plain : (s : Text) → all is_plain s ≡ true → lower s ≡ s

module _ {ℓ} {A : Type ℓ} (p : A → Bool) where
  pub any-append : (xs ys : List A) → any p (xs ++ ys) ≡ (any p xs || any p ys)
  any-append [] ys = refl
  any-append (x ∷ xs) ys = ground (arith, any-append xs ys)

  pub all-append : (xs ys : List A) → all p (xs ++ ys) ≡ (all p xs && all p ys)
  all-append [] ys = refl
  all-append (x ∷ xs) ys = ground (arith, all-append xs ys)

  pub any-reverse : (xs : List A) → any p (reverse xs) ≡ any p xs
  any-reverse [] = refl
  any-reverse (x ∷ xs) =
      rw (reverse-append (x ∷ []) xs)
        (rw (any-append (reverse xs) (x ∷ [])) (ground (arith, any-reverse xs)))

lstrip_of_none : (p : ℕ → Bool) (s : Text) → any p s ≡ false → lstrip_of p s ≡ s
unfolding lstrip_of
lstrip_of_none p [] h = refl
lstrip_of_none p (c ∷ s) h = ground arith

-- Nothing is stripped from a text without the characters that are stripped.
pub strip_of_none : (p : ℕ → Bool) (s : Text) → any p s ≡ false → strip_of p s ≡ s
unfolding strip_of
strip_of_none p s h =
    rw (lstrip_of_none p s h, lstrip_of_none p (reverse s) (any-reverse p s ∙ h))
      (reverse-reverse s)

is_empty-append : (s : Text) (c : ℕ) → is_empty (s ++ c ∷ []) ≡ false
is_empty-append [] c = refl
is_empty-append (d ∷ s) c = refl

is_empty-reverse : (s : Text) → is_empty s ≡ false → is_empty (reverse s) ≡ false
is_empty-reverse [] h = cc
is_empty-reverse (c ∷ s) h = rw (reverse-append (c ∷ []) s) (is_empty-append (reverse s) c)

lstrip_of-append :
    (p : ℕ → Bool) (s t : Text)
    → is_empty s ≡ false
    → any p s ≡ false
    → lstrip_of p (s ++ t) ≡ s ++ t
unfolding lstrip_of
lstrip_of-append p [] t n h = cc
lstrip_of-append p (c ∷ s) t n h = ground arith

-- Nothing is stripped where both ends are free of the characters that are stripped.
pub strip_of_ends :
    (p : ℕ → Bool) (s m t : Text)
    → is_empty s ≡ false
    → any p s ≡ false
    → is_empty t ≡ false
    → any p t ≡ false
    → strip_of p (s ++ (m ++ t)) ≡ s ++ (m ++ t)
unfolding strip_of
strip_of_ends p s m t sn sp tn tp = rw (lstrip_of-append p s (m ++ t) sn sp) (
    rw (reverse-append s (m ++ t), reverse-append m t)
      (rw (append_assoc (reverse t) (reverse m) (reverse s)) (
        rw
          (lstrip_of-append p (reverse t) (reverse m ++ reverse s) (is_empty-reverse t tn)
            (any-reverse p t ∙ tp))
          (rw
            (
              ← append_assoc (reverse t) (reverse m) (reverse s),
              ← reverse-append m t,
              ← reverse-append s (m ++ t),
            )
            (reverse-reverse (s ++ (m ++ t)))))))

pub plain_no_space : (s : Text) → all is_plain s ≡ true → any is_space s ≡ false
plain_no_space [] h = refl
plain_no_space (c ∷ s) h = ground (arith, visible c, plain_no_space s)
  where
    visible : (c : ℕ) → is_plain c ≡ true → is_space c ≡ false
    visible c h = unfold is_space in ground arith

pub strip_plain : (s : Text) → all is_plain s ≡ true → strip s ≡ s
unfolding strip
strip_plain s h = strip_of_none is_space s (plain_no_space s h)

slug_from_plain : (b : Bool) (s : Text) → slug_from b s ≡ true → all is_plain s ≡ true
unfolding slug_from
slug_from_plain b [] h = refl
slug_from_plain b (c ∷ s) h = ground (arith, slug_from_plain (is_slug_char c) s)

pub slug_plain : (s : Text) → matches_slug s ≡ true → all is_plain s ≡ true
unfolding matches_slug
slug_plain s h = slug_from_plain false s h

pub language_plain : (s : Text) → matches_language s ≡ true → all is_plain s ≡ true
unfolding matches_language
language_plain (a ∷ b ∷ []) h = ground arith
language_plain [] h = cc
language_plain (a ∷ []) h = cc
language_plain (a ∷ b ∷ c ∷ s) h = cc

-- A character that is not plain, such as a slash, is in no plain text.
pub plain_without :
    (sep : ℕ)
    → is_plain sep ≡ false
    → (s : Text) → all is_plain s ≡ true
    → any (λ c. nat_eq c sep) s ≡ false
plain_without sep h [] k = refl
plain_without sep h (c ∷ s) k = ground (arith, plain_without sep h s)

pub digits_without :
    (sep : ℕ)
    → is_digit sep ≡ false
    → (s : Text) → all is_digit s ≡ true
    → any (λ c. nat_eq c sep) s ≡ false
digits_without sep h [] k = refl
digits_without sep h (c ∷ s) k = ground (arith, digits_without sep h s)

pub digits_plain : (s : Text) → all is_digit s ≡ true → all is_plain s ≡ true
digits_plain [] h = refl
digits_plain (c ∷ s) h = ground (arith, digits_plain s)

pub language_without : (s : Text) → matches_language s ≡ true → any (λ c. nat_eq c hyphen) s ≡ false
unfolding matches_language
language_without (a ∷ b ∷ []) h = ground arith
language_without [] h = cc
language_without (a ∷ []) h = cc
language_without (a ∷ b ∷ c ∷ s) h = cc

rsplit_once_absent :
    (sep : ℕ) (s : Text) → any (λ c. nat_eq c sep) s ≡ false → rsplit_once sep s ≡ none
unfolding rsplit_once
rsplit_once_absent sep [] h = refl
rsplit_once_absent sep (c ∷ s) h = ground (arith, rsplit_once_absent sep s)

-- The text behind the last separator is parted off.
pub rsplit_once-append :
    (sep : ℕ) (a b : Text)
    → any (λ c. nat_eq c sep) b ≡ false
    → rsplit_once sep (a ++ (sep ∷ b)) ≡ some (a, b)
unfolding rsplit_once
rsplit_once-append sep [] b h = ground (arith, rsplit_once_absent sep b)
rsplit_once-append sep (c ∷ a) b h = rw (rsplit_once-append sep a b h)

-- What was parted off joins to the whole.
pub rsplit_once_join :
    (sep : ℕ) (s : Text) {a b : Text} → rsplit_once sep s ≡ some (a, b) → s ≡ a ++ (sep ∷ b)
unfolding rsplit_once
rsplit_once_join sep [] h = cc
rsplit_once_join sep (c ∷ s) h = elim (Option-cases (rsplit_once sep s)) [
  | inl e ↦ ground (arith, nat_eq_iff c sep)
  | inr ((x, y), e) ↦ ground (arith, rsplit_once_join sep s e)
]

split_none : (sep : ℕ) (s : Text) → any (λ c. nat_eq c sep) s ≡ false → split sep s ≡ s ∷ []
unfolding split
split_none sep [] h = refl
split_none sep (c ∷ s) h = ground (arith, split_none sep s)

split_nonempty : (sep : ℕ) (s : Text) → (w : Text) × (ws : List Text) × (split sep s ≡ w ∷ ws)
unfolding split
split_nonempty sep [] = ([], [], refl)
split_nonempty sep (c ∷ s) =
    let (w, ws, e) = split_nonempty sep s in
    elim (Bool-cases (nat_eq c sep)) [
      | inl h ↦ ([], w ∷ ws, ground arith)
      | inr h ↦ (c ∷ w, ws, ground arith)
    ]

split-append :
    (sep : ℕ) (a b : Text)
    → any (λ c. nat_eq c sep) a ≡ false
    → split sep (a ++ (sep ∷ b)) ≡ a ∷ split sep b
unfolding split
split-append sep [] b h =
    let (w, ws, e) = split_nonempty sep b in ground (arith, nat_eq_iff sep sep)
split-append sep (c ∷ a) b h = ground (arith, split-append sep a b)

-- Three texts without the separator come apart again.
pub split_three :
    (sep : ℕ) (a b c : Text)
    → any (λ x. nat_eq x sep) a ≡ false
    → any (λ x. nat_eq x sep) b ≡ false
    → any (λ x. nat_eq x sep) c ≡ false
    → split sep (a ++ (sep ∷ (b ++ (sep ∷ c)))) ≡ a ∷ b ∷ c ∷ []
split_three sep a b c ha hb hc =
    rw (split-append sep a (b ++ (sep ∷ c)) ha, split-append sep b c hb, split_none sep c hc)
