-- ===== src/Identity/Normal.antt =====
-- What the validation of portal/booth_identity.py returns, and validating that again.
use voxbento.Prelude.{
  ◌≡◌, ◌≤◌, Bool, true, false, ◌&&◌, ◌||◌, Text, codes, text_eq, text_eq_iff, all, is_empty, length,
  strip, ok, arith,
}
use voxbento.Identity.Pattern.{matches_slug, matches_language}
use voxbento.Identity.Languages.{is_iso_639_1}
use voxbento.Identity.Plain.{LowerLaws, is_plain, strip_plain, slug_plain, language_plain}
use voxbento.Identity.{event_slug_max_length, validate_event_slug, validate_language_code}

-- A slug that the validation returns.
pub record IsSlug (s : Text) : Type 0 where
  pub nonempty : is_empty s ≡ false
  pub short : length s ≤ event_slug_max_length
  pub matched : matches_slug s ≡ true

-- A language code that the validation returns.
abbrev pub is_language : Text → Bool
is_language c = text_eq c (codes "floor") || (matches_language c && is_iso_639_1 c)

pub is_language_plain : (c : Text) → is_language c ≡ true → all is_plain c ≡ true
is_language_plain c h = ground (arith, text_eq_iff c (codes "floor"), language_plain c)

module _ (lower : Text → Text) where
  -- An accepted event slug is not empty, has at most 64 characters and is made of groups of
  -- `[a-z0-9]` joined by single hyphens.
  pub validate_event_slug-IsSlug :
      (s : Text) {t : Text} → validate_event_slug lower s ≡ ok t → IsSlug t
  unfolding validate_event_slug
  validate_event_slug-IsSlug s h = ground arith

  pub validate_language_code-is_language :
      (c : Text) {d : Text} → validate_language_code lower c ≡ ok d → is_language d ≡ true
  unfolding validate_language_code
  validate_language_code-is_language c h = ground arith

module _ (lower : Text → Text) (laws : LowerLaws lower) where
  pub normal_plain : (s : Text) → all is_plain s ≡ true → lower (strip s) ≡ s
  normal_plain s h = rw (strip_plain s h) (laws.keeps_plain s h)

  pub validate_event_slug_normal : (s : Text) → IsSlug s → validate_event_slug lower s ≡ ok s
  unfolding validate_event_slug
  validate_event_slug_normal s v = ground (arith, normal_plain s (slug_plain s v.matched), v)

  pub validate_language_code_normal :
      (c : Text) → is_language c ≡ true → validate_language_code lower c ≡ ok c
  unfolding validate_language_code
  validate_language_code_normal c h = ground (arith, normal_plain c (is_language_plain c h))
