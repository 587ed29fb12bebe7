-- ===== src/Hosting/Form.antt =====
-- What a form without errors gives: portal/hosting_requests.py.
use voxbento.Prelude.{
  ℕ, ◌≤◌, ◌≡◌, refl, Bool, false, Option, none, some, [], ◌∷◌, Text, is_empty, strip, strip_of,
  lstrip_of, any, length, arith, ◌∙◌,
}
use voxbento.Identity.Plain.{any-reverse}
use mathlib.Core.List.{reverse}
use voxbento.Hosting.{
  HostingForm, FormErrors, organization_max, event_name_max, languages_max, message_max, is_break,
  collapse_breaks, single_line, ends_before, required, is_none, parse_hosting_request_form,
}

any-lstrip_of : (p q : ℕ → Bool) (s : Text) → any p s ≡ false → any p (lstrip_of q s) ≡ false
unfolding lstrip_of
any-lstrip_of p q [] h = refl
any-lstrip_of p q (c ∷ s) h = ground (arith, any-lstrip_of p q s)

any-strip : (p : ℕ → Bool) (s : Text) → any p s ≡ false → any p (strip s) ≡ false
unfolding strip strip_of
any-strip p s h =
    any-reverse p (lstrip_of _ (reverse (lstrip_of _ s)))
    ∙ any-lstrip_of p _ (reverse (lstrip_of _ s))
        (any-reverse p (lstrip_of _ s) ∙ any-lstrip_of p _ s h)

any-collapse_breaks : (s : Text) → any is_break (collapse_breaks s) ≡ false
unfolding collapse_breaks
any-collapse_breaks [] = refl
any-collapse_breaks (c ∷ s) = ground (arith, any-collapse_breaks s)

any-single_line : (v : Option Text) → any is_break (single_line v) ≡ false
unfolding single_line
any-single_line none = refl
any-single_line (some s) = any-strip is_break (collapse_breaks s) (any-collapse_breaks s)

-- No field has an error.
pub record NoErrors (e : FormErrors) : Type 0 where
  pub organization : e.organization ≡ none
  pub event_name : e.event_name ≡ none
  pub languages : e.languages ≡ none
  pub message : e.message ≡ none
  pub event_starts_on : e.event_starts_on ≡ none
  pub event_ends_on : e.event_ends_on ≡ none

-- A text on one line, which is there and within its limit.
pub record IsLine (most : ℕ) (s : Text) : Type 0 where
  pub given : is_empty s ≡ false
  pub short : length s ≤ most
  pub one_line : any is_break s ≡ false

required_ok :
    (most : ℕ) (missing : _) (v : Option Text)
    → required (single_line v) most missing ≡ none
    → IsLine most (single_line v)
required_ok most missing v h = record {
  given = ground arith;
  short = ground arith;
  one_line = any-single_line v;
}

-- A form without errors has an organization, an event name and languages, each on one line and within
-- its limit, a message of at most 2000 characters, and no end before its start; a date that was written
-- was also read.
pub parse_hosting_request_form_ok :
    (from_iso : Text → Option ℕ) (form : HostingForm)
    → NoErrors (parse_hosting_request_form from_iso form).1
    → let input = (parse_hosting_request_form from_iso form).0 in
      IsLine organization_max input.organization
      × IsLine event_name_max input.event_name
      × IsLine languages_max input.languages
      × (length input.message ≤ message_max)
      × (ends_before input.event_starts_on input.event_ends_on ≡ false)
      × (is_empty (single_line form.event_starts_on) ≡ false
          → is_none input.event_starts_on ≡ false)
      × (is_empty (single_line form.event_ends_on) ≡ false → is_none input.event_ends_on ≡ false)
unfolding parse_hosting_request_form
parse_hosting_request_form_ok from_iso form ok = (
  required_ok organization_max _ form.organization ok.organization,
  required_ok event_name_max _ form.event_name ok.event_name,
  required_ok languages_max _ form.languages ok.languages,
  ground (arith, ok.message),
  ground (arith, ok.event_ends_on),
  (λ h. ground (arith, ok.event_starts_on, h)),
  (λ h. ground (arith, ok.event_ends_on, h)),
)
