-- ===== src/Hosting.antt =====
-- portal/hosting_requests.py: the form in which a user asks for hosting access. `from_iso` stands for
-- `date.fromisoformat`, with a date as its ordinal and `none` for a `ValueError`. The rendering of dates
-- is not modelled. A message is kept up to its first interpolated value.
pub mod Form
mod Tests
use Prim.Native.String.{String}
use voxbento.Prelude.{
  ℕ, Bool, true, false, ◌&&◌, ◌||◌, not, Option, none, some, List, [], ◌∷◌, Text, nat_eq, ltb,
  is_empty, strip, if◌then◌else◌, length,
}

abbrev pub organization_max : ℕ
organization_max = 200

abbrev pub event_name_max : ℕ
event_name_max = 200

abbrev pub languages_max : ℕ
languages_max = 500

abbrev pub message_max : ℕ
message_max = 2000

-- What the form holds under each name; `none` for what is not a text.
pub record HostingForm : Type 0 where
  pub organization : Option Text
  pub event_name : Option Text
  pub event_starts_on : Option Text
  pub event_ends_on : Option Text
  pub languages : Option Text
  pub message : Option Text

pub record HostingRequestInput : Type 0 where
  pub organization : Text
  pub event_name : Text
  pub event_starts_on : Option ℕ
  pub event_ends_on : Option ℕ
  pub languages : Text
  pub message : Text

-- The dict of errors, by its keys.
pub record FormErrors : Type 0 where
  pub organization : Option String
  pub event_name : Option String
  pub languages : Option String
  pub message : Option String
  pub event_starts_on : Option String
  pub event_ends_on : Option String

abbrev pub is_break : ℕ → Bool
is_break c = nat_eq c 13 || nat_eq c 10

abbrev pub starts_with : (ℕ → Bool) → Text → Bool
starts_with p [] = false
starts_with p (c ∷ cs) = p c

-- `_LINE_BREAKS.sub(" ", value)`: the last character of each run of line breaks becomes a space.
unfoldable pub collapse_breaks : Text → Text
collapse_breaks [] = []
collapse_breaks (c ∷ cs) =
    let rest = collapse_breaks cs in
    if is_break c then (if starts_with is_break cs then rest else 32 ∷ rest) else c ∷ rest

-- `value.replace("\r\n", "\n")`
unfoldable pub replace_crlf : Text → Text
replace_crlf [] = []
replace_crlf (c ∷ cs) =
    let rest = replace_crlf cs in
    if nat_eq c 13 && starts_with (λ d. nat_eq d 10) cs then rest else c ∷ rest

unfoldable pub single_line : Option Text → Text
unfolding collapse_breaks
single_line none = []
single_line (some value) = strip (collapse_breaks value)

unfoldable pub multi_line : Option Text → Text
unfolding replace_crlf
multi_line none = []
multi_line (some value) = strip (replace_crlf value)

abbrev pub required : Text → ℕ → String → Option String
required value most missing =
    if is_empty value
    then some missing
    else if ltb most (length value)
    then some "Use at most "
    else none

abbrev pub is_none : {A : Type 0} → Option A → Bool
is_none none = true
is_none (some a) = false

abbrev pub ends_before : Option ℕ → Option ℕ → Bool
ends_before (some starts) (some ends) = ltb ends starts
ends_before _ _ = false

module _ (from_iso : Text → Option ℕ) where
  unfoldable pub parse_date : Text → Option ℕ
  parse_date value = if is_empty value then none else from_iso value

  unfoldable pub parse_hosting_request_form : HostingForm → HostingRequestInput × FormErrors
  unfolding single_line multi_line parse_date
  parse_hosting_request_form form =
      let organization = single_line form.organization in
      let event_name = single_line form.event_name in
      let languages = single_line form.languages in
      let message = multi_line form.message in
      let raw_starts = single_line form.event_starts_on in
      let raw_ends = single_line form.event_ends_on in
      let starts = parse_date raw_starts in
      let ends = parse_date raw_ends in
      (
        record {
          organization = organization;
          event_name = event_name;
          event_starts_on = starts;
          event_ends_on = ends;
          languages = languages;
          message = message;
        },
        record {
          organization = required organization organization_max "Enter your organization.";
          event_name = required event_name event_name_max "Enter the name of your event.";
          languages = required languages languages_max "Enter the languages you need.";
          message = if ltb message_max (length message) then some "Use at most " else none;
          event_starts_on =
              if not (is_empty raw_starts) && is_none starts
              then some "Enter a valid date."
              else none;
          event_ends_on =
              if ends_before starts ends
              then some "The event can't end before it starts."
              else if not (is_empty raw_ends) && is_none ends
              then some "Enter a valid date."
              else none;
        },
      )
