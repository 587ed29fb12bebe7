-- ===== src/Hosting/Tests.antt =====
-- Runs and witnesses for portal/hosting_requests.py, where no text is a date.
use voxbento.Prelude.{
  ℕ, ◌≤◌, ◌≡◌, refl, false, Option, none, some, [], ◌∷◌, ◌++◌, Text, codes, is_empty, length, strip,
}
use voxbento.Hosting.{
  HostingForm, organization_max, event_name_max, languages_max, message_max, ends_before, is_none,
  single_line, multi_line, collapse_breaks, replace_crlf, parse_date, parse_hosting_request_form,
}
use voxbento.Hosting.Form.{NoErrors, IsLine, parse_hosting_request_form_ok}

abbrev no_date : Text → Option ℕ
no_date s = none

abbrev form : HostingForm
form = record {
  organization = some (codes " FOSSASIA " ++ 13 ∷ 10 ∷ []);
  event_name = some (codes "Summit");
  event_starts_on = none;
  event_ends_on = none;
  languages = some (codes "en" ++ 13 ∷ 10 ∷ codes "fr");
  message = some [];
}

two_lines_to_one : single_line form.languages ≡ codes "en fr"
unfolding single_line collapse_breaks strip
two_lines_to_one = refl

form-NoErrors : NoErrors (parse_hosting_request_form no_date form).1
unfolding parse_hosting_request_form single_line multi_line collapse_breaks replace_crlf parse_date
    strip
form-NoErrors = record {
  organization = refl;
  event_name = refl;
  languages = refl;
  message = refl;
  event_starts_on = refl;
  event_ends_on = refl;
}

parse_hosting_request_form_ok_example :
    let input = (parse_hosting_request_form no_date form).0 in
    IsLine organization_max input.organization
    × IsLine event_name_max input.event_name
    × IsLine languages_max input.languages
    × (length input.message ≤ message_max)
    × (ends_before input.event_starts_on input.event_ends_on ≡ false)
    × (is_empty (single_line form.event_starts_on) ≡ false → is_none input.event_starts_on ≡ false)
    × (is_empty (single_line form.event_ends_on) ≡ false → is_none input.event_ends_on ≡ false)
parse_hosting_request_form_ok_example = parse_hosting_request_form_ok no_date form form-NoErrors
