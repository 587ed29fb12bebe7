-- ===== src/Roles/Tests.antt =====
-- Runs and witnesses for portal/roles.py.
use voxbento.Prelude.{◌≡◌, refl, ◌↔◌, true, some, none, [], ◌∷◌, codes, text_eq}
use voxbento.Roles.{
  admin, event_owner, interpreter, booth_go_live, edit_event, contains_permission, permissions_for,
  has_permission, highest_role, rank_of, is_at_least, assignment_error,
}
use voxbento.Roles.Laws.{
  has_permission-highest_role, is_at_least-has_permission, assignment_error-is_assignable,
  is_assignable,
}

highest_of_two : highest_role (interpreter ∷ codes "owner" ∷ event_owner ∷ []) ≡ some event_owner
unfolding highest_role rank_of text_eq
highest_of_two = refl

has_permission-highest_role_example :
    has_permission (highest_role (interpreter ∷ event_owner ∷ [])) edit_event
    ≡ contains_permission edit_event (permissions_for (interpreter ∷ event_owner ∷ []))
has_permission-highest_role_example =
    has_permission-highest_role edit_event (interpreter ∷ event_owner ∷ [])

is_at_least-has_permission_example : has_permission (some event_owner) booth_go_live ≡ true
unfolding is_at_least has_permission text_eq
is_at_least-has_permission_example =
    is_at_least-has_permission event_owner interpreter booth_go_live refl refl

assignment_error-is_assignable_example :
    (assignment_error admin (codes "event") ≡ none) ↔ (is_assignable admin (codes "event") ≡ true)
assignment_error-is_assignable_example = assignment_error-is_assignable admin (codes "event")
