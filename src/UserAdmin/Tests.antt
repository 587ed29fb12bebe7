-- ===== src/UserAdmin/Tests.antt =====
-- Runs and witnesses for portal/user_admin.py.
use voxbento.Prelude.{
  ℕ, ◌≡◌, refl, Bool, true, false, none, some, [], ◌∷◌, Text, codes, text_eq, strip, err,
  user_admin_error, arith,
}
use voxbento.UserAdmin.{
  User, Tables, AccessChange, admin, active, get_user_by_id, update_user, count_active_admins,
  is_last_active_admin, written, may_change, write_access, set_user_access, delete_user,
  delete_user_account,
}
use voxbento.UserAdmin.Count.{is_distinct, has_user}
use voxbento.UserAdmin.Keep.{IsGoverned, access, deletion, run_admin, run_admin-IsGoverned}
use voxbento.UserAdmin.Self.{SameStanding, set_user_access_self, delete_user_account_self}

abbrev account : ℕ → Text → Bool → User
account id email is_admin = record {
  id = id;
  email = email;
  display_name = email;
  password_hash = some (codes "hash");
  email_verified = true;
  is_admin = is_admin;
  is_active = true;
  can_host = false;
  hosting_requested_at = none;
  hosting_revoked_at = none;
  sessions_valid_after = none;
}

abbrev root : User
root = account 1 (codes "root@x.org") true

abbrev platform : Tables
platform = record {
  users = root ∷ account 2 (codes "bo@x.org") false ∷ [];
  tokens = [];
  requests = [];
}

abbrev same_text : Text → Text
same_text s = s

-- Another user cannot demote the last active Admin.
last_admin_stays :
    set_user_access (some 2) 1 admin false 50 platform ≡ err (user_admin_error "last_admin" 400)
unfolding set_user_access may_change is_last_active_admin count_active_admins get_user_by_id
last_admin_stays = refl

platform-IsGoverned : IsGoverned platform
unfolding is_distinct has_user count_active_admins
platform-IsGoverned = record { distinct = refl; governed = omega arith }

run_admin-IsGoverned_example : IsGoverned (
    run_admin same_text
      (access (some 1) 2 admin true 50
        ∷ access (some 2) 1 active false 51
        ∷ deletion (some 2) 1 (codes "root@x.org")
        ∷ [])
      platform)
run_admin-IsGoverned_example =
    run_admin-IsGoverned same_text
      (access (some 1) 2 admin true 50
        ∷ access (some 2) 1 active false 51
        ∷ deletion (some 2) 1 (codes "root@x.org")
        ∷ [])
      platform platform-IsGoverned

abbrev promoted : Tables
promoted = record platform { users = root ∷ account 2 (codes "bo@x.org") true ∷ [] }

abbrev promotion : AccessChange
promotion = record {
  user_id = 2;
  email = codes "bo@x.org";
  display_name = codes "bo@x.org";
  field = admin;
  value = true;
  changed = true;
}

set_user_access_self_example :
    (u' : User) × (get_user_by_id 1 promoted.users ≡ some u') × SameStanding root u'
unfolding set_user_access may_change write_access written update_user is_last_active_admin
    get_user_by_id
set_user_access_self_example =
    set_user_access_self 1 2 admin true 50 platform promotion promoted root refl refl

delete_user_account_self_example : get_user_by_id 1 (root ∷ []) ≡ some root
unfolding delete_user_account delete_user is_last_active_admin get_user_by_id strip text_eq
delete_user_account_self_example =
    delete_user_account_self same_text 1 2 (codes "bo@x.org") (codes "bo@x.org") platform
      (record { users = root ∷ []; tokens = []; requests = [] }) root refl refl
