-- ===== src/UserAdmin/Keep.antt =====
-- The switches of portal/user_admin.py and the number of active Admins.
use voxbento.Prelude.{
  ◌⊎◌, ℕ, ◌+◌, ◌≤◌, ◌≡◌, refl, Bool, true, false, Option, some, Option-cases, Bool-cases,
  Result-cases, inl, inr, List, [], ◌∷◌, Text, Result, ok, err, arith,
}
use voxbento.UserAdmin.{
  User, Tables, Field, hosting, admin, active, verified, unknown_field, AccessChange, current,
  same_bool, is_self, get_user_by_id, update_user, count_active_admins, is_last_active_admin,
  written, may_change, write_access, set_user_access, delete_user, delete_user_account,
}
use voxbento.UserAdmin.Count.{
  is_active_admin, is_distinct, one_if, KeepsId, is_distinct-update_user, get_user_by_id_id,
  count-update_user, is_distinct-without, count-without,
}

-- IDs are unique, and there is an active Admin.
pub record IsGoverned (db : Tables) : Type 0 where
  pub distinct : is_distinct db.users ≡ true
  pub governed : 1 ≤ count_active_admins db.users

pub written-KeepsId : (field : Field) (value : Bool) (now : ℕ) → KeepsId (written field value now)
unfolding written
written-KeepsId hosting value now u = refl
written-KeepsId admin value now u = refl
written-KeepsId active value now u = refl
written-KeepsId verified value now u = refl
written-KeepsId unknown_field value now u = refl

-- A switch that passed its checks takes an active Admin away only while there is another.
may_change_ok :
    (actor : Option ℕ) (field : Field) (value : Bool) (now : ℕ) (u : User) (users : List User)
    → may_change actor field value u users ≡ ok tt
    → 1 ≤ count_active_admins users
    → 1 + one_if (is_active_admin u)
      ≤ count_active_admins users + one_if (is_active_admin (written field value now u))
unfolding may_change is_last_active_admin written
may_change_ok actor hosting value now u users h c = ground (arith, c)
may_change_ok actor admin value now u users h c = ground (arith, c)
may_change_ok actor active value now u users h c = ground (arith, c)
may_change_ok actor verified value now u users h c = ground (arith, c)
may_change_ok actor unknown_field value now u users h c = ground (arith, c)

pub write_access-users :
    (actor : Option ℕ) (field : Field) (value : Bool) (now : ℕ) (u : User) (db : Tables)
    → (write_access actor field value now u db).users
      ≡ update_user u.id (written field value now) db.users
unfolding write_access
write_access-users actor hosting value now u db = refl
write_access-users actor admin value now u db = refl
write_access-users actor active value now u db = refl
write_access-users actor verified value now u db = refl
write_access-users actor unknown_field value now u db = refl

-- What a switch that does not raise has done.
pub set_user_access_ok :
    (actor : Option ℕ) (id : ℕ) (field : Field) (value : Bool) (now : ℕ) (db : Tables)
    (c : AccessChange) (db' : Tables)
    → set_user_access actor id field value now db ≡ ok (c, db')
    → (u : User) × (get_user_by_id id db.users ≡ some u)
      × ((db' ≡ db)
          ⊎ ((may_change actor field value u db.users ≡ ok tt)
              × (db' ≡ write_access actor field value now u db)))
unfolding set_user_access
set_user_access_ok actor id field value now db c db' h =
    elim (Option-cases (get_user_by_id id db.users)) [
      | inl e ↦ absurd (ground arith)
      | inr (u, e) ↦ (
        u,
        e,
        elim (Bool-cases (same_bool (current field u) value)) [
          | inl s ↦ inl (ground arith)
          | inr s ↦ elim (Result-cases (may_change actor field value u db.users)) [
            | inl (t, m) ↦ inr (m, ground arith)
            | inr (x, m) ↦ absurd (ground arith)
          ]
        ],
      )
    ]

set_user_access-IsGoverned :
    (actor : Option ℕ) (id : ℕ) (field : Field) (value : Bool) (now : ℕ) (db : Tables)
    (c : AccessChange) (db' : Tables)
    → IsGoverned db
    → set_user_access actor id field value now db ≡ ok (c, db')
    → IsGoverned db'
set_user_access-IsGoverned actor id field value now db c db' v h =
    let (u, g, what) = set_user_access_ok actor id field value now db c db' h in
    elim what [
      | inl e ↦ rw e v
      | inr (m, e) ↦
          let same = get_user_by_id_id id db.users u g in
          let counted =
            count-update_user u.id (written field value now) db.users u v.distinct (rw same g) in
          rw (e) (record {
            distinct = rw (write_access-users actor field value now u db) (
                is_distinct-update_user u.id (written field value now) db.users
                  (written-KeepsId field value now) v.distinct);
            governed = rw (write_access-users actor field value now u db) (
                ground
                  (arith, counted, may_change_ok actor field value now u db.users m v.governed));
          })
    ]

pub delete_user_account_ok :
    (lower : Text → Text) (actor : Option ℕ) (id : ℕ) (confirm email : Text) (db db' : Tables)
    → delete_user_account lower actor id confirm db ≡ ok (email, db')
    → (u : User) × (get_user_by_id id db.users ≡ some u)
      × (is_self u.id actor ≡ false)
      × (is_last_active_admin db.users u ≡ false)
      × (db' ≡ delete_user u.id db)
unfolding delete_user_account
delete_user_account_ok lower actor id confirm email db db' h =
    elim (Option-cases (get_user_by_id id db.users)) [
      | inl e ↦ absurd (ground arith)
      | inr (u, e) ↦ (u, e, ground arith, ground arith, ground arith)
    ]

delete_user_account-IsGoverned :
    (lower : Text → Text) (actor : Option ℕ) (id : ℕ) (confirm email : Text) (db db' : Tables)
    → IsGoverned db
    → delete_user_account lower actor id confirm db ≡ ok (email, db')
    → IsGoverned db'
unfolding delete_user is_last_active_admin
delete_user_account-IsGoverned lower actor id confirm email db db' v h =
    let (u, g, other, last, e) = delete_user_account_ok lower actor id confirm email db db' h in
    let same = get_user_by_id_id id db.users u g in
    let counted = count-without u.id db.users u v.distinct (rw same g) in
    rw e (record {
      distinct = is_distinct-without u.id db.users v.distinct;
      governed = ground (arith, counted, last, v.governed);
    })

-- A call of the Admin pages.
pub data AdminCall : Type 0 where
  access : Option ℕ → ℕ → Field → Bool → ℕ → AdminCall
  deletion : Option ℕ → ℕ → Text → AdminCall

abbrev outcome : {A : Type 0} → Tables → Result (A × Tables) → Tables
outcome db (ok (a, db')) = db'
outcome db (err e) = db

module _ (lower : Text → Text) where
  unfoldable pub perform_admin : AdminCall → Tables → Tables
  perform_admin (access actor id field value now) db =
      outcome db (set_user_access actor id field value now db)
  perform_admin (deletion actor id confirm) db =
      outcome db (delete_user_account lower actor id confirm db)

  unfoldable pub run_admin : List AdminCall → Tables → Tables
  unfolding perform_admin
  run_admin [] db = db
  run_admin (c ∷ cs) db = run_admin cs (perform_admin c db)

  perform_admin-IsGoverned :
      (c : AdminCall) (db : Tables) → IsGoverned db → IsGoverned (perform_admin c db)
  unfolding perform_admin
  perform_admin-IsGoverned (access actor id field value now) db v =
      changed (set_user_access actor id field value now db) refl
    where
      changed :
          (m : Result (AccessChange × Tables))
          → set_user_access actor id field value now db ≡ m
          → IsGoverned (outcome db m)
      changed (err x) h = v
      changed (ok (c, db')) h = set_user_access-IsGoverned actor id field value now db c db' v h
  perform_admin-IsGoverned (deletion actor id confirm) db v =
      changed (delete_user_account lower actor id confirm db) refl
    where
      changed :
          (m : Result (Text × Tables))
          → delete_user_account lower actor id confirm db ≡ m
          → IsGoverned (outcome db m)
      changed (err x) h = v
      changed (ok (email, db')) h =
          delete_user_account-IsGoverned lower actor id confirm email db db' v h

  -- A platform with an active Admin keeps one in every sequence of changes and deletions of accounts,
  -- whoever asks for them, as long as the IDs of the accounts are unique.
  pub run_admin-IsGoverned :
      (cs : List AdminCall) (db : Tables) → IsGoverned db → IsGoverned (run_admin cs db)
  unfolding run_admin
  run_admin-IsGoverned [] db v = v
  run_admin-IsGoverned (c ∷ cs) db v =
      run_admin-IsGoverned cs (perform_admin c db) (perform_admin-IsGoverned c db v)
