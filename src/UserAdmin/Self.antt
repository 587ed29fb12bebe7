-- ===== src/UserAdmin/Self.antt =====
-- What somebody's own calls do to their account: portal/user_admin.py.
use voxbento.Prelude.{
  ℕ, ◌≡◌, refl, sym, ap, ◌∙◌, Bool, true, false, not, some, Bool-cases, inl, inr, List, [], ◌∷◌,
  Text, nat_eq, if◌then◌else◌, filter, ok, arith,
}
use voxbento.UserAdmin.{
  User, Tables, Field, hosting, admin, active, verified, unknown_field, AccessChange,
  get_user_by_id, update_user, written, may_change, set_user_access, delete_user,
  delete_user_account,
}
use voxbento.UserAdmin.Count.{KeepsId, get_user_by_id_id}
use voxbento.UserAdmin.Keep.{
  set_user_access_ok, delete_user_account_ok, write_access-users, written-KeepsId,
}

get-update_user :
    (j id : ℕ) (f : User → User) (us : List User) (u : User)
    → KeepsId f
    → get_user_by_id id us ≡ some u
    → get_user_by_id id (update_user j f us) ≡ some (if nat_eq id j then f u else u)
unfolding get_user_by_id update_user
get-update_user j id f [] u k g = absurd (cc)
get-update_user j id f (x ∷ us) u k g = ground (arith, get-update_user j id f us u k, k x)

get-without :
    (j id : ℕ) (us : List User) (u : User)
    → nat_eq j id ≡ false
    → get_user_by_id id us ≡ some u
    → get_user_by_id id (filter (λ x. not (nat_eq x.id j)) us) ≡ some u
unfolding get_user_by_id
get-without j id [] u n g = g
get-without j id (x ∷ us) u n g = ground (arith, get-without j id us u)

-- The account `u'` has what keeps an Admin in: `is_admin` and `is_active` of `u`.
abbrev pub SameStanding : User → User → Type 0
SameStanding u u' = (u'.is_admin ≡ u.is_admin) × (u'.is_active ≡ u.is_active)

written-SameStanding :
    (id : ℕ) (field : Field) (value : Bool) (now : ℕ) (u : User) (us : List User)
    → nat_eq u.id id ≡ true
    → may_change (some id) field value u us ≡ ok tt
    → SameStanding u (written field value now u)
unfolding may_change written
written-SameStanding id hosting value now u us s h = (refl, refl)
written-SameStanding id admin value now u us s h = absurd (ground arith)
written-SameStanding id active value now u us s h = absurd (ground arith)
written-SameStanding id verified value now u us s h = (refl, refl)
written-SameStanding id unknown_field value now u us s h = (refl, refl)

-- A change of any account leaves it to the one who asked for it whether they are an Admin and active.
pub set_user_access_self :
    (id target : ℕ) (field : Field) (value : Bool) (now : ℕ) (db : Tables) (c : AccessChange)
    (db' : Tables) (u : User)
    → get_user_by_id id db.users ≡ some u
    → set_user_access (some id) target field value now db ≡ ok (c, db')
    → (u' : User) × (get_user_by_id id db'.users ≡ some u') × SameStanding u u'
set_user_access_self id target field value now db c db' u g h =
    let (t, gt, what) = set_user_access_ok (some id) target field value now db c db' h in
    elim what [
      | inl e ↦ (u, ap (λ (d : Tables). get_user_by_id id d.users) e ∙ g, (refl, refl))
      | inr (m, e) ↦
          let users =
            ap (λ (d : Tables). d.users) e ∙ write_access-users (some id) field value now t db in
          let moved =
            get-update_user t.id id (written field value now) db.users u
              (written-KeepsId field value now) g in
          (_, ap (get_user_by_id id) users ∙ moved, standing t gt m)
    ]
  where
    standing :
        (t : User)
        → get_user_by_id target db.users ≡ some t
        → may_change (some id) field value t db.users ≡ ok tt
        → SameStanding u (if nat_eq id t.id then written field value now u else u)
    standing t gt m = elim (Bool-cases (nat_eq id t.id)) [
      | inr n ↦ rw n (refl, refl)
      | inl y ↦
          let same : t ≡ u = ground (arith, gt, g, get_user_by_id_id target db.users t gt) in
          rw y (written-SameStanding id field value now u db.users (ground arith) (rw (sym same) m))
    ]

-- A deletion never deletes the account of the one who asked for it.
pub delete_user_account_self :
    (lower : Text → Text) (id target : ℕ) (confirm email : Text) (db db' : Tables) (u : User)
    → get_user_by_id id db.users ≡ some u
    → delete_user_account lower (some id) target confirm db ≡ ok (email, db')
    → get_user_by_id id db'.users ≡ some u
unfolding delete_user
delete_user_account_self lower id target confirm email db db' u g h =
    let (t, gt, other, last, e) =
      delete_user_account_ok lower (some id) target confirm email db db' h in
    ap (λ (d : Tables). get_user_by_id id d.users) e ∙ get-without t.id id db.users u other g
