-- ===== src/UserAdmin/Count.antt =====
-- The number of active Admins when an account changes: portal/user_admin.py.
use voxbento.Prelude.{
  ℕ, ◌+◌, ◌≡◌, refl, Bool, true, false, ◌&&◌, ◌||◌, not, some, Bool-cases, inl, inr, List, [], ◌∷◌,
  nat_eq, if◌then◌else◌, filter, arith,
}
use voxbento.UserAdmin.{User, get_user_by_id, update_user, count_active_admins}

abbrev pub is_active_admin : User → Bool
is_active_admin u = u.is_admin && u.is_active

unfoldable pub has_user : ℕ → List User → Bool
has_user id [] = false
has_user id (u ∷ us) = nat_eq u.id id || has_user id us

-- The ID is the primary key.
unfoldable pub is_distinct : List User → Bool
unfolding has_user
is_distinct [] = true
is_distinct (u ∷ us) = not (has_user u.id us) && is_distinct us

abbrev pub one_if : Bool → ℕ
one_if b = if b then 1 else 0

-- A change of a user's attributes leaves the ID alone.
abbrev pub KeepsId : (User → User) → Type 0
KeepsId f = (u : User) → (f u).id ≡ u.id

has_user-update_user :
    (i id : ℕ) (f : User → User) (us : List User)
    → KeepsId f
    → has_user i (update_user id f us) ≡ has_user i us
unfolding has_user update_user
has_user-update_user i id f [] k = refl
has_user-update_user i id f (u ∷ us) k = ground (arith, has_user-update_user i id f us k, k u)

pub is_distinct-update_user :
    (id : ℕ) (f : User → User) (us : List User)
    → KeepsId f
    → is_distinct us ≡ true
    → is_distinct (update_user id f us) ≡ true
unfolding is_distinct update_user
is_distinct-update_user id f [] k d = refl
is_distinct-update_user id f (u ∷ us) k d =
    ground (arith, is_distinct-update_user id f us k, k u, has_user-update_user u.id id f us k)

update_user_absent :
    (id : ℕ) (f : User → User) (us : List User) → has_user id us ≡ false → update_user id f us ≡ us
unfolding has_user update_user
update_user_absent id f [] h = refl
update_user_absent id f (u ∷ us) h = ground (arith, update_user_absent id f us)

pub get_user_by_id_id :
    (id : ℕ) (us : List User) (u : User) → get_user_by_id id us ≡ some u → u.id ≡ id
unfolding get_user_by_id
get_user_by_id_id id [] u g = absurd (cc)
get_user_by_id_id id (x ∷ us) u g = ground (arith, get_user_by_id_id id us u)

pub count-update_user :
    (id : ℕ) (f : User → User) (us : List User) (u : User)
    → is_distinct us ≡ true
    → get_user_by_id id us ≡ some u
    → count_active_admins (update_user id f us) + one_if (is_active_admin u)
      ≡ count_active_admins us + one_if (is_active_admin (f u))
unfolding is_distinct get_user_by_id update_user count_active_admins
count-update_user id f [] u d g = absurd (cc)
count-update_user id f (x ∷ us) u d g = elim (Bool-cases (nat_eq x.id id)) [
  | inl e ↦ ground (arith, update_user_absent id f us)
  | inr e ↦ ground (arith, count-update_user id f us u)
]

abbrev without : ℕ → List User → List User
without id = filter (λ u. not (nat_eq u.id id))

without_absent : (id : ℕ) (us : List User) → has_user id us ≡ false → without id us ≡ us
unfolding has_user
without_absent id [] h = refl
without_absent id (u ∷ us) h = ground (arith, without_absent id us)

has_user-without :
    (i id : ℕ) (us : List User) → has_user i us ≡ false → has_user i (without id us) ≡ false
unfolding has_user
has_user-without i id [] h = refl
has_user-without i id (u ∷ us) h = ground (arith, has_user-without i id us)

pub is_distinct-without :
    (id : ℕ) (us : List User) → is_distinct us ≡ true → is_distinct (without id us) ≡ true
unfolding is_distinct
is_distinct-without id [] d = refl
is_distinct-without id (u ∷ us) d =
    ground (arith, is_distinct-without id us, has_user-without u.id id us)

pub count-without :
    (id : ℕ) (us : List User) (u : User)
    → is_distinct us ≡ true
    → get_user_by_id id us ≡ some u
    → count_active_admins (without id us) + one_if (is_active_admin u) ≡ count_active_admins us
unfolding is_distinct get_user_by_id count_active_admins
count-without id [] u d g = absurd (cc)
count-without id (x ∷ us) u d g = elim (Bool-cases (nat_eq x.id id)) [
  | inl e ↦ ground (arith, without_absent id us)
  | inr e ↦ ground (arith, count-without id us u)
]
