-- ===== src/UserAdmin.antt =====
-- portal/user_admin.py: what an Admin may do to an account, on the tables of portal/models.py through
-- the queries of portal/database.py. Times are whole numbers; `now` is the `utc_now()` of the call. A
-- call that raises is rolled back by its caller, so that it leaves the tables as they were.
pub mod Count
pub mod Keep
pub mod Self
mod Tests
use voxbento.Prelude.{
  ℕ, ◌+◌, Bool, true, false, ◌&&◌, ◌||◌, not, Option, none, some, List, [], ◌∷◌, Text, text_eq,
  nat_eq, leb, strip, is_empty, if◌then◌else◌, filter, map, Result, ok, err, user_admin_error,
  raise_if, ◌>>=◌, ◌>>◌,
}

pub record User : Type 0 where
  pub id : ℕ
  pub email : Text
  pub display_name : Text
  pub password_hash : Option Text
  pub email_verified : Bool
  pub is_admin : Bool
  pub is_active : Bool
  pub can_host : Bool
  pub hosting_requested_at : Option ℕ
  pub hosting_revoked_at : Option ℕ
  pub sessions_valid_after : Option ℕ

pub data TokenType : Type 0 where
  verification magic_link password_reset hosting_invite : TokenType

pub record AuthToken : Type 0 where
  pub user_id : ℕ
  pub token_type : TokenType
  pub used_at : Option ℕ

pub data RequestStatus : Type 0 where
  open_request granted declined : RequestStatus

pub record HostingRequest : Type 0 where
  pub user_id : ℕ
  pub status : RequestStatus
  pub decline_reason : Option Text
  pub decided_by_user_id : Option ℕ
  pub decided_at : Option ℕ

-- The tables that these calls read and write.
pub record Tables : Type 0 where
  pub users : List User
  pub tokens : List AuthToken
  pub requests : List HostingRequest

unfoldable pub get_user_by_id : ℕ → List User → Option User
get_user_by_id user_id [] = none
get_user_by_id user_id (u ∷ us) = if nat_eq u.id user_id then some u else get_user_by_id user_id us

-- A change of the attributes of the user with this ID.
unfoldable pub update_user : ℕ → (User → User) → List User → List User
update_user user_id f [] = []
update_user user_id f (u ∷ us) = (if nat_eq u.id user_id then f u else u) ∷ update_user user_id f us

unfoldable pub count_active_admins : List User → ℕ
count_active_admins [] = 0
count_active_admins (u ∷ us) =
    let rest = count_active_admins us in if u.is_admin && u.is_active then rest + 1 else rest

unfoldable pub is_last_active_admin : List User → User → Bool
unfolding count_active_admins
is_last_active_admin users u = (u.is_admin && u.is_active) && leb (count_active_admins users) 1

abbrev is_invite : TokenType → Bool
is_invite hosting_invite = true
is_invite _ = false

abbrev is_unused : Option ℕ → Bool
is_unused none = true
is_unused (some t) = false

unfoldable pub delete_pending_hosting_invites : ℕ → List AuthToken → List AuthToken
delete_pending_hosting_invites user_id =
    filter (λ t. not (nat_eq t.user_id user_id && (is_invite t.token_type && is_unused t.used_at)))

abbrev is_open : RequestStatus → Bool
is_open open_request = true
is_open _ = false

-- `close_open_hosting_request` with the status granted: the first open request of the user is closed.
unfoldable pub close_open_hosting_request :
    ℕ → Option ℕ → ℕ → List HostingRequest → List HostingRequest
close_open_hosting_request user_id decided_by now [] = []
close_open_hosting_request user_id decided_by now (r ∷ rs) =
    let rest = close_open_hosting_request user_id decided_by now rs in
    if nat_eq r.user_id user_id && is_open r.status
    then record r {
      status = granted;
      decided_by_user_id = decided_by;
      decided_at = some now;
      decline_reason = none;
    }
      ∷ rs
    else r ∷ rest

-- The name of a switch; any other text is `unknown_field`.
pub data Field : Type 0 where
  hosting admin active verified unknown_field : Field

abbrev is_unknown : Field → Bool
is_unknown unknown_field = true
is_unknown _ = false

abbrev pub is_self : ℕ → Option ℕ → Bool
is_self id none = false
is_self id (some a) = nat_eq id a

abbrev has_no_password : Option Text → Bool
has_no_password none = true
has_no_password (some h) = is_empty h

pub record AccessChange : Type 0 where
  pub user_id : ℕ
  pub email : Text
  pub display_name : Text
  pub field : Field
  pub value : Bool
  pub changed : Bool

abbrev pub current : Field → User → Bool
current hosting u = u.can_host
current admin u = u.is_admin
current active u = u.is_active
current verified u = u.email_verified
current unknown_field u = false

abbrev pub same_bool : Bool → Bool → Bool
same_bool a b = if a then b else not b

-- The attributes that each switch writes.
unfoldable pub written : Field → Bool → ℕ → User → User
written hosting value now u = record u {
  can_host = value;
  hosting_revoked_at = if value then none else some now;
  hosting_requested_at = none;
}
written admin value now u = record u {
  is_admin = value;
  sessions_valid_after = if value then u.sessions_valid_after else some now;
}
written active value now u = record u {
  is_active = value;
  sessions_valid_after = if value then u.sessions_valid_after else some now;
}
written verified value now u = record u { email_verified = value }
written unknown_field value now u = u

-- The checks of each switch, in their order.
unfoldable pub may_change : Option ℕ → Field → Bool → User → List User → Result (Unit {0})
unfolding is_last_active_admin
may_change actor hosting value u users = do
  raise_if u.is_admin (user_admin_error "admin_hosting" 400)
  raise_if (value && not u.is_active) (user_admin_error "inactive" 400)
  raise_if (value && has_no_password u.password_hash) (user_admin_error "no_account" 400)
may_change actor admin value u users = do
  raise_if (is_self u.id actor) (user_admin_error "self_admin" 403)
  raise_if (value && not u.is_active) (user_admin_error "inactive" 400)
  raise_if (not value && is_last_active_admin users u) (user_admin_error "last_admin" 400)
may_change actor active value u users = do
  raise_if (is_self u.id actor) (user_admin_error "self_active" 403)
  raise_if (not value && is_last_active_admin users u) (user_admin_error "last_admin" 400)
may_change actor verified value u users = do
  raise_if (is_self u.id actor && not value) (user_admin_error "self_verified" 403)
  raise_if (not value && is_last_active_admin users u) (user_admin_error "last_admin" 400)
may_change actor unknown_field value u users = err (user_admin_error "invalid" 400)

-- The other tables change with hosting access only.
unfoldable pub write_access : Option ℕ → Field → Bool → ℕ → User → Tables → Tables
unfolding written
write_access actor hosting value now u db = record {
  users = update_user u.id (written hosting value now) db.users;
  tokens = delete_pending_hosting_invites u.id db.tokens;
  requests = if value then close_open_hosting_request u.id actor now db.requests else db.requests;
}
write_access actor field value now u db = record db {
  users = update_user u.id (written field value now) db.users;
}

unfoldable pub set_user_access :
    Option ℕ → ℕ → Field → Bool → ℕ → Tables → Result (AccessChange × Tables)
unfolding may_change write_access
set_user_access actor user_id field value now db =
    if is_unknown field
    then err (user_admin_error "invalid" 400)
    else elim (get_user_by_id user_id db.users) [
      | none ↦ err (user_admin_error "not_found" 404)
      | some u ↦
          let change : Bool → AccessChange = λ changed. record {
            user_id = u.id;
            email = u.email;
            display_name = u.display_name;
            field = field;
            value = value;
            changed = changed;
          } in
          if same_bool (current field u) value then ok (change false, db) else do
            may_change actor field value u db.users
            ok (change true, write_access actor field value now u db)
    ]

-- The rows of other tables that belong to a deleted user go with it.
unfoldable pub delete_user : ℕ → Tables → Tables
delete_user user_id db = record {
  users = filter (λ u. not (nat_eq u.id user_id)) db.users;
  tokens = filter (λ t. not (nat_eq t.user_id user_id)) db.tokens;
  requests = filter (λ r. not (nat_eq r.user_id user_id)) db.requests;
}

unfoldable pub delete_user_account :
    (Text → Text) → Option ℕ → ℕ → Text → Tables → Result (Text × Tables)
unfolding delete_user
delete_user_account lower actor user_id confirm_email db = elim (get_user_by_id user_id db.users) [
  | none ↦ err (user_admin_error "not_found" 404)
  | some u ↦ do
    raise_if (is_self u.id actor) (user_admin_error "self_delete" 403)
    raise_if (not (text_eq (lower (strip confirm_email)) u.email))
        (user_admin_error "confirm_email" 400)
    raise_if (is_last_active_admin db.users u) (user_admin_error "last_admin" 400)
    ok (u.email, delete_user u.id db)
]
