-- ===== src/Connections/Connect.antt =====
-- How a connection is accepted: `ws_booth` of portal/websockets/handlers.py up to its loop. The reads of
-- the database are awaited, so that anything may happen between the snapshot of an epoch and the check
-- of it. A token's claims and what the database returns are arguments.
use voxbento.Prelude.{
  ℕ, Bool, false, ◌||◌, not, Option, none, some, List, [], ◌∷◌, ◌++◌, Text, codes, nat_eq, leb,
  ◌==◌, nat_has_eq, text_has_eq, pair_has_eq, filter, if◌then◌else◌,
}
use voxbento.UserAdmin.{User}
use voxbento.Connections.{Session, ConnectionManager, add_session, remove_session, revoke_session}
use voxbento.Connections.Revoke.{
  revocation_epoch, revoke_user_sessions, revoke_token_sessions, close_booth_sessions,
}

-- What the token of a connection says, and the booth that it is for.
pub record Credentials : Type 0 where
  pub booth_id : Text
  pub user_id : Option ℕ
  pub token_id : Option Text
  pub session_key : Option Text

-- A connection that is being accepted.
pub record Attempt : Type 0 where
  pub credentials : Credentials
  pub user_epoch : ℕ × ℕ
  pub valid_after : Option ℕ
  pub token_epoch : Option (ℕ × ℕ)

-- What the database and the clock say at the end: whether the invitation is revoked, the role in the
-- booth, the booth's language and the time.
pub record Reading : Type 0 where
  pub invite_revoked : Bool
  pub granted_role : Option Text
  pub language : Option Text
  pub connect_time : ℕ

-- The first step: the epoch of the user.
unfoldable pub begin_attempt : Credentials → ConnectionManager → Attempt
unfolding revocation_epoch
begin_attempt c m = record {
  credentials = c;
  user_epoch = elim c.user_id [ none ↦ (0, 0) | some id ↦ revocation_epoch id c.booth_id m.users ];
  valid_after = none;
  token_epoch = none;
}

-- The user's row was read: nobody who is not active goes on, and the epoch of the token is taken.
unfoldable pub user_was_read : Option User → Attempt → ConnectionManager → Option Attempt
unfolding revocation_epoch
user_was_read user a m =
    let a' : Attempt = record a {
      token_epoch = some (elim a.credentials.token_id [
        | none ↦ (0, 0)
        | some t ↦ revocation_epoch t a.credentials.booth_id m.tokens
      ]);
    } in
    elim a.credentials.user_id [
      | none ↦ some a'
      | some id ↦ elim user [
        | none ↦ none
        | some u ↦
            if u.is_active then some (record a' { valid_after = u.sessions_valid_after }) else none
      ]
    ]

abbrev pub session_of_attempt : Attempt → Reading → Session
session_of_attempt a r = record {
  booth_id = a.credentials.booth_id;
  participant_id = none;
  language = r.language;
  channel_id = a.credentials.booth_id ++ codes "-audio";
  granted_role = r.granted_role;
  user_id = a.credentials.user_id;
  invite_token_id = a.credentials.token_id;
  revoked = false;
  session_key = a.credentials.session_key;
  issued_at = r.connect_time;
}

-- `connect_time <= user.sessions_valid_after`
abbrev pub is_signed_out : Reading → Option ℕ → Bool
is_signed_out r none = false
is_signed_out r (some t) = leb r.connect_time t

abbrev pub epoch_moved : Attempt → ConnectionManager → Bool
epoch_moved a m = elim a.credentials.user_id [
  | none ↦ false
  | some id ↦ not (revocation_epoch id a.credentials.booth_id m.users == a.user_epoch)
]

abbrev pub token_epoch_moved : ℕ × ℕ → Attempt → ConnectionManager → Bool
token_epoch_moved n a m = elim a.credentials.token_id [
  | none ↦ false
  | some t ↦ not (revocation_epoch t a.credentials.booth_id m.tokens == n)
]

abbrev pub is_uninvited : Attempt → Reading → Bool
is_uninvited a r = elim a.credentials.token_id [ none ↦ false | some t ↦ r.invite_revoked ]

-- The checks in their order, for a connection whose token's epoch has been taken.
unfoldable pub finish_attempt : ℕ → Attempt → Reading → ConnectionManager → ConnectionManager
finish_attempt ws a r m = elim a.token_epoch [
  | none ↦ m
  | some n ↦
      if is_uninvited a r
        || is_signed_out r a.valid_after
        || epoch_moved a m
        || token_epoch_moved n a m
      then m
      else add_session ws (session_of_attempt a r) m
]

-- The connections, and those that are being accepted.
pub record Hub : Type 0 where
  pub manager : ConnectionManager
  pub attempts : List (ℕ × Attempt)

-- `ConnectionManager(max_epochs=..)`
abbrev pub new_manager : ℕ → ConnectionManager
new_manager max_epochs = record {
  rooms = [];
  sessions = [];
  max_epochs = max_epochs;
  users = record { wide = []; scoped = [] };
  tokens = record { wide = []; scoped = [] };
  allowed_cache = [];
  token_allowed_cache = [];
}

-- What happens to the connections, one step between two awaits each: a connection is accepted in three
-- steps, its loop ends, it is closed, or somebody loses access.
pub data HubEvent : Type 0 where
  begins : ℕ → Credentials → HubEvent
  reads_user : ℕ → Option User → HubEvent
  finishes : ℕ → Reading → HubEvent
  leaves : ℕ → HubEvent
  closes : ℕ → HubEvent
  revokes_user : ℕ → Option Text → HubEvent
  revokes_token : Text → Option Text → HubEvent
  closes_booth : Text → HubEvent

unfoldable pub attempt_of : ℕ → List (ℕ × Attempt) → Option Attempt
attempt_of ws [] = none
attempt_of ws ((i, a) ∷ as') = if nat_eq i ws then some a else attempt_of ws as'

abbrev pub without_attempt : ℕ → List (ℕ × Attempt) → List (ℕ × Attempt)
without_attempt ws = filter (λ k. not (nat_eq k.0 ws))

-- An attempt goes on, or is over.
abbrev pub next_attempt : ℕ → Option Attempt → List (ℕ × Attempt) → List (ℕ × Attempt)
next_attempt ws none as' = without_attempt ws as'
next_attempt ws (some a) as' = (ws, a) ∷ without_attempt ws as'

unfoldable pub hub_step : HubEvent → Hub → Hub
unfolding begin_attempt attempt_of
hub_step (begins ws c) h = record h {
  attempts = next_attempt ws (some (begin_attempt c h.manager)) h.attempts;
}
hub_step (reads_user ws user) h = elim (attempt_of ws h.attempts) [
  | none ↦ h
  | some a ↦ record h { attempts = next_attempt ws (user_was_read user a h.manager) h.attempts }
]
hub_step (finishes ws r) h = elim (attempt_of ws h.attempts) [
  | none ↦ h
  | some a ↦ record {
    manager = finish_attempt ws a r h.manager;
    attempts = without_attempt ws h.attempts;
  }
]
hub_step (leaves ws) h = record h { manager = remove_session ws h.manager }
hub_step (closes ws) h = record h { manager = remove_session ws (revoke_session ws h.manager) }
hub_step (revokes_user user_id booth_id) h = record h {
  manager = (revoke_user_sessions user_id booth_id h.manager).1;
}
hub_step (revokes_token token_id booth_id) h = record h {
  manager = (revoke_token_sessions token_id booth_id h.manager).1;
}
hub_step (closes_booth booth_id) h = record h { manager = close_booth_sessions booth_id h.manager }

unfoldable pub hub_run : List HubEvent → Hub → Hub
hub_run [] h = h
hub_run (e ∷ es) h = hub_run es (hub_step e h)
