-- ===== src/Reaper/Tests.antt =====
-- Runs and witnesses for portal/websockets/reaper.py.
use voxbento.Prelude.{
  ℕ, ◌≡◌, ◌↔◌, ◌⊎◌, refl, true, false, Option, none, some, [], ◌∷◌, Text, codes, text_eq, any, get,
  put, remove,
}
use voxbento.Connections.{
  Session, ConnectionManager, in_room, revoke_all, revoke_session, mark_revoked, close_all,
  remove_session, get_session, leave_room,
}
use voxbento.UserAdmin.{User, get_user_by_id}
use voxbento.Reaper.{reap_stale_sessions, stale_sockets, stale_reason}
use voxbento.Reaper.Entitled.{IsEntitled, reap_stale_sessions-IsEntitled}
use voxbento.Reaper.Pass.{is_live_of, reap_stale_sessions_shut}

abbrev gone : User
gone = record {
  id = 7;
  email = codes "ada@x.org";
  display_name = codes "Ada";
  password_hash = none;
  email_verified = true;
  is_admin = false;
  is_active = false;
  can_host = false;
  hosting_requested_at = none;
  hosting_revoked_at = none;
  sessions_valid_after = some 90;
}

abbrev session : Option ℕ → Option Text → Session
session user_id invite_token_id = record {
  booth_id = codes "b";
  participant_id = none;
  language = none;
  channel_id = codes "c";
  granted_role = some (codes "interpreter");
  user_id = user_id;
  invite_token_id = invite_token_id;
  revoked = false;
  session_key = none;
  issued_at = 80;
}

-- A deactivated user and a guest with an invitation.
abbrev manager : ConnectionManager
manager = record {
  rooms = (codes "b", 1 ∷ 2 ∷ []) ∷ [];
  sessions = (1, session (some 7) none) ∷ (2, session none (some (codes "t"))) ∷ [];
  max_epochs = 10000;
  users = record { wide = []; scoped = [] };
  tokens = record { wide = []; scoped = [] };
  allowed_cache = [];
  token_allowed_cache = [];
}

guest_stays : reap_stale_sessions (gone ∷ []) ((codes "t", none) ∷ []) manager ≡ (
  1,
  record manager {
    rooms = (codes "b", 2 ∷ []) ∷ [];
    sessions = (2, session none (some (codes "t"))) ∷ [];
  },
)
unfolding reap_stale_sessions stale_sockets stale_reason revoke_all revoke_session mark_revoked
    close_all remove_session get_session leave_room get_user_by_id get put remove text_eq
guest_stays = refl

-- The session of a user who was signed out after it began.
abbrev signed_out : ConnectionManager
signed_out = record manager { sessions = (1, session (some 7) none) ∷ [] }

reap_stale_sessions-IsEntitled_example :
    ((get_session 1
          (reap_stale_sessions (record gone { is_active = true } ∷ []) [] signed_out).1.sessions
        ≡ some (session (some 7) none))
      ↔ ((false ≡ true)
          ⊎ ((in_room 1 (get (codes "b") signed_out.rooms) ≡ false)
              ⊎ IsEntitled (record gone { is_active = true } ∷ []) [] (session (some 7) none))))
    × ((get_session 1
            (reap_stale_sessions (record gone { is_active = true } ∷ []) [] signed_out).1.sessions
          ≡ some (session (some 7) none))
        ⊎ (get_session 1
              (reap_stale_sessions (record gone { is_active = true } ∷ []) [] signed_out).1.sessions
            ≡ none))
unfolding get_session
reap_stale_sessions-IsEntitled_example =
    reap_stale_sessions-IsEntitled (record gone { is_active = true } ∷ []) [] signed_out 1
      (session (some 7) none) refl refl

reap_stale_sessions_shut_example :
    any
      (is_live_of 7 manager.rooms)
      (reap_stale_sessions (gone ∷ []) ((codes "t", none) ∷ []) manager).1.sessions
    ≡ false
unfolding get_user_by_id
reap_stale_sessions_shut_example =
    reap_stale_sessions_shut (gone ∷ []) ((codes "t", none) ∷ []) manager 7 refl refl
