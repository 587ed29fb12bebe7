-- ===== src/Connections/Tests.antt =====
-- Runs and witnesses for the connections of portal/websockets/manager.py.
use voxbento.Prelude.{
  ℕ, ◌≡◌, refl, true, false, Option, none, some, List, [], ◌∷◌, ◌++◌, Text, codes, text_eq, get,
  put, arith,
}
use voxbento.UserAdmin.{User}
use voxbento.Connections.{
  Session, ConnectionManager, get_session, put_session, enter_room, add_session, revoke_all,
}
use voxbento.Connections.Epochs.{epoch_of, drop_key, bump}
use voxbento.Connections.Revoke.{
  revocation_epoch, bump_epoch, all_sockets, revoke_matching, revoke_user_sessions,
}
use voxbento.Connections.Connect.{
  Credentials, Reading, Hub, begins, reads_user, finishes, revokes_user, begin_attempt,
  user_was_read, finish_attempt, attempt_of, new_manager, hub_step, hub_run,
}
use voxbento.Connections.Broadcast.{Answer, a_set, Checkers}
use voxbento.Connections.Effects.{is_live}
use voxbento.Connections.Barred.{is_live-revokes_user}

abbrev ada : User
ada = record {
  id = 7;
  email = codes "ada@x.org";
  display_name = codes "Ada";
  password_hash = none;
  email_verified = true;
  is_admin = false;
  is_active = true;
  can_host = false;
  hosting_requested_at = none;
  hosting_revoked_at = none;
  sessions_valid_after = none;
}

abbrev credentials : Credentials
credentials = record { booth_id = codes "b"; user_id = some 7; token_id = none; session_key = none }

abbrev reading : Reading
reading = record {
  invite_revoked = false;
  granted_role = some (codes "interpreter");
  language = none;
  connect_time = 90;
}

abbrev start : Hub
start = record { manager = new_manager 10; attempts = [] }

-- A connection that is accepted with nothing in between is live.
accepted :
    is_live 7 none 1
      (hub_run
        (begins 1 credentials ∷ reads_user 1 (some ada) ∷ finishes 1 reading ∷ [])
        start).manager
    ≡ true
unfolding hub_run hub_step begin_attempt user_was_read finish_attempt attempt_of revocation_epoch
    epoch_of add_session enter_room put_session get_session get put text_eq
accepted = refl

-- It is not registered where a revocation came in between.
is_live-revokes_user_example :
    is_live 7 none 1
      (hub_run
        ((begins 1 credentials ∷ [])
          ++ revokes_user 7 none ∷ reads_user 1 (some ada) ∷ finishes 1 reading ∷ [])
        start).manager
    ≡ false
is_live-revokes_user_example =
    is_live-revokes_user 7 none 1 10 (begins 1 credentials ∷ [])
      (reads_user 1 (some ada) ∷ finishes 1 reading ∷ []) refl (omega arith) refl

-- With room for one epoch only, a revocation is forgotten as soon as somebody else is revoked, and the
-- connection that it was meant for is registered.
forgotten :
    is_live 7 none 1
      (hub_run
        (begins 1 credentials
          ∷ revokes_user 7 none
          ∷ revokes_user 8 none
          ∷ reads_user 1 (some ada)
          ∷ finishes 1 reading
          ∷ [])
        (record { manager = new_manager 1; attempts = [] })).manager
    ≡ true
unfolding hub_run hub_step begin_attempt user_was_read finish_attempt attempt_of revocation_epoch
    revoke_user_sessions revoke_matching bump_epoch bump drop_key all_sockets revoke_all epoch_of
    add_session enter_room put_session get_session get put text_eq
forgotten = refl

-- Ada is in the booth, and the check of the members knows her.
abbrev ada_session : Session
ada_session = record {
  booth_id = codes "b";
  participant_id = none;
  language = none;
  channel_id = codes "c";
  granted_role = some (codes "interpreter");
  user_id = some 7;
  invite_token_id = none;
  revoked = false;
  session_key = none;
  issued_at = 90;
}

abbrev only_ada : Text → List ℕ → Option Answer
only_ada b ids = some (a_set (7 ∷ []))

abbrev checkers : Checkers
checkers = record { membership = some only_ada; invitation = none; cache_ttl = 5 }

abbrev occupied : ConnectionManager
occupied = record (new_manager 10) {
  rooms = (codes "b", 1 ∷ []) ∷ [];
  sessions = (1, ada_session) ∷ [];
}
