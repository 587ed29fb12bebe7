-- ===== src/Booth/Handoff.antt =====
-- portal/booth_state.py: choosing the active interpreter and the handoff between two of them.
use voxbento.Prelude.{
  false, ◌&&◌, not, Option, none, some, List, Text, ◌==◌, text_has_eq, opt_has_eq, is_empty,
  if◌then◌else◌, filter, get, values, map_values, Result, ok, err, value_error, permission_error,
  raise_if, ◌>>=◌, ◌>>◌,
}
use voxbento.Roles.{can_go_live, can_set_active}
use voxbento.Booth.{
  Participant, HandoffState, idle, offered, requested, is_idle, Booth, refresh_ingest_status,
  keep_on_air,
}

-- `p.participant_id == new_active` holds of nobody where `new_active` is `None`.
unfoldable pub keep_active : Option Text → Text → Participant → Participant
unfolding keep_on_air
keep_active none now p = record p { mic_active = false; ingest_connected = false; updated_at = now }
keep_active (some target) now p = keep_on_air target now p

-- The end of `set_active_interpreter` and of `accept_handoff`.
unfoldable pub make_active : Option Text → Text → Booth → Booth
unfolding refresh_ingest_status
make_active new_active now b = refresh_ingest_status (record b {
  active_interpreter_id = new_active;
  handoff_state = idle;
  handoff_initiator_id = none;
  participants = map_values (keep_active new_active now) b.participants;
})

unfoldable pub set_active_interpreter : Text → Text → Text → Booth → Result Booth
set_active_interpreter requester_id target_id now b = elim (get requester_id b.participants) [
  | none ↦ err (value_error "Requester or target participant does not exist in this booth.")
  | some requester ↦ elim (get target_id b.participants) [
    | none ↦ err (value_error "Requester or target participant does not exist in this booth.")
    | some target ↦ do
      raise_if (not (can_go_live (some target.role)))
          (value_error "Only people who can go live can be set active.")
      raise_if
          (not (can_set_active (some requester.role))
            && not (b.active_interpreter_id == some requester_id))
          (permission_error
            "Only room coordinators, event owners, Admins or the active interpreter can reassign another interpreter.")
      ok (make_active (some target_id) now b)
  ]
]

-- Those to whom `requester_id` could hand over.
abbrev pub other_interpreters : Text → Booth → List Participant
other_interpreters requester_id b =
    filter (λ p. can_go_live (some p.role) && not (p.participant_id == requester_id))
      (values b.participants)

unfoldable pub initiate_handoff : Text → Booth → Result Booth
initiate_handoff requester_id b = elim (get requester_id b.participants) [
  | none ↦ err (value_error "Requester is not in this booth.")
  | some requester ↦ do
    raise_if (not (can_go_live (some requester.role)))
        (permission_error "Only interpreters and coordinators can initiate handoffs.")
    raise_if (not (is_idle b.handoff_state)) (value_error "A handoff is already in progress.")
    raise_if (is_empty (other_interpreters requester_id b))
        (value_error "No other interpreter in the booth to hand off to.")
    ok (record b {
      handoff_state = if b.active_interpreter_id == some requester_id then offered else requested;
      handoff_initiator_id = some requester_id;
    })
]

-- Who becomes active, by the state of the handoff. A requested handoff gives the mic to its
-- initiator, who may be `None` as far as this code goes.
unfoldable pub accepted_by : HandoffState → Text → Participant → Booth → Result (Option Text)
accepted_by offered acceptor_id acceptor b = do
  raise_if (b.active_interpreter_id == some acceptor_id)
      (value_error "Active interpreter cannot accept an offer they did not initiate.")
  raise_if (not (can_go_live (some acceptor.role)))
      (permission_error "Only interpreters and coordinators can take over the mic.")
  ok (some acceptor_id)
accepted_by requested acceptor_id acceptor b = do
  raise_if (not (b.active_interpreter_id == some acceptor_id))
      (value_error "Only the active interpreter can yield the mic.")
  ok b.handoff_initiator_id
accepted_by idle acceptor_id acceptor b = err (value_error "No handoff is in progress.")

unfoldable pub accept_handoff : Text → Text → Booth → Result Booth
accept_handoff acceptor_id now b = elim (get acceptor_id b.participants) [
  | none ↦ err (value_error "Acceptor is not in this booth.")
  | some acceptor ↦ do
    raise_if (is_idle b.handoff_state) (value_error "No handoff is in progress.")
    raise_if (some acceptor_id == b.handoff_initiator_id)
        (value_error "The initiator cannot accept their own handoff.")
    new_active ← accepted_by b.handoff_state acceptor_id acceptor b
    ok (make_active new_active now b)
]

unfoldable pub cancel_handoff : Text → Booth → Result Booth
cancel_handoff requester_id b = if is_idle b.handoff_state then ok b else do
  raise_if (not (b.handoff_initiator_id == some requester_id))
      (permission_error "Only the handoff initiator can cancel.")
  ok (record b { handoff_state = idle; handoff_initiator_id = none })
