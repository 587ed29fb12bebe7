-- ===== src/Booth/Leaving.antt =====
-- Lemmas on the validity of a booth for leaving: portal/booth_state.py.
use voxbento.Prelude.{
  ◌≡◌, refl, subst, Bool, true, ◌||◌, Option, none, some, Bool-cases, inl, inr, Text, text_eq,
  text_eq_iff, opt_eq, is_empty, if◌then◌else◌, Dict, values, has, remove, get, has-remove,
  has_of_get, All, arith,
}
use voxbento.Booth.{
  Participant, Booth, HandoffState, idle, offered, requested, disconnected, status_of,
  refresh_ingest_status, pick_next_interpreter, first_live,
}
use voxbento.Booth.Calls.{after_leave, leave_participant}
use voxbento.Booth.Valid.{Fits, is_filled, is_negotiated, IsValid}
use voxbento.Booth.Entries.{
  Fits-remove, Fits-remove_other, is_filled-first_live, has_publisher-remove, has_of_is_empty,
  is_empty-remove, silent_of_is_empty,
}

-- Whether the leaver takes a handoff along.
abbrev breaks : Text → Option Text → Option Text → Bool
breaks id active i = opt_eq active (some id) || opt_eq (some id) i

module _ (id : Text) (ps : Dict Participant) where
  -- The active slot after a participant has left.
  abbrev slot : Option Text → Option Text
  slot active = if opt_eq active (some id) then first_live (values (remove id ps)) else active

  slot_entries :
      (active : Option Text) → All (Fits active) ps → All (Fits (slot active)) (remove id ps)
  slot_entries none a = Fits-remove_other id none ps a
  slot_entries (some k) a = elim (Bool-cases (text_eq k id)) [
    | inr n ↦ rw n (Fits-remove_other id (some k) ps a)
    | inl y ↦ rw y (
        Fits-remove id (first_live (values (remove id ps))) ps
          (subst (λ j. All (Fits (some j)) ps) ((text_eq_iff k id).0 y) a))
  ]

  slot_filled :
      (active : Option Text)
      → All (Fits active) ps
      → is_filled active ps ≡ true
      → is_filled (slot active) (remove id ps) ≡ true
  slot_filled none a f = is_empty-remove id ps f
  slot_filled (some k) a f = elim (Bool-cases (text_eq k id)) [
    | inr n ↦ rw n (ground (arith, has-remove id k ps, text_eq_iff k id, text_eq_iff id k))
    | inl y ↦
        rw y (is_filled-first_live (some k) (remove id ps) (Fits-remove_other id (some k) ps a))
  ]

  -- The last participant to leave was the active one.
  last_was_active :
      (active : Option Text)
      → has id ps ≡ true
      → is_filled active ps ≡ true
      → is_empty (remove id ps) ≡ true
      → opt_eq active (some id) ≡ true
  last_was_active none h f e = absurd (ground (arith, has_of_is_empty id ps))
  last_was_active (some k) h f e = ground (
    arith,
    has-remove id k ps,
    has_of_is_empty k (remove id ps),
    text_eq_iff k id,
    text_eq_iff id k,
  )

  handoff_after :
      (s : HandoffState) (i active : Option Text)
      → is_negotiated s i active ps ≡ true
      → is_negotiated
          (if breaks id active i then idle else s)
          (if breaks id active i then none else i)
          (slot active)
          (remove id ps)
        ≡ true
  handoff_after idle none active h = ground arith
  handoff_after idle (some i) active h = cc
  handoff_after offered none active h = cc
  handoff_after requested none active h = cc
  handoff_after offered (some i) active h = ground arith
  handoff_after requested (some i) active h = ground (arith, has-remove id i ps, text_eq_iff id i)

-- The fields of the booth after a participant has left, each by itself.
after_leave_fields : Text → Participant → Booth → Booth
after_leave_fields id p b =
    let gone = breaks id active_interpreter_id handoff_initiator_id in
    let refreshed = if p.ingest_connected then status_of participants else ingest_status in
    record b {
      active_interpreter_id =
          if opt_eq active_interpreter_id (some id)
          then first_live (values participants)
          else active_interpreter_id;
      handoff_state = if is_empty participants then idle else if gone then idle else handoff_state;
      handoff_initiator_id = if gone then none else handoff_initiator_id;
      ingest_status = if is_empty participants then disconnected else refreshed;
    }
  where
    open b use {
      active_interpreter_id, handoff_state, handoff_initiator_id, participants, ingest_status,
    }

after_leave-fields :
    (id : Text) (p : Participant) (b : Booth) → after_leave id p b ≡ after_leave_fields id p b
unfolding after_leave after_leave_fields pick_next_interpreter refresh_ingest_status
after_leave-fields id p b = ground arith

module _ (id : Text) (p : Participant) (b : Booth) (v : IsValid b)
    (e : get id b.participants ≡ some p) where
  after_leave_fields-IsValid :
      IsValid (after_leave_fields id p (record b { participants = remove id b.participants }))
  unfolding after_leave_fields
  after_leave_fields-IsValid = record {
    entries = slot_entries id b.participants b.active_interpreter_id v.entries;
    filled = slot_filled id b.participants b.active_interpreter_id v.entries v.filled;
    negotiated = elim (Bool-cases (is_empty (remove id b.participants))) [
      | inl none_left ↦
          let was =
            last_was_active id b.participants b.active_interpreter_id
              (has_of_get id b.participants p e) v.filled none_left in
          rw (none_left, was)
      | inr some_left ↦ rw some_left (
          handoff_after id b.participants b.handoff_state b.handoff_initiator_id
            b.active_interpreter_id v.negotiated)
    ];
    reported = λ h. ground (
      arith,
      silent_of_is_empty (remove id b.participants),
      has_publisher-remove id b.participants,
      v.reported,
    );
  }

  after_leave-IsValid :
      IsValid (after_leave id p (record b { participants = remove id b.participants }))
  after_leave-IsValid =
      rw (after_leave-fields id p (record b { participants = remove id b.participants }))
        after_leave_fields-IsValid

pub leave_participant-IsValid :
    (id : Text) (b : Booth) → IsValid b → IsValid (leave_participant id b)
unfolding leave_participant
leave_participant-IsValid id b v = left (get id b.participants) refl
  where
    left :
        (o : Option Participant)
        → get id b.participants ≡ o
        → IsValid (elim o [
          | none ↦ b
          | some p ↦ after_leave id p (record b { participants = remove id b.participants })
        ])
    left none e = v
    left (some p) e = after_leave-IsValid id p b v e
