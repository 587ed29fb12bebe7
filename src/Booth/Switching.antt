-- ===== src/Booth/Switching.antt =====
-- Lemmas on the validity of a booth for a change of the active interpreter and for the handoff: portal/booth_state.py.
use voxbento.Prelude.{
  ◌≡◌, ◌⊎◌, refl, subst, true, false, Option, none, some, Option-cases, inl, inr, Text, opt_eq,
  if◌then◌else◌, Dict, has, map_values, get, has_of_get, has-map_values, ok, Result-cases, arith,
}
use voxbento.Booth.{Participant, Booth, HandoffState, idle, offered, requested, is_idle}
use voxbento.Booth.Handoff.{
  make_active, keep_active, set_active_interpreter, initiate_handoff, accepted_by, accept_handoff,
  cancel_handoff,
}
use voxbento.Booth.Valid.{is_filled, is_negotiated, IsValid}
use voxbento.Booth.Entries.{Fits-keep_active, status_of_reported, is_filled-map_values}

-- A change of the active interpreter to somebody in the booth.
make_active-IsValid :
    (target : Option Text) (now : Text) (b : Booth)
    → IsValid b
    → is_filled target (map_values (keep_active target now) b.participants) ≡ true
    → IsValid (make_active target now b)
unfolding make_active
make_active-IsValid target now b v h = record {
  entries = Fits-keep_active b.active_interpreter_id target now b.participants v.entries;
  filled = h;
  negotiated = refl;
  reported = status_of_reported (map_values (keep_active target now) b.participants);
}

make_present-IsValid :
    (target now : Text) (b : Booth)
    → IsValid b
    → has target b.participants ≡ true
    → IsValid (make_active (some target) now b)
make_present-IsValid target now b v h =
    make_active-IsValid (some target) now b v
      (rw (has-map_values (keep_active (some target) now) target b.participants) h)

pub set_active_interpreter_ok :
    (requester target now : Text) (b b' : Booth)
    → set_active_interpreter requester target now b ≡ ok b'
    → (has target b.participants ≡ true) × (b' ≡ make_active (some target) now b)
unfolding set_active_interpreter
set_active_interpreter_ok requester target now b b' h =
    elim (Option-cases (get target b.participants)) [
      | inl e ↦ ground arith
      | inr (t, e) ↦ ground (arith, has_of_get target b.participants t e)
    ]

pub set_active_interpreter-IsValid :
    (requester target now : Text) (b b' : Booth)
    → IsValid b
    → set_active_interpreter requester target now b ≡ ok b'
    → IsValid b'
set_active_interpreter-IsValid requester target now b b' v h =
    let (present, e) = set_active_interpreter_ok requester target now b b' h in
    rw e (make_present-IsValid target now b v present)

-- Whom an accepted handoff makes active: an offer the acceptor, a request its initiator.
abbrev pub Accepted : Text → Booth → Option Text → Type 0
Accepted id b new_active =
    ((b.handoff_state ≡ offered)
      × (new_active ≡ some id)
      × (opt_eq b.active_interpreter_id (some id) ≡ false))
    ⊎ ((b.handoff_state ≡ requested)
        × (new_active ≡ b.handoff_initiator_id)
        × (opt_eq b.active_interpreter_id (some id) ≡ true))

accepted_by_ok :
    (s : HandoffState) (id : Text) (p : Participant) (b : Booth) (new_active : Option Text)
    → b.handoff_state ≡ s
    → accepted_by s id p b ≡ ok new_active
    → Accepted id b new_active
unfolding accepted_by
accepted_by_ok idle id p b n e h = cc
accepted_by_ok offered id p b n e h = inl (e, ground arith, ground arith)
accepted_by_ok requested id p b n e h = inr (e, ground arith, ground arith)

pub accept_handoff_ok :
    (id now : Text) (b b' : Booth)
    → accept_handoff id now b ≡ ok b'
    → (new_active : Option Text) × (b' ≡ make_active new_active now b)
      × (has id b.participants ≡ true)
      × (opt_eq (some id) b.handoff_initiator_id ≡ false)
      × Accepted id b new_active
unfolding accept_handoff
accept_handoff_ok id now b b' h = elim (Option-cases (get id b.participants)) [
  | inl e ↦ absurd (ground arith)
  | inr (p, e) ↦ elim (Result-cases (accepted_by b.handoff_state id p b)) [
    | inr (x, r) ↦ absurd (ground arith)
    | inl (n, r) ↦ (
      n,
      ground arith,
      has_of_get id b.participants p e,
      ground arith,
      accepted_by_ok b.handoff_state id p b n refl r,
    )
  ]
]

-- The new active interpreter of an accepted handoff is in the booth.
Accepted-present :
    (id : Text) (b : Booth) (new_active : Option Text)
    → IsValid b
    → has id b.participants ≡ true
    → Accepted id b new_active
    → is_filled new_active b.participants ≡ true
Accepted-present id b n v present (inl (s, e, _)) = rw e present
Accepted-present id b n v present (inr (s, e, _)) = rw e (
    initiated b.handoff_initiator_id b.active_interpreter_id b.participants (
      subst
        (λ t. is_negotiated t b.handoff_initiator_id b.active_interpreter_id b.participants ≡ true)
        s v.negotiated))
  where
    initiated :
        (i active : Option Text) (ps : Dict Participant)
        → is_negotiated requested i active ps ≡ true
        → is_filled i ps ≡ true
    initiated none active ps h = cc
    initiated (some i) active ps h = ground arith

pub accept_handoff-IsValid :
    (id now : Text) (b b' : Booth) → IsValid b → accept_handoff id now b ≡ ok b' → IsValid b'
accept_handoff-IsValid id now b b' v h =
    let (n, e, present, _, accepted) = accept_handoff_ok id now b b' h in
    rw e (
      make_active-IsValid n now b v (
        rw (is_filled-map_values (keep_active n now) n b.participants)
          (Accepted-present id b n v present accepted)))

pub initiate_handoff_ok :
    (id : Text) (b b' : Booth)
    → initiate_handoff id b ≡ ok b'
    → (has id b.participants ≡ true)
      × (is_idle b.handoff_state ≡ true)
      × (b' ≡ record b {
        handoff_state = if opt_eq b.active_interpreter_id (some id) then offered else requested;
        handoff_initiator_id = some id;
      })
unfolding initiate_handoff
initiate_handoff_ok id b b' h = elim (Option-cases (get id b.participants)) [
  | inl e ↦ ground arith
  | inr (p, e) ↦ ground (arith, has_of_get id b.participants p e)
]

pub initiate_handoff-IsValid :
    (id : Text) (b b' : Booth) → IsValid b → initiate_handoff id b ≡ ok b' → IsValid b'
initiate_handoff-IsValid id b b' v h =
    let (present, free, e) = initiate_handoff_ok id b b' h in
    rw e (record {
      entries = v.entries;
      filled = v.filled;
      negotiated = ground arith;
      reported = v.reported;
    })

pub cancel_handoff-IsValid :
    (id : Text) (b b' : Booth) → IsValid b → cancel_handoff id b ≡ ok b' → IsValid b'
unfolding cancel_handoff
cancel_handoff-IsValid id b b' v h = ground (arith, v)
