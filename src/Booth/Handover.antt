-- ===== src/Booth/Handover.antt =====
-- The handoff of the microphone: portal/booth_state.py.
use voxbento.Prelude.{
  ◌≡◌, ◌⊎◌, refl, sym, ap, ◌∙◌, true, false, ◌&&◌, not, Option, some, Option-cases, Bool-cases, inl,
  inr, [], ◌∷◌, Text, text_eq, text_eq_iff, text_eq_refl, opt_eq, opt_eq_iff, is_empty, Dict, get,
  All, All-get, filter, values, ok, arith,
}
use voxbento.Roles.{can_go_live}
use voxbento.Booth.{Participant, Booth, refresh_ingest_status, offered, requested, is_idle}
use voxbento.Booth.Handoff.{
  make_active, accepted_by, initiate_handoff, accept_handoff, cancel_handoff,
}
use voxbento.Booth.Valid.{Fits, IsValid, is_on_air}
use voxbento.Booth.Switching.{
  initiate_handoff_ok, accept_handoff_ok, accept_handoff-IsValid, Accepted,
}
use voxbento.Booth.Safety.{on_air_active}
use mathlib.Core.Option.{some-injective}

-- Somebody else in the booth is one to hand over to.
others_nonempty :
    (active : Option Text) (ps : Dict Participant) (id k : Text) (p : Participant)
    → All (Fits active) ps
    → get k ps ≡ some p
    → text_eq k id ≡ false
    → is_empty
        (filter (λ q. can_go_live (some q.role) && not (text_eq q.participant_id id)) (values ps))
      ≡ false
unfolding get
others_nonempty active [] id k p a g n = cc
others_nonempty active ((i, q) ∷ ps) id k p (f, a) g n = elim (Bool-cases (text_eq i k)) [
  | inl y ↦ ground (
    arith,
    f.0,
    f.1,
    text_eq_iff i k,
    text_eq_iff q.participant_id i,
    text_eq_iff q.participant_id id,
    text_eq_iff k id,
  )
  | inr m ↦ ground (arith, others_nonempty active ps id k p a (ground arith) n)
]

module _ (b : Booth) (v : IsValid b) (free : is_idle b.handoff_state ≡ true) (a i : Text)
    (q p : Participant) (ga : get a b.participants ≡ some q) (gi : get i b.participants ≡ some p)
    (active : b.active_interpreter_id ≡ some a) (different : text_eq a i ≡ false) where
  asked : Booth
  asked = record b { handoff_state = requested; handoff_initiator_id = some i }

  offering : Booth
  offering = record b { handoff_state = offered; handoff_initiator_id = some a }

  ask : initiate_handoff i b ≡ ok asked
  unfolding initiate_handoff asked
  ask = ground (
    arith,
    (All-get (Fits b.active_interpreter_id) i b.participants v.entries gi).1,
    others_nonempty b.active_interpreter_id b.participants i a q v.entries ga different,
    opt_eq_iff b.active_interpreter_id (some i),
    text_eq_iff a i,
  )

  yields : (now : Text) → accept_handoff a now asked ≡ ok (make_active (some i) now asked)
  unfolding accept_handoff accepted_by asked
  yields now = ground (arith, opt_eq_iff b.active_interpreter_id (some a))

  offers : initiate_handoff a b ≡ ok offering
  unfolding initiate_handoff offering
  offers = ground (
    arith,
    (All-get (Fits b.active_interpreter_id) a b.participants v.entries ga).1,
    others_nonempty b.active_interpreter_id b.participants a i p v.entries gi
        (ground (arith, text_eq_iff a i, text_eq_iff i a)),
    opt_eq_iff b.active_interpreter_id (some a),
  )

  takes_over : (now : Text) → accept_handoff i now offering ≡ ok (make_active (some i) now offering)
  unfolding accept_handoff accepted_by offering
  takes_over now = ground (
    arith,
    (All-get (Fits b.active_interpreter_id) i b.participants v.entries gi).1,
    opt_eq_iff b.active_interpreter_id (some i),
    text_eq_iff a i,
    text_eq_iff i a,
  )

  become_active :
      (now : Text) (c : Booth) → (make_active (some i) now c).active_interpreter_id ≡ some i
  unfolding make_active refresh_ingest_status
  become_active now c = refl

-- A handoff works both ways: while none is in progress in a valid booth, another participant `i` can
-- ask and the active interpreter `a` accept, or `a` offer and `i` accept. Either way no call raises
-- and `i` is active in the end.
pub handoff_completes :
    (b : Booth) (a i : Text) (q p : Participant) (now : Text)
    → IsValid b
    → is_idle b.handoff_state ≡ true
    → get a b.participants ≡ some q
    → get i b.participants ≡ some p
    → b.active_interpreter_id ≡ some a
    → text_eq a i ≡ false
    → ((b1 : Booth) × (b2 : Booth) × (initiate_handoff i b ≡ ok b1)
        × (accept_handoff a now b1 ≡ ok b2)
        × (b2.active_interpreter_id ≡ some i))
      × ((b1 : Booth) × (b2 : Booth) × (initiate_handoff a b ≡ ok b1)
          × (accept_handoff i now b1 ≡ ok b2)
          × (b2.active_interpreter_id ≡ some i))
handoff_completes b a i q p now v free ga gi act diff = (
  (
    asked b v free a i q p ga gi act diff,
    make_active (some i) now (asked b v free a i q p ga gi act diff),
    ask b v free a i q p ga gi act diff,
    yields b v free a i q p ga gi act diff now,
    become_active b v free a i q p ga gi act diff now _,
  ),
  (
    offering b v free a i q p ga gi act diff,
    make_active (some i) now (offering b v free a i q p ga gi act diff),
    offers b v free a i q p ga gi act diff,
    takes_over b v free a i q p ga gi act diff now,
    become_active b v free a i q p ga gi act diff now _,
  ),
)

-- Cancelling a handoff that has just been initiated gives the booth back as it was.
pub cancel-initiate_handoff :
    (id : Text) (b b' : Booth)
    → IsValid b
    → initiate_handoff id b ≡ ok b'
    → cancel_handoff id b' ≡ ok b
unfolding cancel_handoff
cancel-initiate_handoff id b b' v h =
    ground (arith, initiate_handoff_ok id b b' h, v.negotiated, text_eq_refl id)

new_active :
    (id : Text) (b : Booth) (n : Option Text)
    → IsValid b
    → Accepted id b n
    → (t : Text) × (n ≡ some t)
      × (opt_eq b.active_interpreter_id (some t) ≡ false)
      × (((b.handoff_state ≡ offered) × (t ≡ id))
          ⊎ ((b.handoff_state ≡ requested)
              × (b.active_interpreter_id ≡ some id)
              × (b.handoff_initiator_id ≡ some t)))
new_active id b n v (inl (s, e, inactive)) = (id, e, inactive, inl (s, refl))
new_active id b n v (inr (s, e, active)) = elim (Option-cases b.handoff_initiator_id) [
  | inl missing ↦ absurd (ground (arith, v.negotiated))
  | inr (t, found) ↦ (
    t,
    e ∙ found,
    ground (arith, v.negotiated),
    inr (s, (opt_eq_iff b.active_interpreter_id (some id)).0 active, found),
  )
]

-- A completed handoff moves the microphone to the other side: an offer of the active interpreter to
-- the participant who accepts it, a request to its initiator with the consent of the active one. The
-- new active interpreter was not active before, and everyone else is off air.
pub accept_handoff_moves :
    (id now : Text) (b b' : Booth)
    → IsValid b
    → accept_handoff id now b ≡ ok b'
    → (n : Text) × (b'.active_interpreter_id ≡ some n)
      × (opt_eq b.active_interpreter_id (some n) ≡ false)
      × (((b.handoff_state ≡ offered) × (n ≡ id))
          ⊎ ((b.handoff_state ≡ requested)
              × (b.active_interpreter_id ≡ some id)
              × (b.handoff_initiator_id ≡ some n)))
      × ((k : Text) (p : Participant) → get k b'.participants ≡ some p → is_on_air p ≡ true → k ≡ n)
accept_handoff_moves id now b b' v h =
    let (n, e, present, _, accepted) = accept_handoff_ok id now b b' h in
    let (t, found, inactive, sides) = new_active id b n v accepted in
    let moved = ap (λ (c : Booth). c.active_interpreter_id) e ∙ became n now b ∙ found in
    (
      t,
      moved,
      inactive,
      sides,
      λ k p g air.
          some-injective _ _
            (sym (on_air_active b' (accept_handoff-IsValid id now b b' v h) k p g air) ∙ moved),
    )
  where
    became :
        (n : Option Text) (now : Text) (b : Booth) → (make_active n now b).active_interpreter_id ≡ n
    became n now b = unfold make_active refresh_ingest_status in refl
