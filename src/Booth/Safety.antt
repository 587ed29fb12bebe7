-- ===== src/Booth/Safety.antt =====
-- Who can be heard in a booth: portal/booth_state.py.
use voxbento.Prelude.{
  ◌≡◌, ◌↔◌, sym, ap, subst, ◌∙◌, Bool, true, false, none, some, Option-cases, inl, inr, [], Text,
  text_eq_iff, opt_eq_iff, get, has, has_of_get, get_of_has, get-put, All-get, ok, arith,
}
use voxbento.Booth.{Participant, Booth, idle}
use voxbento.Booth.Calls.{
  Join, has_participant, joining_id, newcomer, join_participant, check_publish_permission,
}
use voxbento.Booth.Valid.{Fits, IsValid, is_on_air, is_filled, has_publisher}

-- A booth that nobody has joined.
pub record IsUnused (b : Booth) : Type 0 where
  pub nobody : b.participants ≡ []
  pub no_active : b.active_interpreter_id ≡ none
  pub no_handoff : b.handoff_state ≡ idle
  pub no_initiator : b.handoff_initiator_id ≡ none

pub IsUnused-IsValid : (b : Booth) → IsUnused b → IsValid b
IsUnused-IsValid b u = record {
  entries = rw u.nobody tt;
  filled = rw (u.no_active, u.nobody);
  negotiated = rw (u.no_handoff, u.no_initiator);
  reported = λ h. absurd_of (sym (ap has_publisher u.nobody) ∙ h);
}
  where
    absurd_of : {x : Bool} → false ≡ true → x ≡ false
    absurd_of h = cc

pub on_air_active :
    (b : Booth)
    → IsValid b
    → (k : Text) (p : Participant) → get k b.participants ≡ some p
    → is_on_air p ≡ true
    → b.active_interpreter_id ≡ some k
on_air_active b v k p g a =
    (opt_eq_iff b.active_interpreter_id (some k)).0
      ((All-get (Fits b.active_interpreter_id) k b.participants v.entries g).2 a)

-- In a valid booth a participant may publish exactly if they are the active interpreter.
pub check_publish_permission_iff :
    (id : Text) (b : Booth)
    → IsValid b
    → (check_publish_permission id b ≡ ok tt) ↔ (b.active_interpreter_id ≡ some id)
unfolding check_publish_permission
check_publish_permission_iff id b v = (
  (λ h. elim (Option-cases (get id b.participants)) [
    | inl e ↦ absurd (ground arith)
    | inr (p, e) ↦ ground (arith, opt_eq_iff b.active_interpreter_id (some id))
  ]),
  (λ h.
      let (p, e) =
        get_of_has id b.participants (subst (λ a. is_filled a b.participants ≡ true) h v.filled) in
      ground (
        arith,
        (All-get (Fits b.active_interpreter_id) id b.participants v.entries e).1,
        opt_eq_iff b.active_interpreter_id (some id),
      )),
)

joining_id_new :
    (j : Join) (b : Booth)
    → j.reclaim ≡ false
    → has j.fresh b.participants ≡ false
    → has (joining_id j b) b.participants ≡ false
unfolding joining_id has_participant
joining_id_new j b r f = elim (Option-cases j.participant_id) [
  | inl e ↦ ground arith
  | inr (x, e) ↦ ground arith
]

-- The record of somebody in the booth survives a join by anybody who does not re-claim it, whatever
-- ID the newcomer asks for, if the ID that the server makes up is new.
pub join_participant_keeps :
    (j : Join) (b : Booth) (k : Text) (p : Participant)
    → j.reclaim ≡ false
    → has j.fresh b.participants ≡ false
    → get k b.participants ≡ some p
    → get k (join_participant j b).1.participants ≡ some p
unfolding join_participant newcomer
join_participant_keeps j b k p r f g = ground (
  arith,
  get-put (joining_id j b) k (newcomer j b) b.participants,
  joining_id_new j b r f,
  has_of_get k b.participants p g,
  text_eq_iff (joining_id j b) k,
)
