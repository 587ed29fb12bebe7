-- ===== src/Booth/Entering.antt =====
-- Lemmas on the validity of a booth for joining, a change of flags and the broadcast lock: portal/booth_state.py.
use voxbento.Prelude.{
  ◌≡◌, refl, Bool, true, false, ◌||◌, Option, none, some, Option-cases, inl, inr, Text,
  text_eq_refl, opt_eq, if◌then◌else◌, Dict, put, get, has-put, has_of_get, All, All-put, All-get,
  ok, arith,
}
use voxbento.Roles.{can_go_live}
use voxbento.Booth.{
  Participant, Booth, HandoffState, idle, offered, requested, refresh_ingest_status, off_air,
}
use voxbento.Booth.Calls.{
  Join, joining_id, newcomer, active_after_join, join_participant, set_broadcast_unlocked, Flags,
  Flag, is_set, assign, wants_publisher_state, update_participant_state,
}
use voxbento.Booth.Valid.{is_on_air, Fits, is_filled, is_negotiated, IsValid}
use voxbento.Booth.Entries.{
  Fits-none, Fits-off_air, off_air-silent, status_of_reported, is_filled-map_values,
  is_negotiated-map_values, has_publisher-put, is_filled-put, is_negotiated-put, has_of_is_empty,
}

pub set_broadcast_unlocked-IsValid :
    (unlocked : Bool) (now : Text) (b : Booth)
    → IsValid b
    → IsValid (set_broadcast_unlocked unlocked now b)
unfolding set_broadcast_unlocked
set_broadcast_unlocked-IsValid true now b v = record {
  entries = v.entries;
  filled = v.filled;
  negotiated = v.negotiated;
  reported = v.reported;
}
set_broadcast_unlocked-IsValid false now b v = record {
  entries = Fits-off_air b.active_interpreter_id now b.participants v.entries;
  filled = rw (is_filled-map_values (off_air now) b.active_interpreter_id b.participants) v.filled;
  negotiated =
      rw
        (is_negotiated-map_values (off_air now) b.handoff_state b.handoff_initiator_id
          b.active_interpreter_id b.participants)
        v.negotiated;
  reported = λ h. ground (arith, off_air-silent now b.participants);
}

-- The record that `update_participant_state` writes.
pub updated : Flags → Text → Participant → Participant
updated f now p = record p {
  mic_active = assign f.mic_active p.mic_active;
  ingest_connected = assign f.ingest_connected p.ingest_connected;
  connected = assign f.connected p.connected;
  updated_at = now;
}

pub update_participant_state_ok :
    (id : Text) (f : Flags) (now : Text) (b b' : Booth)
    → update_participant_state id f now b ≡ ok b'
    → (p : Participant) × (get id b.participants ≡ some p)
      × (wants_publisher_state f ≡ true → opt_eq b.active_interpreter_id (some id) ≡ true)
      × (b'
          ≡ refresh_ingest_status
              (record b { participants = put id (updated f now p) b.participants }))
unfolding update_participant_state updated
update_participant_state_ok id f now b b' h = elim (Option-cases (get id b.participants)) [
  | inl e ↦ absurd (ground arith)
  | inr (p, e) ↦ (p, e, (λ w. ground arith), ground arith)
]

updated-Fits :
    (active : Option Text) (id : Text) (f : Flags) (now : Text) (p : Participant)
    → (wants_publisher_state f ≡ true → opt_eq active (some id) ≡ true)
    → Fits active id p
    → Fits active id (updated f now p)
unfolding updated
updated-Fits active id f now p w (same, live, air) =
    (same, live, on_air f.mic_active f.ingest_connected p.mic_active p.ingest_connected w air)
  where
    on_air :
        (m i : Flag) (pm pi : Bool) {c : Bool}
        → ((is_set m || is_set i) ≡ true → c ≡ true)
        → ((pm || pi) ≡ true → c ≡ true)
        → (assign m pm || assign i pi) ≡ true
        → c ≡ true
    on_air m i pm pi w a h = ground arith

pub update_participant_state-IsValid :
    (id : Text) (f : Flags) (now : Text) (b b' : Booth)
    → IsValid b
    → update_participant_state id f now b ≡ ok b'
    → IsValid b'
unfolding refresh_ingest_status
update_participant_state-IsValid id f now b b' v h =
    let (p, e, w, eq) = update_participant_state_ok id f now b b' h in
    let fits =
      updated-Fits b.active_interpreter_id id f now p w
        (All-get (Fits b.active_interpreter_id) id b.participants v.entries e) in
    rw eq (record {
      entries =
          All-put (Fits b.active_interpreter_id) id (updated f now p) b.participants fits v.entries;
      filled =
          is_filled-put id (updated f now p) b.active_interpreter_id b.participants
            (has_of_get id b.participants p e) v.filled;
      negotiated =
          is_negotiated-put id (updated f now p) b.handoff_state b.handoff_initiator_id
            b.active_interpreter_id b.participants v.negotiated;
      reported = status_of_reported (put id (updated f now p) b.participants);
    })

module _ (id role : Text) (p : Participant) (ps : Dict Participant) where
  join_filled :
      (active : Option Text)
      → can_go_live (some role) ≡ true
      → is_filled active ps ≡ true
      → is_filled (active_after_join active role id) (put id p ps) ≡ true
  unfolding active_after_join
  join_filled none live h = rw live (ground (arith, has-put id id p ps, text_eq_refl id))
  join_filled (some a) live h = ground (arith, has-put id a p ps)

  join_negotiated :
      (s : HandoffState) (i active : Option Text)
      → is_filled active ps ≡ true
      → is_negotiated s i active ps ≡ true
      → is_negotiated s i (active_after_join active role id) (put id p ps) ≡ true
  unfolding active_after_join
  join_negotiated idle none active f h = refl
  join_negotiated idle (some i) active f h = cc
  join_negotiated offered none active f h = cc
  join_negotiated offered (some i) none f h = cc
  join_negotiated offered (some i) (some a) f h = h
  join_negotiated requested none active f h = cc
  join_negotiated requested (some i) none f h = ground (arith, has_of_is_empty i ps)
  join_negotiated requested (some i) (some a) f h = ground (arith, has-put id i p ps)

  join_entries :
      (active : Option Text)
      → Fits active id p
      → All (Fits active) ps
      → is_on_air p ≡ false
      → All (Fits (active_after_join active role id)) (put id p ps)
  unfolding active_after_join
  join_entries none fits h off =
      Fits-none (if can_go_live (some role) then some id else none) (put id p ps)
        (All-put (Fits none) id p ps fits h)
  join_entries (some a) fits h off = All-put (Fits (some a)) id p ps fits h

pub join_participant-IsValid :
    (j : Join) (b : Booth)
    → can_go_live (some j.role) ≡ true
    → IsValid b
    → IsValid (join_participant j b).1
unfolding join_participant newcomer
join_participant-IsValid j b live v = record {
  entries =
      join_entries (joining_id j b) j.role (newcomer j b) b.participants b.active_interpreter_id
        (text_eq_refl (joining_id j b), live, λ h. cc) v.entries refl;
  filled =
      join_filled (joining_id j b) j.role (newcomer j b) b.participants b.active_interpreter_id live
        v.filled;
  negotiated =
      join_negotiated (joining_id j b) j.role (newcomer j b) b.participants b.handoff_state
        b.handoff_initiator_id b.active_interpreter_id v.filled v.negotiated;
  reported =
      λ h. v.reported (has_publisher-put (joining_id j b) (newcomer j b) b.participants refl h);
}
