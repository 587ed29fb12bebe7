-- ===== src/Booth/Entries.antt =====
-- The entries of a booth under the changes that the methods make to `participants`.
use voxbento.Prelude.{
  ◌≡◌, refl, Bool, true, false, Option, none, some, [], ◌∷◌, Text, text_eq, text_eq_iff,
  text_eq_refl, opt_eq, is_empty, Dict, values, has, map_values, remove, put, has-map_values,
  has-put, All, All-mono, All-map_values, All-remove, arith,
}
use voxbento.Booth.{
  Participant, HandoffState, idle, offered, requested, status_of, first_live, keep_on_air, off_air,
}
use voxbento.Booth.Handoff.{keep_active}
use voxbento.Booth.Valid.{Fits, is_filled, is_negotiated, is_disconnected, has_publisher}

-- Nobody is on air in a booth with a free slot, so the slot may be given to anybody.
pub Fits-none :
    (active : Option Text) (ps : Dict Participant) → All (Fits none) ps → All (Fits active) ps
Fits-none active = All-mono (Fits none) (Fits active) (λ k p f. (f.0, f.1, λ h. absurd_of (f.2 h)))
  where
    absurd_of : {b : Bool} → false ≡ true → b ≡ true
    absurd_of h = cc

-- Without the active interpreter nobody is on air.
pub Fits-remove :
    (id : Text) (active : Option Text) (ps : Dict Participant)
    → All (Fits (some id)) ps
    → All (Fits active) (remove id ps)
Fits-remove id active ps a =
    All-mono (λ k p. Fits (some id) k p × (text_eq k id ≡ false)) (Fits active)
      (λ k p f. (f.0.0, f.0.1, λ h. off k (f.0.2 h) f.1)) (remove id ps)
      (All-remove (Fits (some id)) id ps a)
  where
    off : (k : Text) → text_eq id k ≡ true → text_eq k id ≡ false → opt_eq active (some k) ≡ true
    off k h n = ground (arith, text_eq_iff id k, text_eq_iff k id)

pub Fits-remove_other :
    (id : Text) (active : Option Text) (ps : Dict Participant)
    → All (Fits active) ps
    → All (Fits active) (remove id ps)
Fits-remove_other id active ps a =
    All-mono (λ k p. Fits active k p × (text_eq k id ≡ false)) (Fits active) (λ k p f. f.0)
      (remove id ps) (All-remove (Fits active) id ps a)

keep_on_air-Fits :
    (active : Option Text) (target now : Text) (k : Text) (p : Participant)
    → Fits active k p
    → Fits (some target) k (keep_on_air target now p)
unfolding keep_on_air
keep_on_air-Fits active target now k p f = (
  f.0,
  f.1,
  λ h. ground (
    arith,
    text_eq_iff p.participant_id target,
    text_eq_iff p.participant_id k,
    text_eq_iff target k,
  ),
)

-- After a change of the active interpreter only they can be on air.
pub Fits-keep_active :
    (active target : Option Text) (now : Text) (ps : Dict Participant)
    → All (Fits active) ps
    → All (Fits target) (map_values (keep_active target now) ps)
unfolding keep_active
Fits-keep_active active none now =
    All-map_values (Fits active) (Fits none) (keep_active none now) (λ k p f. (f.0, f.1, λ h. cc))
Fits-keep_active active (some target) now =
    All-map_values (Fits active) (Fits (some target)) (keep_active (some target) now)
      (keep_on_air-Fits active target now)

pub Fits-off_air :
    (active : Option Text) (now : Text) (ps : Dict Participant)
    → All (Fits active) ps
    → All (Fits active) (map_values (off_air now) ps)
unfolding off_air
Fits-off_air active now =
    All-map_values (Fits active) (Fits active) (off_air now) (λ k p f. (f.0, f.1, λ h. cc))

pub off_air-silent :
    (now : Text) (ps : Dict Participant) → has_publisher (map_values (off_air now) ps) ≡ false
unfolding off_air
off_air-silent now [] = refl
off_air-silent now ((k, p) ∷ ps) = off_air-silent now ps

-- The next interpreter that `_pick_next_interpreter` finds is in the booth.
pub is_filled-first_live :
    (active : Option Text) (ps : Dict Participant)
    → All (Fits active) ps
    → is_filled (first_live (values ps)) ps ≡ true
unfolding first_live has
is_filled-first_live active [] a = refl
is_filled-first_live active ((k, p) ∷ ps) (f, a) =
    ground (arith, f.0, f.1, text_eq_iff p.participant_id k, text_eq_refl k)

pub status_of_reported :
    (ps : Dict Participant) → has_publisher ps ≡ true → is_disconnected (status_of ps) ≡ false
status_of_reported ps h = rw h

-- The loops over `participants` keep who is there.
pub is_filled-map_values :
    (f : Participant → Participant) (active : Option Text) (ps : Dict Participant)
    → is_filled active (map_values f ps) ≡ is_filled active ps
is_filled-map_values f none [] = refl
is_filled-map_values f none (e ∷ ps) = refl
is_filled-map_values f (some a) ps = has-map_values f a ps

pub is_negotiated-map_values :
    (f : Participant → Participant) (s : HandoffState) (i active : Option Text)
    (ps : Dict Participant)
    → is_negotiated s i active (map_values f ps) ≡ is_negotiated s i active ps
is_negotiated-map_values f requested (some i) active ps = rw (has-map_values f i ps)
is_negotiated-map_values f idle (some i) active ps = refl
is_negotiated-map_values f offered (some i) active ps = refl
is_negotiated-map_values f s none active ps = no_initiator f s active ps
  where
    no_initiator :
        (f : Participant → Participant) (s : HandoffState) (active : Option Text)
        (ps : Dict Participant)
        → is_negotiated s none active (map_values f ps) ≡ is_negotiated s none active ps
    no_initiator f idle active ps = refl
    no_initiator f offered active ps = refl
    no_initiator f requested active ps = refl

-- A record that replaces another, or is new, and does not publish.
pub has_publisher-put :
    (k : Text) (p : Participant) (ps : Dict Participant)
    → p.ingest_connected ≡ false
    → has_publisher (put k p ps) ≡ true
    → has_publisher ps ≡ true
unfolding put
has_publisher-put k p [] h r = ground arith
has_publisher-put k p ((i, q) ∷ ps) h r = ground (arith, has_publisher-put k p ps h)

pub has_publisher-remove :
    (k : Text) (ps : Dict Participant)
    → has_publisher (remove k ps) ≡ true
    → has_publisher ps ≡ true
unfolding remove
has_publisher-remove k [] r = r
has_publisher-remove k ((i, q) ∷ ps) r = ground (arith, has_publisher-remove k ps)

pub has_of_is_empty : (k : Text) (ps : Dict Participant) → is_empty ps ≡ true → has k ps ≡ false
unfolding has
has_of_is_empty k [] h = refl
has_of_is_empty k (e ∷ ps) h = cc

pub silent_of_is_empty : (ps : Dict Participant) → is_empty ps ≡ true → has_publisher ps ≡ false
silent_of_is_empty [] h = refl
silent_of_is_empty (e ∷ ps) h = cc

-- Nor does a write to `participants` lose anybody; where nobody was, the slot must be free.
pub is_filled-put :
    (k : Text) (p : Participant) (active : Option Text) (ps : Dict Participant)
    → has k ps ≡ true
    → is_filled active ps ≡ true
    → is_filled active (put k p ps) ≡ true
is_filled-put k p none ps h f = absurd (ground (arith, has_of_is_empty k ps))
is_filled-put k p (some a) ps h f = ground (arith, has-put k a p ps)

pub is_negotiated-put :
    (k : Text) (p : Participant) (s : HandoffState) (i active : Option Text) (ps : Dict Participant)
    → is_negotiated s i active ps ≡ true
    → is_negotiated s i active (put k p ps) ≡ true
is_negotiated-put k p idle none active ps h = refl
is_negotiated-put k p offered (some i) active ps h = h
is_negotiated-put k p requested (some i) active ps h = ground (arith, has-put k i p ps)
is_negotiated-put k p idle (some i) active ps h = cc
is_negotiated-put k p offered none active ps h = cc
is_negotiated-put k p requested none active ps h = cc

pub is_empty-remove :
    (k : Text) (ps : Dict Participant) → is_empty ps ≡ true → is_empty (remove k ps) ≡ true
unfolding remove
is_empty-remove k [] h = refl
is_empty-remove k (e ∷ ps) h = cc
