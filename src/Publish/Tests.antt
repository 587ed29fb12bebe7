-- ===== src/Publish/Tests.antt =====
-- Runs and witnesses for portal/booth_publish.py, with the identity for SHA-256.
use voxbento.Prelude.{
  ◌≡◌, ◌≤◌, ◌<◌, ◌↔◌, refl, true, false, none, some, [], ◌∷◌, Text, codes, text_eq, get, has,
  remove, ok, arith, length,
}
use voxbento.Identity.{primary, nonneg}
use voxbento.Roles.{interpreter, can_go_live, has_permission}
use voxbento.Booth.{Booth, Participant, idle, disconnected}
use voxbento.Booth.Calls.{check_publish_permission}
use voxbento.Booth.Valid.{IsValid}
use voxbento.Registry.{Registry}
use voxbento.Publish.{
  PublishTicket, max_tickets, denied, redeemed, issue_ticket, redeem_ticket, check_ticket,
  still_entitled, get_booth_sync, answered, authorize_booth_publish,
}
use voxbento.Publish.Tickets.{
  issuing, run_tickets, length-run_tickets, redeem_once, redeem-issue_ticket,
}
use voxbento.Publish.Entitled.{still_entitled_iff, authorize_booth_publish_ok}

abbrev raw : Text → Text
raw s = s

abbrev ada : Participant
ada = record {
  participant_id = codes "ada";
  display_name = codes "Ada";
  role = interpreter;
  language = codes "en";
  channel_id = codes "booth";
  mic_active = false;
  ingest_connected = false;
  connected = true;
  joined_at = codes "9:00";
  updated_at = codes "9:00";
  joined_by = none;
}

abbrev live_booth : Booth
live_booth = record {
  booth_id = codes "pycon-1-en";
  event_slug = codes "pycon";
  language_code = codes "en";
  language = codes "English";
  channel_id = codes "booth";
  inst = primary;
  mediamtx_path = codes "pycon/1/en";
  room_id = some (nonneg 1);
  active_interpreter_id = some (codes "ada");
  handoff_state = idle;
  handoff_initiator_id = none;
  broadcast_unlocked = true;
  participants = (codes "ada", ada) ∷ [];
  chat_messages = [];
  ingest_status = disconnected;
}

abbrev registry : Registry
registry = (codes "pycon-1-en", live_booth) ∷ []

live_booth-IsValid : IsValid live_booth
unfolding text_eq has can_go_live
live_booth-IsValid = record {
  entries = ((refl, refl, λ h. refl), tt);
  filled = refl;
  negotiated = refl;
  reported = λ h. absurd (cc);
}

abbrev ticket : PublishTicket
ticket = record {
  booth_id = codes "pycon-1-en";
  participant_id = codes "ada";
  path = codes "pycon/1/en";
  expires_at = 130;
}

-- A stream for a fresh ticket is let through once.
once :
    (authorize_booth_publish raw
        (codes "pycon/1/en")
        (codes "s")
        110
        registry
        ((codes "s", ticket) ∷ [])
      ≡ (answered true, []))
    × (authorize_booth_publish raw (codes "pycon/1/en") (codes "s") 110 registry []
        ≡ (answered false, []))
unfolding authorize_booth_publish redeem_ticket check_ticket still_entitled get_booth_sync
    has_permission get remove text_eq
once = (refl, refl)

redeem_once_example :
    (redeem_ticket raw (codes "s") (codes "pycon/1/en") 112 (
      run_tickets raw
        (issuing (codes "b") (codes "p") (codes "q") (codes "other") 111 ∷ [])
        (redeem_ticket raw (codes "s") (codes "wrong") 110 ((codes "s", ticket) ∷ [])).1)).0
    ≡ denied
unfolding text_eq
redeem_once_example =
    redeem_once raw (codes "s") (codes "wrong") (codes "pycon/1/en") 110 112
      (issuing (codes "b") (codes "p") (codes "q") (codes "other") 111 ∷ [])
      ((codes "s", ticket) ∷ []) refl

redeem-issue_ticket_example :
    (redeem_ticket raw (codes "s") (codes "pycon/1/en") 129 (
      issue_ticket raw
        (codes "pycon-1-en")
        (codes "ada")
        (codes "pycon/1/en")
        (codes "s")
        100
        [])).0
    ≡ redeemed ticket
redeem-issue_ticket_example =
    redeem-issue_ticket raw (codes "pycon-1-en") (codes "ada") (codes "pycon/1/en") (codes "s") 100
      129 [] refl refl (omega arith)

length-run_tickets_example :
    length (run_tickets raw (issuing (codes "b") (codes "p") (codes "q") (codes "s") 111 ∷ []) [])
    ≤ max_tickets
length-run_tickets_example =
    length-run_tickets raw (issuing (codes "b") (codes "p") (codes "q") (codes "s") 111 ∷ []) []
      (omega arith)

still_entitled_iff_example : (still_entitled ticket registry ≡ true) ↔ (
    (live_booth.broadcast_unlocked ≡ true)
    × (check_publish_permission (codes "ada") live_booth ≡ ok tt))
unfolding get text_eq
still_entitled_iff_example = still_entitled_iff ticket registry live_booth refl live_booth-IsValid

authorize_booth_publish_ok_example :
    (t : PublishTicket) × (b : Booth) × (get (codes "s") ((codes "s", ticket) ∷ []) ≡ some t)
    × (t.path ≡ codes "pycon/1/en")
    × (110 < t.expires_at)
    × (get t.booth_id registry ≡ some b)
    × (b.broadcast_unlocked ≡ true)
    × (check_publish_permission t.participant_id b ≡ ok tt)
unfolding authorize_booth_publish redeem_ticket check_ticket still_entitled get_booth_sync
    has_permission get remove text_eq
authorize_booth_publish_ok_example =
    authorize_booth_publish_ok raw (codes "pycon/1/en") (codes "s") 110 registry
      ((codes "s", ticket) ∷ []) (live_booth-IsValid, tt) refl
