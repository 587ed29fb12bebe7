-- ===== src/Sockets/Replies.antt =====
-- What an answer that refuses a message leaves alone: the ends of the handlers of
-- portal/websockets/manager.py.
use voxbento.Prelude.{
  ◌≡◌, refl, Bool, true, false, some, Text, any, get, get-put, text_eq_iff, Result, ok, err, Error,
  ◌>>◌, arith,
}
use voxbento.Booth.{Booth, Participant, ChatMessage}
use voxbento.Booth.Public.{PublicBooth}
use voxbento.Booth.Calls.{check_publish_permission}
use voxbento.Registry.{
  Registry, Address, get_or_create_booth, finish, conclude, with_booth,
  registry_check_publish_permission,
}
use voxbento.Registry.Frame.{with_booth_frame, get_or_create_keeps, get_or_create_stored}
use voxbento.Connections.{Session}
use voxbento.Sockets.Messages.{
  Output, booth_error, notice, publish_refused, Fresh, Portal, Turn, reply_state, reply_joined,
  reply_left, reply_chat, reply_ticket, reply_path, publish_path,
}

-- An answer that refuses the message.
abbrev pub is_refusal : Output → Bool
is_refusal (booth_error e) = true
is_refusal (notice s) = true
is_refusal (publish_refused e) = true
is_refusal _ = false

-- The booths that there were are as they were.
abbrev pub Holds : Registry → Registry → Type 0
Holds r r' = (k : Text) (b : Booth) → get k r ≡ some b → get k r' ≡ some b

-- A turn that refuses, if it does, changes nothing.
abbrev pub Harmless : Session → Portal → Turn → Type 0
Harmless s p t =
    any is_refusal t.outputs ≡ true
    → (t.session ≡ s) × (t.portal.tickets ≡ p.tickets) × Holds p.booths t.portal.booths

module _ (lower : Text → Text) where
  -- A check leaves the booth that it looked at, whether it was passed or not.
  pub check-Holds :
      (a : Address) (id : Text) (r : Registry)
      → Holds r (registry_check_publish_permission lower a id r).1
  unfolding registry_check_publish_permission
  check-Holds a id r k b g =
      let got = get_or_create_booth lower a r in
      let there = get_or_create_keeps lower a r k b g in
      of_found got.0 (get_or_create_stored lower a r) there
    where
      body : Booth → Result (Unit {0} × Booth)
      body c = check_publish_permission id c >> ok (tt, c)

      ended :
          (m : Result (Unit {0})) (c : Booth) (r' : Registry)
          → get a.booth_id r' ≡ some c
          → get k r' ≡ some b
          → get k (finish a.booth_id (m >> ok (tt, c)) r').1 ≡ some b
      ended (err e) c r' stored there = there
      ended (ok u) c r' stored there =
          ground (arith, get-put a.booth_id k c r', text_eq_iff a.booth_id k)

      of_found :
          (found : Result Booth)
          → ((c : Booth) → found ≡ ok c → get a.booth_id (get_or_create_booth lower a r).1 ≡ some c)
          → get k (get_or_create_booth lower a r).1 ≡ some b
          → get k (conclude a.booth_id body found (get_or_create_booth lower a r).1).1 ≡ some b
      of_found (err e) stored there = there
      of_found (ok c) stored there =
          ended (check_publish_permission id c) c (get_or_create_booth lower a r).1 (stored c refl)
            there

  module _ (s : Session) (p : Portal) where
    -- A method that raises leaves the booths that there were.
    pub framed :
        (A : Type 0) (a : Address) (body : Booth → Result (A × Booth)) (e : Error)
        → (with_booth lower a body p.booths).0 ≡ err e
        → Holds p.booths (with_booth lower a body p.booths).1
    framed A a body e h k b g = (with_booth_frame lower A a body p.booths k).1 e b h g

    pub unchanged : Holds p.booths p.booths
    unchanged k b g = g

    pub state-Harmless :
        (m : Result PublicBooth × Registry)
        → ((e : Error) → m.0 ≡ err e → Holds p.booths m.1)
        → Harmless s p (reply_state s p m)
    unfolding reply_state
    state-Harmless (ok x, r) h y = absurd (cc)
    state-Harmless (err e, r) h y = (refl, refl, h e refl)

    pub chat-Harmless :
        (m : Result (ChatMessage × PublicBooth) × Registry)
        → ((e : Error) → m.0 ≡ err e → Holds p.booths m.1)
        → Harmless s p (reply_chat s p m)
    unfolding reply_chat
    chat-Harmless (ok (x, z), r) h y = absurd (cc)
    chat-Harmless (err e, r) h y = (refl, refl, h e refl)

    pub left-Harmless : (m : Result PublicBooth × Registry) → Harmless s p (reply_left s p m)
    unfolding reply_left
    left-Harmless (ok x, r) y = absurd (cc)
    left-Harmless (err e, r) y = absurd (cc)

    pub joined-Harmless :
        (role language channel : Text) (m : Result (Participant × PublicBooth) × Registry)
        → ((e : Error) → m.0 ≡ err e → Holds p.booths m.1)
        → Harmless s p (reply_joined role language channel s p m)
    unfolding reply_joined
    joined-Harmless role language channel (ok (x, z), r) h y = absurd (ground arith)
    joined-Harmless role language channel (err e, r) h y = (refl, refl, h e refl)

    path-Harmless :
        (hash : Text → Text) (id : Text) (fresh : Fresh) (r : Registry) (m : Result Text)
        → Holds p.booths r
        → Harmless s p (reply_path hash id s fresh p r m)
    unfolding reply_path
    path-Harmless hash id fresh r (ok x) h y = absurd (cc)
    path-Harmless hash id fresh r (err e) h y = (refl, refl, h)

    pub ticket-Harmless :
        (hash : Text → Text) (id : Text) (fresh : Fresh) (m : Result (Unit {0}) × Registry)
        → Holds p.booths m.1
        → Harmless s p (reply_ticket lower hash id s fresh p m)
    unfolding reply_ticket
    ticket-Harmless hash id fresh (ok x, r) h =
        path-Harmless hash id fresh r (publish_path lower s r) h
    ticket-Harmless hash id fresh (err e, r) h = λ y. (refl, refl, h)
