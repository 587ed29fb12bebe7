-- ===== src/Publish.antt =====
-- portal/booth_publish.py: the single-use tickets for publishing to a booth's path. `hash` stands for
-- the hexadecimal SHA-256 of a secret's UTF-8; times are those of `time.monotonic()`, and a secret is
-- what `secrets.token_urlsafe` returned.
pub mod Tickets
pub mod Entitled
mod Tests
use voxbento.Prelude.{
  ℕ, ◌+◌, Bool, true, false, ◌&&◌, not, Option, none, some, List, [], ◌∷◌, Text, ◌==◌, opt_has_eq,
  text_eq, leb, ltb, is_empty, if◌then◌else◌, length, all, Dict, get, put, remove,
}
use voxbento.Roles.{has_permission, booth_go_live}
use voxbento.Booth.{Booth, Participant}
use voxbento.Registry.{Registry}

abbrev pub ticket_ttl_secs : ℕ
ticket_ttl_secs = 30

abbrev pub max_tickets : ℕ
max_tickets = 4096

pub record PublishTicket : Type 0 where
  pub booth_id : Text
  pub participant_id : Text
  pub path : Text
  pub expires_at : ℕ

-- The tickets, the oldest first.
abbrev pub Tickets : Type 0
Tickets = Dict PublishTicket

-- The loop drops the oldest ticket while it is expired or the store is full.
unfoldable pub prune : ℕ → Tickets → Tickets
prune now [] = []
prune now ((k, t) ∷ ts) =
    let rest = prune now ts in
    if ltb now t.expires_at && ltb (length ((k, t) ∷ ts)) max_tickets then (k, t) ∷ ts else rest

-- `secrets.compare_digest` raises on a text that is not ASCII.
abbrev pub is_ascii : Text → Bool
is_ascii = all (λ c. ltb c 128)

-- What `redeem_ticket` returns, or that it raised a `TypeError`.
pub data Redemption : Type 0 where
  denied : Redemption
  redeemed : PublishTicket → Redemption
  type_error : Redemption

-- The checks on a ticket that has been popped.
unfoldable pub check_ticket : Text → ℕ → Option PublishTicket → Redemption
check_ticket path now none = denied
check_ticket path now (some ticket) =
    if leb ticket.expires_at now
    then denied
    else if not (is_ascii ticket.path && is_ascii path)
    then type_error
    else if text_eq ticket.path path
    then redeemed ticket
    else denied

module _ (hash : Text → Text) where
  unfoldable pub issue_ticket : Text → Text → Text → Text → ℕ → Tickets → Tickets
  unfolding prune
  issue_ticket booth_id participant_id path secret now tickets =
      put (hash secret)
        (record {
          booth_id = booth_id;
          participant_id = participant_id;
          path = path;
          expires_at = now + ticket_ttl_secs;
        })
        (prune now tickets)

  -- A ticket is popped before the checks.
  unfoldable pub redeem_ticket : Text → Text → ℕ → Tickets → Redemption × Tickets
  unfolding check_ticket
  redeem_ticket secret path now tickets =
      if is_empty secret
      then (denied, tickets)
      else (check_ticket path now (get (hash secret) tickets), remove (hash secret) tickets)

unfoldable pub get_booth_sync : Text → Registry → Option Booth
get_booth_sync booth_id r = get booth_id r

unfoldable pub still_entitled : PublishTicket → Registry → Bool
unfolding get_booth_sync
still_entitled ticket r = elim (get_booth_sync ticket.booth_id r) [
  | none ↦ false
  | some b ↦
      if not b.broadcast_unlocked then false else elim (get ticket.participant_id b.participants) [
        | none ↦ false
        | some p ↦
            (b.active_interpreter_id == some p.participant_id)
            && has_permission (some p.role) booth_go_live
      ]
]

-- What the hook is answered, or that the check raised.
pub data Decision : Type 0 where
  answered : Bool → Decision
  raised : Decision

abbrev pub decide : Registry → Redemption → Decision
decide r denied = answered false
decide r (redeemed ticket) = answered (still_entitled ticket r)
decide r type_error = raised

-- `authorize_booth_publish`, which lets nothing in between its two steps.
unfoldable pub authorize_booth_publish :
    (Text → Text) → Text → Text → ℕ → Registry → Tickets → Decision × Tickets
unfolding redeem_ticket
authorize_booth_publish hash path secret now r tickets =
    let (redemption, rest) = redeem_ticket hash secret path now tickets in
    (decide r redemption, rest)

unfoldable pub clear_tickets : Tickets → Tickets
clear_tickets tickets = []
