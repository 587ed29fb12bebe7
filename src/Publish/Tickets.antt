-- ===== src/Publish/Tickets.antt =====
-- The store of publish tickets: portal/booth_publish.py.
use voxbento.Prelude.{
  ℕ, ◌+◌, ◌≤◌, ◌<◌, ◌≡◌, refl, Bool, true, false, ◌&&◌, not, none, some, Option-cases, Bool-cases,
  inl, inr, List, [], ◌∷◌, Text, text_eq, text_eq_iff, text_eq_refl, is_empty, length, get, remove,
  has, get-put, has-put, has-remove, length-put-le, arith,
}
use voxbento.Publish.{
  PublishTicket, Tickets, ticket_ttl_secs, max_tickets, prune, is_ascii, denied, redeemed,
  check_ticket, issue_ticket, redeem_ticket,
}

-- A call on the store.
pub data TicketCall : Type 0 where
  issuing : Text → Text → Text → Text → ℕ → TicketCall
  redeeming : Text → Text → ℕ → TicketCall

has-prune : (now : ℕ) (k : Text) (ts : Tickets) → has k ts ≡ false → has k (prune now ts) ≡ false
unfolding has prune
has-prune now k [] h = refl
has-prune now k ((i, t) ∷ ts) h = ground (arith, has-prune now k ts)

length-prune-lt : (now : ℕ) (ts : Tickets) → length (prune now ts) < max_tickets
unfolding prune
length-prune-lt now [] = omega arith
length-prune-lt now ((i, t) ∷ ts) = ground (arith, length-prune-lt now ts)

length-remove-le : (k : Text) (ts : Tickets) → length (remove k ts) ≤ length ts
unfolding remove
length-remove-le k [] = omega arith
length-remove-le k ((i, t) ∷ ts) = ground (arith, length-remove-le k ts)

get_missing : (k : Text) (ts : Tickets) → has k ts ≡ false → get k ts ≡ none
unfolding get has
get_missing k [] h = refl
get_missing k ((i, t) ∷ ts) h = ground (arith, get_missing k ts)

module _ (hash : Text → Text) where
  unfoldable pub perform_ticket : TicketCall → Tickets → Tickets
  perform_ticket (issuing booth participant path secret now) ts =
      issue_ticket hash booth participant path secret now ts
  perform_ticket (redeeming secret path now) ts = (redeem_ticket hash secret path now ts).1

  unfoldable pub run_tickets : List TicketCall → Tickets → Tickets
  unfolding perform_ticket
  run_tickets [] ts = ts
  run_tickets (c ∷ cs) ts = run_tickets cs (perform_ticket c ts)

  -- No call issues a ticket under the key of `secret` again.
  abbrev pub issues_other : Text → List TicketCall → Bool
  issues_other secret [] = true
  issues_other secret (issuing booth participant path s now ∷ cs) =
      not (text_eq (hash s) (hash secret)) && issues_other secret cs
  issues_other secret (redeeming s path now ∷ cs) = issues_other secret cs

  bounded_call :
      (c : TicketCall) (ts : Tickets)
      → length ts ≤ max_tickets
      → length (perform_ticket c ts) ≤ max_tickets
  unfolding perform_ticket issue_ticket redeem_ticket
  bounded_call (issuing booth participant path secret now) ts h = ground (
    arith,
    length-prune-lt now ts,
    length-put-le (hash secret)
        (record {
          booth_id = booth;
          participant_id = participant;
          path = path;
          expires_at = now + ticket_ttl_secs;
        })
        (prune now ts),
  )
  bounded_call (redeeming secret path now) ts h = ground (arith, length-remove-le (hash secret) ts)

  -- The store never holds more than 4096 tickets, in any sequence of calls from the empty store.
  pub length-run_tickets :
      (cs : List TicketCall) (ts : Tickets)
      → length ts ≤ max_tickets
      → length (run_tickets cs ts) ≤ max_tickets
  unfolding run_tickets
  length-run_tickets [] ts h = h
  length-run_tickets (c ∷ cs) ts h =
      length-run_tickets cs (perform_ticket c ts) (bounded_call c ts h)

  stays_missing :
      (secret : Text) (cs : List TicketCall) (ts : Tickets)
      → issues_other secret cs ≡ true
      → has (hash secret) ts ≡ false
      → has (hash secret) (run_tickets cs ts) ≡ false
  unfolding run_tickets perform_ticket issue_ticket redeem_ticket
  stays_missing secret [] ts o h = h
  stays_missing secret (issuing booth participant path s now ∷ cs) ts o h =
      stays_missing secret cs (issue_ticket hash booth participant path s now ts) (ground arith) (
        ground (
          arith,
          has-put (hash s) (hash secret)
              (record {
                booth_id = booth;
                participant_id = participant;
                path = path;
                expires_at = now + ticket_ttl_secs;
              })
              (prune now ts),
          has-prune now (hash secret) ts h,
        ))
  stays_missing secret (redeeming s path now ∷ cs) ts o h =
      stays_missing secret cs (redeem_ticket hash s path now ts).1 o
        (ground (arith, has-remove (hash s) (hash secret) ts))

  -- A secret is good for one redemption, whatever that one was answered and for whatever path: after
  -- it and any sequence of calls that do not issue a ticket under the same key, the secret is denied.
  pub redeem_once :
      (secret path path' : Text) (now now' : ℕ) (cs : List TicketCall) (ts : Tickets)
      → issues_other secret cs ≡ true
      → (redeem_ticket hash secret path' now'
          (run_tickets cs (redeem_ticket hash secret path now ts).1)).0
        ≡ denied
  unfolding redeem_ticket check_ticket
  redeem_once secret path path' now now' cs ts o = elim (Bool-cases (is_empty secret)) [
    | inl e ↦ rw e refl
    | inr e ↦
        let spent : has (hash secret) (remove (hash secret) ts) ≡ false =
          ground (arith, has-remove (hash secret) (hash secret) ts, text_eq_refl (hash secret)) in
        let gone =
          get_missing (hash secret) (run_tickets cs (remove (hash secret) ts))
            (stays_missing secret cs (remove (hash secret) ts) o spent) in
        rw e (rw gone refl)
  ]

  -- The ticket that a redemption returns was stored under the secret, is for the path and has not
  -- expired.
  pub redeem_ticket_ok :
      (secret path : Text) (now : ℕ) (ts : Tickets) (t : PublishTicket)
      → (redeem_ticket hash secret path now ts).0 ≡ redeemed t
      → (get (hash secret) ts ≡ some t) × (t.path ≡ path) × (now < t.expires_at)
  unfolding redeem_ticket check_ticket
  redeem_ticket_ok secret path now ts t h = elim (Option-cases (get (hash secret) ts)) [
    | inl e ↦ absurd (ground arith)
    | inr (x, e) ↦ ground (arith, text_eq_iff x.path path)
  ]

  -- A ticket that has just been issued is redeemed for its path within 30 seconds.
  pub redeem-issue_ticket :
      (booth participant path secret : Text) (now now' : ℕ) (ts : Tickets)
      → is_empty secret ≡ false
      → is_ascii path ≡ true
      → now' < now + ticket_ttl_secs
      → (redeem_ticket hash secret path now'
          (issue_ticket hash booth participant path secret now ts)).0
        ≡ redeemed (record {
          booth_id = booth;
          participant_id = participant;
          path = path;
          expires_at = now + ticket_ttl_secs;
        })
  unfolding redeem_ticket check_ticket issue_ticket
  redeem-issue_ticket booth participant path secret now now' ts s a le = ground (
    arith,
    get-put (hash secret) (hash secret)
        (record {
          booth_id = booth;
          participant_id = participant;
          path = path;
          expires_at = now + ticket_ttl_secs;
        })
        (prune now ts),
    text_eq_refl (hash secret),
    text_eq_refl path,
  )

-- While the store is not full, issuing a ticket drops no other ticket that is still live.
pub get-prune :
    (now : ℕ) (k : Text) (ts : Tickets) (t : PublishTicket)
    → length ts < max_tickets
    → now < t.expires_at
    → get k ts ≡ some t
    → get k (prune now ts) ≡ some t
unfolding get prune
get-prune now k [] t l live g = g
get-prune now k ((i, u) ∷ ts) t l live g = ground (arith, get-prune now k ts t)
