-- ===== src/Publish/Entitled.antt =====
-- Who may publish to a booth's path when MediaMTX asks: portal/booth_publish.py on the booths of
-- portal/booth_state.py.
use voxbento.Prelude.{
  ℕ, ◌<◌, ◌≡◌, ◌↔◌, refl, true, some, Option-cases, inl, inr, Text, text_eq_iff, get, All-get, ok,
  arith,
}
use voxbento.Roles.{can_go_live}
use voxbento.Booth.{Booth}
use voxbento.Booth.Calls.{check_publish_permission}
use voxbento.Booth.Valid.{Fits, IsValid}
use voxbento.Registry.{Registry}
use voxbento.Registry.Valid.{AllValid}
use voxbento.Publish.{
  PublishTicket, Tickets, Redemption, denied, redeemed, type_error, redeem_ticket, still_entitled,
  answered, decide, authorize_booth_publish,
}
use voxbento.Publish.Tickets.{redeem_ticket_ok}

-- For a valid booth the check at the hook and the check at the booth's WebSocket agree: the holder of
-- a ticket is still entitled exactly if the broadcast is unlocked and the participant may publish.
pub still_entitled_iff :
    (t : PublishTicket) (r : Registry) (b : Booth)
    → get t.booth_id r ≡ some b
    → IsValid b
    → (still_entitled t r ≡ true)
      ↔ ((b.broadcast_unlocked ≡ true) × (check_publish_permission t.participant_id b ≡ ok tt))
unfolding still_entitled check_publish_permission can_go_live
still_entitled_iff t r b g v = elim (Option-cases (get t.participant_id b.participants)) [
  | inl e ↦ ((λ h. absurd (ground arith)), (λ h. absurd (ground (arith, h.1))))
  | inr (p, e) ↦
      let fits =
        All-get (Fits b.active_interpreter_id) t.participant_id b.participants v.entries e in
      let same = (text_eq_iff p.participant_id t.participant_id).0 fits.0 in
      ((λ h. ground (arith, same)), (λ h. ground (arith, same, h.0, h.1)))
]

booth_of :
    (t : PublishTicket) (r : Registry)
    → still_entitled t r ≡ true
    → (b : Booth) × (get t.booth_id r ≡ some b)
unfolding still_entitled
booth_of t r h = elim (Option-cases (get t.booth_id r)) [
  | inl e ↦ absurd (ground arith)
  | inr (b, e) ↦ (b, e)
]

decided :
    (r : Registry) (m : Redemption)
    → decide r m ≡ answered true
    → (t : PublishTicket) × (m ≡ redeemed t) × (still_entitled t r ≡ true)
decided r denied h = absurd (cc)
decided r (redeemed t) h = (t, refl, cc)
decided r type_error h = absurd (cc)

-- Where all booths are valid, the hook lets a stream through only for a ticket that was stored under
-- the secret, is for this path and has not expired, and only while the broadcast of its booth is
-- unlocked and its participant may publish there.
pub authorize_booth_publish_ok :
    (hash : Text → Text) (path secret : Text) (now : ℕ) (r : Registry) (ts : Tickets)
    → AllValid r
    → (authorize_booth_publish hash path secret now r ts).0 ≡ answered true
    → (t : PublishTicket) × (b : Booth) × (get (hash secret) ts ≡ some t)
      × (t.path ≡ path)
      × (now < t.expires_at)
      × (get t.booth_id r ≡ some b)
      × (b.broadcast_unlocked ≡ true)
      × (check_publish_permission t.participant_id b ≡ ok tt)
unfolding authorize_booth_publish
authorize_booth_publish_ok hash path secret now r ts v h =
    let (t, m, entitled) = decided r (redeem_ticket hash secret path now ts).0 h in
    let (stored, same, live) = redeem_ticket_ok hash secret path now ts t m in
    let (b, g) = booth_of t r entitled in
    let (unlocked, may) =
      (still_entitled_iff t r b g (All-get (λ k x. IsValid x) t.booth_id r v g)).0 entitled in
    (t, b, stored, same, live, g, unlocked, may)
