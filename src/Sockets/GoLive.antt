-- ===== src/Sockets/GoLive.antt =====
-- From a request for a ticket to the hook that lets a stream in: `_handle_request_publish_ticket` of
-- portal/websockets/manager.py and `authorize_booth_publish` of portal/booth_publish.py.
use voxbento.Prelude.{
  ℕ, ◌≡◌, refl, ap, ◌∙◌, sym, subst, ◌+◌, ◌<◌, true, false, of_option, Bool-cases, Option-cases,
  inl, inr, some, [], ◌∷◌, Text, text_eq_refl, is_empty, get, get-put, All-get, Result, ok, err,
  ◌>>◌, >>=-eq-ok, arith,
}
use voxbento.Identity.{booth_id_to_mediamtx_path}
use voxbento.Booth.{Booth}
use voxbento.Booth.Calls.{check_publish_permission}
use voxbento.Booth.Valid.{IsValid}
use voxbento.Registry.{
  Registry, Address, get_or_create_booth, finish, conclude, registry_check_publish_permission,
}
use voxbento.Registry.Valid.{AllValid}
use voxbento.Registry.Methods.{checking, call}
use voxbento.Registry.Histories.{call-AllValid}
use voxbento.Publish.{
  PublishTicket, Tickets, ticket_ttl_secs, is_ascii, issue_ticket, get_booth_sync, answered, decide,
  authorize_booth_publish,
}
use voxbento.Publish.Tickets.{redeem-issue_ticket}
use voxbento.Publish.Entitled.{still_entitled_iff}
use voxbento.Connections.{Session}
use voxbento.Sockets.Messages.{
  publish_ticket, Fresh, Portal, Turn, joined_id, address_of, publish_path, reply_path,
  reply_ticket, handle_request_publish_ticket,
}

conclude_ok :
    (A : Type 0) (id : Text) (body : Booth → Result (A × Booth)) (found : Result Booth)
    (r : Registry) (x : A)
    → (conclude id body found r).0 ≡ ok x
    → (b c : Booth) × (body b ≡ ok (x, c)) × (get id (conclude id body found r).1 ≡ some c)
unfolding conclude
conclude_ok A id body (err e) r x h = absurd (cc)
conclude_ok A id body (ok b) r x h = ended (body b) refl h
  where
    ended :
        (m : Result (A × Booth))
        → body b ≡ m
        → (finish id m r).0 ≡ ok x
        → (b c : Booth) × (body b ≡ ok (x, c)) × (get id (finish id m r).1 ≡ some c)
    ended (err e) same h = absurd (cc)
    ended (ok (y, c)) same h = (b, c, cc, ground (arith, get-put id id c r, text_eq_refl id))

module _ (lower : Text → Text) where
  -- Who passed the check may publish in the booth that it leaves.
  checked :
      (a : Address) (id : Text) (r : Registry)
      → (registry_check_publish_permission lower a id r).0 ≡ ok tt
      → (c : Booth) × (get a.booth_id (registry_check_publish_permission lower a id r).1 ≡ some c)
        × (check_publish_permission id c ≡ ok tt)
  unfolding registry_check_publish_permission
  checked a id r h =
      let g = get_or_create_booth lower a r in
      let body = λ (b : Booth). check_publish_permission id b >> ok (tt, b) in
      let (b, c, e, stored) = conclude_ok Unit a.booth_id body g.0 g.1 tt h in
      let (u, may, same) = >>=-eq-ok (check_publish_permission id b) _ e in
      let one : b ≡ c = cc in
      (c, stored, subst (λ x. check_publish_permission id x ≡ ok tt) one may)

  path_free :
      (s : Session) (r : Registry) (path : Text)
      → publish_path lower s r ≡ ok path
      → (b : Booth) × (get s.booth_id r ≡ some b)
        × (b.broadcast_unlocked ≡ true)
        × (booth_id_to_mediamtx_path lower s.booth_id ≡ ok path)
  unfolding publish_path get_booth_sync
  path_free s r path h = elim (Option-cases (get s.booth_id r)) [
    | inl e ↦ absurd (ground arith)
    | inr (b, e) ↦ elim (Bool-cases b.broadcast_unlocked) [
      | inl u ↦ (b, e, u, ground arith)
      | inr u ↦ absurd (ground arith)
    ]
  ]

  -- A reply with a ticket, by what it was made of.
  granted :
      (hash : Text → Text) (id : Text) (s : Session) (fresh : Fresh) (p : Portal)
      (m : Result (Unit {0})) (r : Registry)
      → (reply_ticket lower hash id s fresh p (m, r)).outputs ≡ publish_ticket fresh.secret ∷ []
      → (path : Text) × (m ≡ ok tt)
        × (publish_path lower s r ≡ ok path)
        × ((reply_ticket lower hash id s fresh p (m, r)).portal ≡ (record {
          booths = r;
          tickets = issue_ticket hash s.booth_id id path fresh.secret fresh.monotonic p.tickets;
        }))
  unfolding reply_ticket
  granted hash id s fresh p (err e) r h = absurd (cc)
  granted hash id s fresh p (ok u) r h = of_path (publish_path lower s r) h
    where
      of_path :
          (m : Result Text)
          → (reply_path hash id s fresh p r m).outputs ≡ publish_ticket fresh.secret ∷ []
          → (path : Text) × (◌≡◌ {A = Result (Unit {0})} (ok u) (ok tt))
            × (m ≡ ok path)
            × ((reply_path hash id s fresh p r m).portal ≡ (record {
              booths = r;
              tickets = issue_ticket hash s.booth_id id path fresh.secret fresh.monotonic p.tickets;
            }))
      of_path (err e) h = absurd (cc)
      of_path (ok path) h = (path, refl, refl, refl)

  -- The hook on a ticket that has just been issued to a participant who may publish.
  lets_in :
      (hash : Text → Text) (id booth path secret : Text) (issued now : ℕ) (r : Registry)
      (ts : Tickets) (b : Booth)
      → AllValid r
      → is_empty secret ≡ false
      → is_ascii path ≡ true
      → now < issued + ticket_ttl_secs
      → get booth r ≡ some b
      → b.broadcast_unlocked ≡ true
      → check_publish_permission id b ≡ ok tt
      → (authorize_booth_publish hash path secret now r
          (issue_ticket hash booth id path secret issued ts)).0
        ≡ answered true
  unfolding authorize_booth_publish
  lets_in hash id booth path secret issued now r ts b v filled ascii live g unlocked may =
      let t : PublishTicket = record {
        booth_id = booth;
        participant_id = id;
        path = path;
        expires_at = issued + ticket_ttl_secs;
      } in
      let valid = All-get (λ k x. IsValid x) booth r v g in
      ap (decide r) (redeem-issue_ticket hash booth id path secret issued now ts filled ascii live)
      ∙ ap answered ((still_entitled_iff t r b g valid).1 (unlocked, may))

  answered_to :
      (hash : Text → Text) (id : Text) (s : Session) (fresh : Fresh) (p : Portal) (path : Text)
      (now : ℕ)
      → AllValid p.booths
      → is_empty fresh.secret ≡ false
      → is_ascii path ≡ true
      → now < fresh.monotonic + ticket_ttl_secs
      → booth_id_to_mediamtx_path lower s.booth_id ≡ ok path
      → let t : Turn =
          reply_ticket lower hash id s fresh p
            (registry_check_publish_permission lower (address_of s) id p.booths) in
        t.outputs ≡ publish_ticket fresh.secret ∷ []
        → (authorize_booth_publish hash path fresh.secret now t.portal.booths t.portal.tickets).0
          ≡ answered true
  unfolding call
  answered_to hash id s fresh p path now v secret ascii live at h =
      let m = registry_check_publish_permission lower (address_of s) id p.booths in
      let (path', may, free, left) = granted hash id s fresh p m.0 m.1 h in
      let (c, g, permitted) = checked (address_of s) id p.booths may in
      let (b, g', unlocked, at') = path_free s m.1 path' free in
      let same_path : path' ≡ path = cc in
      let same_booth : c ≡ b = cc in
      let valid = call-AllValid lower (checking (address_of s) id) p.booths tt v in
      subst
        (λ (q : Portal).
          (authorize_booth_publish hash path fresh.secret now q.booths q.tickets).0 ≡ answered true)
        (sym left)
        (subst
          (λ x.
            (authorize_booth_publish hash path fresh.secret now m.1
              (issue_ticket hash s.booth_id id x fresh.secret fresh.monotonic p.tickets)).0
            ≡ answered true)
          (sym same_path)
          (lets_in hash id s.booth_id path fresh.secret fresh.monotonic now m.1 p.tickets b valid
            secret ascii live g' unlocked
            (subst (λ x. check_publish_permission id x ≡ ok tt) same_booth permitted)))

  -- Where all booths are valid, a ticket that `request-publish-ticket` was answered with lets its
  -- participant's stream in, on the path of the booth and within 30 seconds, as long as nothing
  -- changes the booths and the tickets in between.
  pub authorize_booth_publish-request :
      (hash : Text → Text) (s : Session) (fresh : Fresh) (p : Portal) (path : Text) (now : ℕ)
      → AllValid p.booths
      → is_empty fresh.secret ≡ false
      → is_ascii path ≡ true
      → now < fresh.monotonic + ticket_ttl_secs
      → booth_id_to_mediamtx_path lower s.booth_id ≡ ok path
      → (handle_request_publish_ticket lower hash s fresh p).outputs
        ≡ publish_ticket fresh.secret ∷ []
      → (authorize_booth_publish hash path fresh.secret now
          (handle_request_publish_ticket lower hash s fresh p).portal.booths
          (handle_request_publish_ticket lower hash s fresh p).portal.tickets).0
        ≡ answered true
  unfolding handle_request_publish_ticket
  authorize_booth_publish-request hash s fresh p path now v secret ascii live at =
      of_option
        (λ (t : Turn).
          t.outputs ≡ publish_ticket fresh.secret ∷ []
          → (authorize_booth_publish hash path fresh.secret now t.portal.booths t.portal.tickets).0
            ≡ answered true)
        (joined_id s) _ _ (λ e h. absurd (cc))
        λ id e. answered_to hash id s fresh p path now v secret ascii live at
