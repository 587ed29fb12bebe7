-- ===== src/Sockets/OnAir.antt =====
-- Who can be heard, whatever is sent over the connections: portal/websockets/handlers.py on
-- portal/booth_state.py.
use voxbento.Prelude.{
  ℕ, ◌≡◌, of_if, of_option, sym, ◌∙◌, ap, true, some, List, [], ◌∷◌, Text, get, ok,
}
use voxbento.Booth.{Participant, Booth}
use voxbento.Booth.Calls.{check_publish_permission}
use voxbento.Booth.Valid.{is_on_air}
use voxbento.Registry.Methods.{
  MethodCall, creating, removing, showing, leaving, checking, marking, IsRoleMethod, call, calls,
  AllRoleMethods,
}
use voxbento.Registry.OnAir.{on_air_unique}
use voxbento.Connections.{Session}
use voxbento.Sockets.Messages.{Portal, Turn, handle, joined_id, address_of}
use voxbento.Sockets.Refine.{Reaches, stays, by_call, Reaches-trans, handle-Reaches}
use voxbento.Sockets.Loop.{
  Server, Event, opened, received, revoked, ended, booth_made, booth_removed, booth_shown,
  publish_checked, overload_reported, session_of, set_session, routed, disconnect, after_turn,
  on_message, step, run,
}

module _ (lower : Text → Text) (hash : Text → Text) where
  abbrev Leads : Server → Server → Type 0
  Leads v w = Reaches lower v.portal.booths w.portal.booths

  disconnect-Leads : (ws : ℕ) (s : Session) (v : Server) → Leads v (disconnect lower hash ws s v)
  unfolding disconnect call
  disconnect-Leads ws s v =
      of_option (λ (p : Portal). Reaches lower v.portal.booths p.booths) (joined_id s) _ _
        (λ e. stays lower v.portal.booths)
        λ id e. by_call lower (leaving (address_of s) id) v.portal.booths tt

  after_turn-Leads :
      (ws : ℕ) (t : Turn) (v : Server)
      → Reaches lower v.portal.booths t.portal.booths
      → Leads v (after_turn lower hash ws t v)
  unfolding after_turn
  after_turn-Leads ws t v h =
      of_option (Leads v) t.raised _ _ (λ e. h)
        λ x e.
          let w : Server = record {
            sessions = set_session ws t.session v.sessions;
            portal = t.portal;
          } in
          let left = disconnect-Leads ws t.session w in
          Reaches-trans lower v.portal.booths t.portal.booths
            (disconnect lower hash ws t.session w).portal.booths h left

  routed-Leads : (c : MethodCall) (v : Server) → IsRoleMethod c → Leads v (routed lower c v)
  routed-Leads c v w = by_call lower c v.portal.booths w

  -- Whatever happens is a sequence of method calls on the booths.
  pub step-Leads : (e : Event) (v : Server) → Leads v (step lower hash e v)
  unfolding step on_message
  step-Leads (opened ws s) v = stays lower v.portal.booths
  step-Leads (received ws m fresh) v =
      of_option (Leads v) (session_of ws v.sessions) _ _ (λ e. stays lower v.portal.booths)
        λ s e.
          of_if (Leads v) s.revoked _ _ (λ h. disconnect-Leads ws s v)
            λ h.
              after_turn-Leads ws (handle lower hash m s fresh v.portal) v
                (handle-Reaches lower hash m s fresh v.portal)
  step-Leads (revoked ws) v =
      of_option (Leads v) (session_of ws v.sessions) _ _ (λ e. stays lower v.portal.booths)
        λ s e. stays lower v.portal.booths
  step-Leads (ended ws) v =
      of_option (Leads v) (session_of ws v.sessions) _ _ (λ e. stays lower v.portal.booths)
        λ s e. disconnect-Leads ws s v
  step-Leads (booth_made slug code language room channel inst) v =
      routed-Leads (creating slug code language room channel inst) v tt
  step-Leads (booth_removed slug room code) v = routed-Leads (removing slug room code) v tt
  step-Leads (booth_shown a) v = routed-Leads (showing a) v tt
  step-Leads (publish_checked a id) v = routed-Leads (checking a id) v tt
  step-Leads (overload_reported id) v = routed-Leads (marking id) v tt

  -- The connections use the booths only by the methods of the registry, and let in nobody whose role
  -- cannot go live: for every sequence of events there are method calls, in which who joins has a role
  -- that can go live, that lead from the booths before to the booths after.
  pub run-calls :
      (es : List Event) (v : Server)
      → (cs : List MethodCall) × AllRoleMethods cs
        × ((run lower hash es v).portal.booths ≡ calls lower cs v.portal.booths)
  unfolding run
  run-calls [] v = stays lower v.portal.booths
  run-calls (e ∷ es) v =
      let w = step lower hash e v in
      Reaches-trans lower v.portal.booths w.portal.booths (run lower hash es w).portal.booths
        (step-Leads e v) (run-calls es w)

-- Whatever connections open, with whatever roles, whatever they send, when they end or are revoked, and
-- whatever routes do to the booths between, starting from no booths: at most one participant of a
-- booth has a live microphone or stream, and it is one who may publish.
pub run-on_air_unique :
    (lower hash : Text → Text) (es : List Event) (v : Server) (id : Text) (b : Booth)
    → v.portal.booths ≡ []
    → get id (run lower hash es v).portal.booths ≡ some b
    → (k j : Text) (p q : Participant) → get k b.participants ≡ some p
    → get j b.participants ≡ some q
    → is_on_air p ≡ true
    → is_on_air q ≡ true
    → (k ≡ j) × (check_publish_permission k b ≡ ok tt)
run-on_air_unique lower hash es v id b none_yet g =
    let (cs, w, e) = run-calls lower hash es v in
    let e' : (run lower hash es v).portal.booths ≡ calls lower cs [] =
      e ∙ ap (calls lower cs) none_yet in
    on_air_unique lower cs id b w (ap (get id) (sym e') ∙ g)
