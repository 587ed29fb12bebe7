-- ===== src/Registry/Isolation.antt =====
-- That the booths of the registry do not disturb one another: portal/booth_state.py.
use voxbento.Prelude.{
  ◌≡◌, ap, ◌∙◌, Bool, true, false, some, Option-cases, Bool-cases, inl, inr, List, [], ◌∷◌, Text,
  text_eq, text_eq_iff, get, has, get-put, get-remove, has_of_get, all, not, Result, ok, err,
  Result-cases, raise_if, >>=-eq-ok, value_error, arith,
}
use voxbento.Identity.{
  BoothInstance, RoomValue, validate_event_slug, validate_language_code, validate_instance,
  make_booth_id, make_mediamtx_path,
}
use voxbento.Booth.{Booth}
use voxbento.Booth.Calls.{
  mark_overloaded, join_participant, leave_participant, set_broadcast_unlocked,
}
use voxbento.Booth.Public.{as_public_dict}
use voxbento.Registry.{
  Registry, Address, published, post_init, new_booth, created_booth, create_booth, remove_booth,
  snapshot, registry_join, registry_leave, registry_set_broadcast_unlocked, registry_set_active,
  registry_initiate_handoff, registry_accept_handoff, registry_cancel_handoff,
  registry_add_chat_message, registry_update_participant_state, registry_check_publish_permission,
}
use voxbento.Registry.Frame.{with_booth_frame}
use voxbento.Registry.Methods.{
  MethodCall, creating, removing, showing, joining, leaving, unlocking, activating, initiating,
  accepting, cancelling, chatting, updating, checking, marking, call, calls,
}

post_init-booth_id :
    (lower : Text → Text) (b b' : Booth) → post_init lower b ≡ ok b' → b'.booth_id ≡ b.booth_id
unfolding post_init
post_init-booth_id lower b b' h = elim (Option-cases b.room_id) [
  | inl e ↦ ground arith
  | inr (room, e) ↦
      elim (Result-cases (make_mediamtx_path lower b.event_slug (some room) b.language_code)) [
        | inl (path, m) ↦ ground arith
        | inr (x, m) ↦ ground arith
      ]
]

new_booth-booth_id :
    (lower : Text → Text) (a : Address) (slug code : Text) (inst : BoothInstance) (b : Booth)
    → new_booth lower a slug code inst ≡ ok b
    → b.booth_id ≡ a.booth_id
unfolding new_booth
new_booth-booth_id lower a slug code inst b h = post_init-booth_id lower _ b h

-- A booth is created only under an ID that is free.
created_booth_free :
    (lower : Text → Text) (slug code language : Text) (room : RoomValue) (channel inst : Text)
    (r : Registry) (b : Booth)
    → created_booth lower slug code language room channel inst r ≡ ok b
    → has b.booth_id r ≡ false
unfolding created_booth
created_booth_free lower slug code language room channel inst r b h =
    let (s, _, h1) = >>=-eq-ok (validate_event_slug lower slug) _ h in
    let (c, _, h2) = >>=-eq-ok (validate_language_code lower code) _ h1 in
    let (k, _, h3) = >>=-eq-ok (validate_instance lower inst) _ h2 in
    let (id, _, h4) = >>=-eq-ok (make_booth_id lower s room c) _ h3 in
    let (path, _, h5) = >>=-eq-ok (make_mediamtx_path lower s (some room) c) _ h4 in
    let (_, free, h6) =
      >>=-eq-ok (raise_if (has id r) (value_error "Booth already exists.")) _ h5 in
    let same = new_booth-booth_id lower _ s c k b h6 in
    let unused : has id r ≡ false = ground (arith, free, Bool-cases (has id r)) in
    ap (λ i. has i r) same ∙ unused

module _ (lower : Text → Text) (k : Text) where
  abbrev is_named : Result Text → Bool
  is_named (ok id) = text_eq id k
  is_named (err e) = false

  -- The booth with the ID is the one that a call is about, or that it removes.
  abbrev pub is_about : MethodCall → Bool
  is_about (creating slug code language room channel inst) = false
  is_about (removing slug room code) = is_named (make_booth_id lower slug room code)
  is_about (showing a) = text_eq a.booth_id k
  is_about (joining a j) = text_eq a.booth_id k
  is_about (leaving a id) = text_eq a.booth_id k
  is_about (unlocking a unlocked now) = text_eq a.booth_id k
  is_about (activating a requester target now) = text_eq a.booth_id k
  is_about (initiating a id) = text_eq a.booth_id k
  is_about (accepting a id now) = text_eq a.booth_id k
  is_about (cancelling a id) = text_eq a.booth_id k
  is_about (chatting a id body fresh now) = text_eq a.booth_id k
  is_about (updating a id flags now) = text_eq a.booth_id k
  is_about (checking a id) = text_eq a.booth_id k
  is_about (marking id) = text_eq id k

  create_booth_keeps :
      (slug code language : Text) (room : RoomValue) (channel inst : Text) (r : Registry)
      (b : Booth)
      → get k r ≡ some b
      → get k (create_booth lower slug code language room channel inst r).1 ≡ some b
  unfolding create_booth
  create_booth_keeps slug code language room channel inst r b g =
      elim (Result-cases (created_booth lower slug code language room channel inst r)) [
        | inr (e, h) ↦ rw (create_booth, h) g
        | inl (c, h) ↦
            let free = created_booth_free lower slug code language room channel inst r c h in
            let taken = has_of_get k r b g in
            let other : text_eq c.booth_id k ≡ false =
              ground
                (arith, text_eq_iff c.booth_id k, Bool-cases (text_eq c.booth_id k), free, taken) in
            rw (create_booth, h) (ground (arith, get-put c.booth_id k c r, other, g))
      ]

  remove_booth_keeps :
      (slug : Text) (room : RoomValue) (code : Text) (r : Registry) (b : Booth)
      → is_named (make_booth_id lower slug room code) ≡ false
      → get k r ≡ some b
      → get k (remove_booth lower slug room code r).1 ≡ some b
  unfolding remove_booth
  remove_booth_keeps slug room code r b n g =
      elim (Result-cases (make_booth_id lower slug room code)) [
        | inr (e, h) ↦ rw (remove_booth, h) g
        | inl (id, h) ↦
            let other : text_eq id k ≡ false = ground (arith, n, h) in
            rw (remove_booth, h) (ground (arith, get-remove id k r, other, g))
      ]

  call_keeps :
      (c : MethodCall) (r : Registry)
      → is_about c ≡ false
      → (b : Booth) → get k r ≡ some b
      → get k (call lower c r) ≡ some b
  unfolding call snapshot registry_join registry_leave registry_set_broadcast_unlocked
      registry_set_active registry_initiate_handoff registry_accept_handoff registry_cancel_handoff
      registry_add_chat_message registry_update_participant_state registry_check_publish_permission
  call_keeps (creating slug code language room channel inst) r n b g =
      create_booth_keeps slug code language room channel inst r b g
  call_keeps (removing slug room code) r n b g = remove_booth_keeps slug room code r b n g
  call_keeps (showing a) r n b g = (with_booth_frame lower _ a (published) r k).0 n ∙ g
  call_keeps (joining a j) r n b g =
      (with_booth_frame lower _ a
          (λ x. ok (
            ((join_participant j x).0, as_public_dict (join_participant j x).1),
            (join_participant j x).1,
          ))
          r k).0
        n
      ∙ g
  call_keeps (leaving a id) r n b g =
      (with_booth_frame lower _ a (λ x. published (leave_participant id x)) r k).0 n ∙ g
  call_keeps (unlocking a u now) r n b g =
      (with_booth_frame lower _ a (λ x. published (set_broadcast_unlocked u now x)) r k).0 n ∙ g
  call_keeps (activating a q t now) r n b g = (with_booth_frame lower _ a _ r k).0 n ∙ g
  call_keeps (initiating a id) r n b g = (with_booth_frame lower _ a _ r k).0 n ∙ g
  call_keeps (accepting a id now) r n b g = (with_booth_frame lower _ a _ r k).0 n ∙ g
  call_keeps (cancelling a id) r n b g = (with_booth_frame lower _ a _ r k).0 n ∙ g
  call_keeps (chatting a id body fresh now) r n b g = (with_booth_frame lower _ a _ r k).0 n ∙ g
  call_keeps (updating a id flags now) r n b g = (with_booth_frame lower _ a _ r k).0 n ∙ g
  call_keeps (checking a id) r n b g = (with_booth_frame lower _ a _ r k).0 n ∙ g
  call_keeps (marking id) r n b g = elim (Option-cases (get id r)) [
    | inl e ↦ rw (call, e) g
    | inr (c, e) ↦ rw (call, e) (ground (arith, get-put id k (mark_overloaded c) r, n, g))
  ]

  -- A booth stays exactly as it is over every sequence of method calls that are about other booths and do
  -- not remove it, whichever of them raise; creating booths, by `create_booth` or by a method that finds
  -- none, never replaces it.
  pub calls_keep_others :
      (cs : List MethodCall) (r : Registry) (b : Booth)
      → all (λ c. not (is_about c)) cs ≡ true
      → get k r ≡ some b
      → get k (calls lower cs r) ≡ some b
  unfolding calls
  calls_keep_others [] r b n g = g
  calls_keep_others (c ∷ cs) r b n g =
      calls_keep_others cs (call lower c r) b (ground arith)
        (call_keeps c r (ground (arith, Bool-cases (is_about c))) b g)
