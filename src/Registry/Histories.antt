-- ===== src/Registry/Histories.antt =====
-- Every sequence of method calls on the registry: portal/booth_state.py.
use voxbento.Prelude.{
  ◌≡◌, refl, ap, subst, ◌∙◌, false, text_eq, All-mono, Option, none, some, List, [], ◌∷◌, Text, get,
  put, remove, All-put, All-remove, All-get, Result, ok, err, raise_if, ◌>>=◌, ◌>>◌, >>=-eq-ok, has,
  value_error,
}
use voxbento.Identity.{
  RoomValue, validate_event_slug, validate_language_code, validate_instance, make_booth_id,
  make_mediamtx_path,
}
use voxbento.Booth.{Booth}
use voxbento.Booth.Public.{PublicBooth, as_public_dict}
use voxbento.Booth.Calls.{
  join_participant, leave_participant, set_broadcast_unlocked, add_chat_message,
  update_participant_state, check_publish_permission, mark_overloaded,
}
use voxbento.Booth.Handoff.{
  set_active_interpreter, initiate_handoff, accept_handoff, cancel_handoff,
}
use voxbento.Booth.Step.{
  Call, perform, join, leave, unlock, set_active, initiate, accept, cancel, chat, update, after,
  after_chat,
}
use voxbento.Booth.Valid.{IsValid}
use voxbento.Booth.Preserve.{IsRoleCall, perform-IsValid}
use voxbento.Booth.Safety.{IsUnused, IsUnused-IsValid}
use voxbento.Registry.{
  Registry, published, created_booth, create_booth, remove_booth, snapshot, registry_join,
  registry_leave, registry_set_broadcast_unlocked, registry_set_active, registry_initiate_handoff,
  registry_accept_handoff, registry_cancel_handoff, registry_add_chat_message,
  registry_update_participant_state, registry_check_publish_permission,
}
use voxbento.Registry.Valid.{AllValid, new_booth-IsUnused, with_booth-AllValid}
use voxbento.Registry.Methods.{
  MethodCall, creating, removing, showing, joining, leaving, unlocking, activating, initiating,
  accepting, cancelling, chatting, updating, checking, marking, call, calls, IsRoleMethod,
  AllRoleMethods,
}

ok_second :
    {A : Type 0} (x y : A) (b c : Booth)
    → ◌≡◌ {A = Result (A × Booth)} (ok (x, b)) (ok (y, c))
    → b ≡ c
ok_second x y b c h = cc

first : (b c : Booth) → ◌≡◌ {A = Result Booth} (ok b) (ok c) → b ≡ c
first b c h = cc

-- A body that is one call on the booth, with its snapshot, keeps the booth valid.
published-IsValid :
    (c : Call) (b : Booth) (m : Result Booth) (x : PublicBooth) (b' : Booth)
    → IsRoleCall c
    → ((y : Booth) → m ≡ ok y → perform c b ≡ y)
    → IsValid b
    → (m >>= published) ≡ ok (x, b')
    → IsValid b'
published-IsValid c b (ok y) x b' r same v h =
    subst IsValid (same y refl ∙ ok_second _ x y b' h) (perform-IsValid c b r v)
published-IsValid c b (err e) x b' r same v h = absurd (cc)

created_booth-IsUnused :
    (lower : Text → Text) (slug code language : Text) (room : RoomValue) (channel inst : Text)
    (r : Registry) (b : Booth)
    → created_booth lower slug code language room channel inst r ≡ ok b
    → IsUnused b
unfolding created_booth
created_booth-IsUnused lower slug code language room channel inst r b h =
    let (s, _, h1) = >>=-eq-ok (validate_event_slug lower slug) _ h in
    let (c, _, h2) = >>=-eq-ok (validate_language_code lower code) _ h1 in
    let (k, _, h3) = >>=-eq-ok (validate_instance lower inst) _ h2 in
    let (id, _, h4) = >>=-eq-ok (make_booth_id lower s room c) _ h3 in
    let (path, _, h5) = >>=-eq-ok (make_mediamtx_path lower s (some room) c) _ h4 in
    let (_, _, h6) = >>=-eq-ok (raise_if (has id r) (value_error "Booth already exists.")) _ h5 in
    new_booth-IsUnused lower _ s c k b h6

create_booth-AllValid :
    (lower : Text → Text) (slug code language : Text) (room : RoomValue) (channel inst : Text)
    (r : Registry)
    → AllValid r
    → AllValid (create_booth lower slug code language room channel inst r).1
unfolding create_booth
create_booth-AllValid lower slug code language room channel inst r v =
    stored (created_booth lower slug code language room channel inst r) refl
  where
    stored :
        (m : Result Booth)
        → created_booth lower slug code language room channel inst r ≡ m
        → let result : Result PublicBooth × Registry = elim m [
          | err e ↦ (err e, r)
          | ok b ↦ (ok (as_public_dict b), put b.booth_id b r)
        ] in
          AllValid result.1
    stored (err e) h = v
    stored (ok b) h =
        All-put (λ k x. IsValid x) b.booth_id b r
          (IsUnused-IsValid b
            (created_booth-IsUnused lower slug code language room channel inst r b h))
          v

remove_booth-AllValid :
    (lower : Text → Text) (slug : Text) (room : RoomValue) (code : Text) (r : Registry)
    → AllValid r
    → AllValid (remove_booth lower slug room code r).1
unfolding remove_booth
remove_booth-AllValid lower slug room code r v = removed (make_booth_id lower slug room code)
  where
    removed :
        (m : Result Text)
        → let result : Result (Unit {0}) × Registry = elim m [
          | err e ↦ (err e, r)
          | ok booth_id ↦ (ok tt, remove booth_id r)
        ] in
          AllValid result.1
    removed (err e) = v
    removed (ok id) =
        All-mono (λ k x. IsValid x × (text_eq k id ≡ false)) (λ k x. IsValid x) (λ k x y. y.0)
          (remove id r) (All-remove (λ k x. IsValid x) id r v)

marking-AllValid :
    (lower : Text → Text) (id : Text) (r : Registry)
    → AllValid r
    → AllValid (call lower (marking id) r)
unfolding call mark_overloaded
marking-AllValid lower id r v = found (get id r) refl
  where
    found :
        (o : Option Booth)
        → get id r ≡ o
        → AllValid (elim o [ none ↦ r | some b ↦ put id (mark_overloaded b) r ])
    found none e = v
    found (some b) e =
        let w = All-get (λ k x. IsValid x) id r v e in
        All-put (λ k x. IsValid x) id (mark_overloaded b) r
          (record {
            entries = w.entries;
            filled = w.filled;
            negotiated = w.negotiated;
            reported = λ h. refl;
          })
          v

module _ (lower : Text → Text) where
  pub call-AllValid :
      (c : MethodCall) (r : Registry) → IsRoleMethod c → AllValid r → AllValid (call lower c r)
  unfolding call snapshot registry_join registry_leave registry_set_broadcast_unlocked
      registry_set_active registry_initiate_handoff registry_accept_handoff registry_cancel_handoff
      registry_add_chat_message registry_update_participant_state registry_check_publish_permission
      perform
  call-AllValid (creating slug code language room channel inst) r w v =
      create_booth-AllValid lower slug code language room channel inst r v
  call-AllValid (removing slug room code) r w v = remove_booth-AllValid lower slug room code r v
  call-AllValid (showing a) r w v =
      with_booth-AllValid lower _ a published r
        (λ b x b' y h. subst IsValid (ok_second (as_public_dict b) x b b' h) y) v
  call-AllValid (joining a j) r w v =
      with_booth-AllValid lower _ a
        (λ b. ok (
          ((join_participant j b).0, as_public_dict (join_participant j b).1),
          (join_participant j b).1,
        ))
        r
        (λ b x b' y h.
          subst IsValid
            (ok_second ((join_participant j b).0, as_public_dict (join_participant j b).1) x
              (join_participant j b).1 b' h)
            (perform-IsValid (join j) b w y))
        v
  call-AllValid (leaving a id) r w v =
      with_booth-AllValid lower _ a (λ b. published (leave_participant id b)) r
        (λ b x b' y h.
          published-IsValid (leave id) b (ok (leave_participant id b)) x b' tt (λ z e. first _ z e)
            y h)
        v
  call-AllValid (unlocking a u now) r w v =
      with_booth-AllValid lower _ a (λ b. published (set_broadcast_unlocked u now b)) r
        (λ b x b' y h.
          published-IsValid (unlock u now) b (ok (set_broadcast_unlocked u now b)) x b' tt
            (λ z e. first _ z e) y h)
        v
  call-AllValid (activating a q t now) r w v =
      with_booth-AllValid lower _ a (λ b. set_active_interpreter q t now b >>= published) r
        (λ b x b' y h.
          published-IsValid (set_active q t now) b (set_active_interpreter q t now b) x b' tt
            (λ z e. ap (after b) e) y h)
        v
  call-AllValid (initiating a id) r w v =
      with_booth-AllValid lower _ a (λ b. initiate_handoff id b >>= published) r
        (λ b x b' y h.
          published-IsValid (initiate id) b (initiate_handoff id b) x b' tt (λ z e. ap (after b) e)
            y h)
        v
  call-AllValid (accepting a id now) r w v =
      with_booth-AllValid lower _ a (λ b. accept_handoff id now b >>= published) r
        (λ b x b' y h.
          published-IsValid (accept id now) b (accept_handoff id now b) x b' tt
            (λ z e. ap (after b) e) y h)
        v
  call-AllValid (cancelling a id) r w v =
      with_booth-AllValid lower _ a (λ b. cancel_handoff id b >>= published) r
        (λ b x b' y h.
          published-IsValid (cancel id) b (cancel_handoff id b) x b' tt (λ z e. ap (after b) e) y h)
        v
  call-AllValid (chatting a id body fresh now) r w v =
      with_booth-AllValid lower _ a
        (λ b. add_chat_message id body fresh now b >>= λ m. ok ((m.0, as_public_dict m.1), m.1)) r
        (λ b x b' y h.
          let (m, e, k) = >>=-eq-ok (add_chat_message id body fresh now b) _ h in
          subst IsValid (ap (after_chat b) e ∙ ok_second _ x m.1 b' k)
            (perform-IsValid (chat id body fresh now) b tt y))
        v
  call-AllValid (updating a id f now) r w v =
      with_booth-AllValid lower _ a (λ b. update_participant_state id f now b >>= published) r
        (λ b x b' y h.
          published-IsValid (update id f now) b (update_participant_state id f now b) x b' tt
            (λ z e. ap (after b) e) y h)
        v
  call-AllValid (checking a id) r w v =
      with_booth-AllValid lower _ a (λ b. check_publish_permission id b >> ok (tt, b)) r
        (λ b x b' y h.
          let (m, e, k) = >>=-eq-ok (check_publish_permission id b) _ h in
          subst IsValid (ok_second _ x b b' k) y)
        v
  call-AllValid (marking id) r w v = marking-AllValid lower id r v

  -- From a registry of valid booths, such as the empty one, every sequence of method calls, in any
  -- booths and whichever of them raise, leads to a registry of valid booths, as long as who joins has a
  -- role that can go live.
  pub calls-AllValid :
      (cs : List MethodCall) (r : Registry)
      → AllRoleMethods cs
      → AllValid r
      → AllValid (calls lower cs r)
  unfolding calls
  calls-AllValid [] r w v = v
  calls-AllValid (c ∷ cs) r w v = calls-AllValid cs (call lower c r) w.1 (call-AllValid c r w.0 v)
