-- ===== src/Registry/Frame.antt =====
-- What a method of `BoothRegistry` leaves alone: portal/booth_state.py.
use voxbento.Prelude.{
  ◌≡◌, refl, ap, ◌∙◌, false, some, Option-cases, inl, inr, Text, text_eq, text_eq_iff, text_eq_refl,
  get, get-put, Result, ok, err, Error, Result-cases, arith,
}
use voxbento.Booth.{Booth}
use voxbento.Registry.{
  Registry, Address, create_for, get_or_create_booth, finish, conclude, with_booth,
}

module _ (lower : Text → Text) (a : Address) (r : Registry) where
  get_or_create_frame :
      (k : Text) → text_eq a.booth_id k ≡ false → get k (get_or_create_booth lower a r).1 ≡ get k r
  unfolding get_or_create_booth
  get_or_create_frame k n = elim (Option-cases (get a.booth_id r)) [
    | inr (b, e) ↦ ground arith
    | inl e ↦ elim (Result-cases (create_for lower a)) [
      | inl (b, c) ↦ ground (arith, get-put a.booth_id k b r)
      | inr (x, c) ↦ ground arith
    ]
  ]

  pub get_or_create_keeps :
      (k : Text) (b : Booth) → get k r ≡ some b → get k (get_or_create_booth lower a r).1 ≡ some b
  unfolding get_or_create_booth
  get_or_create_keeps k b g = elim (Option-cases (get a.booth_id r)) [
    | inr (c, e) ↦ ground arith
    | inl e ↦ elim (Result-cases (create_for lower a)) [
      | inl (c, d) ↦ ground (arith, get-put a.booth_id k c r, text_eq_iff a.booth_id k)
      | inr (x, d) ↦ ground arith
    ]
  ]

  -- The booth that a method gets is in the registry.
  pub get_or_create_stored :
      (b : Booth)
      → (get_or_create_booth lower a r).0 ≡ ok b
      → get a.booth_id (get_or_create_booth lower a r).1 ≡ some b
  unfolding get_or_create_booth
  get_or_create_stored b h = elim (Option-cases (get a.booth_id r)) [
    | inr (c, e) ↦ ground arith
    | inl e ↦ elim (Result-cases (create_for lower a)) [
      | inl (c, d) ↦ ground (arith, get-put a.booth_id a.booth_id c r, text_eq_refl a.booth_id)
      | inr (x, d) ↦ ground arith
    ]
  ]

conclude_frame :
    (A : Type 0) (id : Text) (body : Booth → Result (A × Booth)) (found : Result Booth)
    (r : Registry) (k : Text)
    → text_eq id k ≡ false
    → get k (conclude id body found r).1 ≡ get k r
unfolding conclude
conclude_frame A id body (err e) r k n = refl
conclude_frame A id body (ok b) r k n = ended (body b)
  where
    ended : (m : Result (A × Booth)) → get k (finish id m r).1 ≡ get k r
    ended (err e) = refl
    ended (ok (x, c)) = ground (arith, get-put id k c r)

conclude_err :
    (A : Type 0) (id : Text) (body : Booth → Result (A × Booth)) (found : Result Booth)
    (r : Registry) (e : Error)
    → (conclude id body found r).0 ≡ err e
    → (conclude id body found r).1 ≡ r
unfolding conclude
conclude_err A id body (err x) r e h = refl
conclude_err A id body (ok b) r e h = ended (body b) h
  where
    ended : (m : Result (A × Booth)) → (finish id m r).0 ≡ err e → (finish id m r).1 ≡ r
    ended (err x) h = refl
    ended (ok (x, c)) h = cc

-- A method on one booth leaves every other booth of the registry alone, whatever its body does, and
-- a method that raises leaves all the booths that were there as they were.
pub with_booth_frame :
    (lower : Text → Text) (A : Type 0) (a : Address) (body : Booth → Result (A × Booth))
    (r : Registry) (k : Text)
    → (text_eq a.booth_id k ≡ false → get k (with_booth lower a body r).1 ≡ get k r)
      × ((e : Error) (b : Booth)
          → (with_booth lower a body r).0 ≡ err e
          → get k r ≡ some b
          → get k (with_booth lower a body r).1 ≡ some b)
unfolding with_booth
with_booth_frame lower A a body r k =
    let g = get_or_create_booth lower a r in
    (
      (λ n. conclude_frame A a.booth_id body g.0 g.1 k n ∙ get_or_create_frame lower a r k n),
      (λ e b h there.
          ap (get k) (conclude_err A a.booth_id body g.0 g.1 e h)
          ∙ get_or_create_keeps lower a r k b there),
    )
