-- ===== src/Registry/Valid.antt =====
-- The validity of every booth of the registry under a method: portal/booth_state.py.
use voxbento.Prelude.{
  ℕ, ◌≡◌, refl, subst, Option, none, some, Option-cases, inl, inr, [], Text, get, put, All, All-put,
  All-get, Result, ok, err, Result-cases, arith,
}
use voxbento.Identity.{BoothInstance, primary, parse_booth_id, make_mediamtx_path}
use voxbento.Booth.{Booth}
use voxbento.Booth.Valid.{IsValid}
use voxbento.Booth.Safety.{IsUnused, IsUnused-IsValid}
use voxbento.Registry.{
  Registry, Address, post_init, new_booth, create_from, create_for, get_or_create_booth, finish,
  conclude, with_booth,
}

abbrev pub AllValid : Registry → Type 0
AllValid r = All (λ k b. IsValid b) r

ok_injective : (b c : Booth) → ◌≡◌ {A = Result Booth} (ok b) (ok c) → b ≡ c
ok_injective b c h = cc

post_init-IsUnused :
    (lower : Text → Text) (b b' : Booth) → IsUnused b → post_init lower b ≡ ok b' → IsUnused b'
unfolding post_init
post_init-IsUnused lower b b' u h = elim (Option-cases b.room_id) [
  | inl e ↦ ground (arith, u)
  | inr (room, e) ↦
      elim (Result-cases (make_mediamtx_path lower b.event_slug (some room) b.language_code)) [
        | inl (path, m) ↦ ground (arith, u)
        | inr (x, m) ↦ ground (arith, u)
      ]
]

pub new_booth-IsUnused :
    (lower : Text → Text) (a : Address) (slug code : Text) (inst : BoothInstance) (b : Booth)
    → new_booth lower a slug code inst ≡ ok b
    → IsUnused b
unfolding new_booth
new_booth-IsUnused lower a slug code inst b h =
    post_init-IsUnused lower _ b
      (record { nobody = refl; no_active = refl; no_handoff = refl; no_initiator = refl }) h

create_from-IsUnused :
    (lower : Text → Text) (a : Address) (m : Result (Text × ℕ × Text)) (b : Booth)
    → create_from lower a m ≡ ok b
    → IsUnused b
unfolding create_from
create_from-IsUnused lower a (ok (slug, parsed, code)) b h =
    new_booth-IsUnused lower _ slug code primary b h
create_from-IsUnused lower a (err x) b h = new_booth-IsUnused lower a [] [] primary b h

create_for-IsUnused :
    (lower : Text → Text) (a : Address) (b : Booth) → create_for lower a ≡ ok b → IsUnused b
unfolding create_for
create_for-IsUnused lower a b h = create_from-IsUnused lower a (parse_booth_id lower a.booth_id) b h

-- The booth that a method works on is valid, and so is every booth of the registry with it.
get_or_create-AllValid :
    (lower : Text → Text) (a : Address) (r : Registry)
    → AllValid r
    → AllValid (get_or_create_booth lower a r).1
      × ((b : Booth) → (get_or_create_booth lower a r).0 ≡ ok b → IsValid b)
unfolding get_or_create_booth
get_or_create-AllValid lower a r v = found (get a.booth_id r) refl (create_for lower a) refl
  where
    found :
        (o : Option Booth)
        → get a.booth_id r ≡ o
        → (m : Result Booth) → create_for lower a ≡ m
        → let result : Result Booth × Registry = elim o [
          | some b ↦ (ok b, r)
          | none ↦ elim m [ ok b ↦ (ok b, put a.booth_id b r) | err e ↦ (err e, r) ]
        ] in
          AllValid result.1 × ((b : Booth) → result.0 ≡ ok b → IsValid b)
    found (some b) e m c = (
      v,
      λ b' h. subst IsValid (ok_injective b b' h) (All-get (λ k x. IsValid x) a.booth_id r v e),
    )
    found none e (err x) c = (v, λ b h. absurd (cc))
    found none e (ok b) c =
        let new = IsUnused-IsValid b (create_for-IsUnused lower a b c) in
        (
          All-put (λ k x. IsValid x) a.booth_id b r new v,
          λ b' h. subst IsValid (ok_injective b b' h) new,
        )

module _ (lower : Text → Text) (A : Type 0) (a : Address) (body : Booth → Result (A × Booth)) where
  -- A method keeps every booth valid if its body keeps the one that it works on valid.
  pub with_booth-AllValid :
      (r : Registry)
      → ((b : Booth) (x : A) (b' : Booth) → IsValid b → body b ≡ ok (x, b') → IsValid b')
      → AllValid r
      → AllValid (with_booth lower a body r).1
  unfolding with_booth
  with_booth-AllValid r keep v =
      let (all, one) = get_or_create-AllValid lower a r v in
      concluded (get_or_create_booth lower a r).0 (get_or_create_booth lower a r).1 all one
    where
      finished :
          (b : Booth) (m : Result (A × Booth)) (s : Registry)
          → IsValid b
          → body b ≡ m
          → AllValid s
          → AllValid (finish a.booth_id m s).1
      finished b (err e) s w h all = all
      finished b (ok (x, c)) s w h all =
          All-put (λ k y. IsValid y) a.booth_id c s (keep b x c w h) all

      concluded :
          (g : Result Booth) (s : Registry)
          → AllValid s
          → ((b : Booth) → g ≡ ok b → IsValid b)
          → AllValid (conclude a.booth_id body g s).1
      concluded (err e) s all one = all
      concluded (ok b) s all one = finished b (body b) s (one b refl) refl all
