-- ===== src/Connections/Members.antt =====
-- Only members get the messages of a booth: `broadcast` of portal/websockets/manager.py.
use voxbento.Prelude.{
  ℕ, ◌≡◌, inl, inr, true, false, Option-cases, some, List, [], ◌∷◌, nat_eq, nat_eq_iff, nat_has_eq,
  text_has_eq, any, is_empty, arith,
}
use voxbento.Connections.{Session, get_session}
use voxbento.Connections.Broadcast.{is_candidate, candidates, user_ids}

module _ (ss : List (ℕ × Session)) (ws : ℕ) (s : Session) (has : get_session ws ss ≡ some s) where
  has_user :
      (i : ℕ) (room : List ℕ)
      → s.user_id ≡ some i
      → is_candidate s ≡ true
      → any (λ i. nat_eq i ws) room ≡ true
      → is_empty (user_ids (candidates ss room)) ≡ false
  unfolding candidates user_ids
  has_user i [] u c h = absurd (ground arith)
  has_user i (w ∷ room) u c h = elim (Option-cases (get_session w ss)) [
    | inl e ↦ ground (arith, has_user i room u c, nat_eq_iff w ws)
    | inr (x, e) ↦ ground (arith, has_user i room u c, nat_eq_iff w ws, Option-cases x.user_id)
  ]
