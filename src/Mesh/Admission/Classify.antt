-- ===== src/Mesh/Admission/Classify.antt =====
-- What an access list decides: src/adn_server/infrastructure/acl_router.py.
use adn_dmr_peer_server.Prelude.{ℕ, ◌≤◌, ◌≡◌, ◌↔◌, ◌⊎◌, Bool, not, List, [], ◌∷◌, arith}
use adn_dmr_peer_server.Wire.{Bytes, int_id}
use adn_dmr_peer_server.Mesh.Admission.Chains.{in_ranges, acl_check}

-- An id lies in one of the ranges, both ends included.
abbrev pub Listed : ℕ → List (ℕ × ℕ) → Type 0
Listed i [] = ⊥
Listed i ((lo, hi) ∷ ranges) = ((lo ≤ i) × (i ≤ hi)) ⊎ Listed i ranges

in_ranges_iff :
    (i : ℕ) (action : Bool) (ranges : List (ℕ × ℕ))
    → (in_ranges i action ranges ≡ action) ↔ Listed i ranges
unfolding in_ranges
in_ranges_iff i action [] = ground arith
in_ranges_iff i action ((lo, hi) ∷ ranges) = ground (arith, in_ranges_iff i action ranges)

-- A list gives an id the list's own action exactly if one of its ranges has the id, both ends
-- included, and else it gives the opposite action.
pub acl_check-Listed :
    (id : Bytes) (action : Bool) (ranges : List (ℕ × ℕ))
    → ((acl_check id (action, ranges) ≡ action) ↔ Listed (int_id id) ranges)
      × ((¬ Listed (int_id id) ranges) → acl_check id (action, ranges) ≡ not action)
unfolding acl_check
acl_check-Listed id action ranges = (
  in_ranges_iff (int_id id) action ranges,
  λ h. opposite (in_ranges_iff (int_id id) action ranges) h,
)
  where
    opposite : {b : Bool} {P : Type 0} → (b ≡ action) ↔ P → (¬ P) → b ≡ not action
    opposite p h = ground arith
