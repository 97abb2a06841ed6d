-- ===== src/Mesh/Admission/Chains.antt =====
-- src/adn_server/domain/mesh_admission.py: the gauntlets, and the access check of
-- src/adn_server/infrastructure/acl_router.py that they are given.
use adn_dmr_peer_server.Prelude.{ℕ, Bool, not, Option, ◌or◌, List, [], ◌∷◌, within, if◌then◌else◌}
use adn_dmr_peer_server.Wire.{Bytes, int_id}
use adn_dmr_peer_server.Mesh.Admission.{ObpFrame, Rejection, Acl, MeshEnvelope, AdmissionContext}
use adn_dmr_peer_server.Mesh.Admission.Rules.{
  check_slot, check_stun, check_packet_age, check_source_server, check_hops,
}
use adn_dmr_peer_server.Mesh.Admission.Filters.{
  check_tg_filter_v1, check_tg_filter_v5, check_acl_chain,
}

-- the loop of `InMemoryAclRouter.acl_check`
unfoldable pub in_ranges : ℕ → Bool → List (ℕ × ℕ) → Bool
in_ranges i action [] = not action
in_ranges i action ((lo, hi) ∷ ranges) =
    if within lo hi i then action else in_ranges i action ranges

unfoldable pub acl_check : Bytes → Acl → Bool
unfolding in_ranges
acl_check id (action, ranges) = in_ranges (int_id id) action ranges

unfoldable pub admit_dmrd_v1 : ObpFrame → AdmissionContext → Option Rejection
admit_dmrd_v1 frame ctx =
    check_slot frame
    or check_stun frame ctx.stunned
    or check_tg_filter_v1 frame
    or check_acl_chain frame ctx

unfoldable pub admit_dmre_v5 : ObpFrame → MeshEnvelope → AdmissionContext → ℕ → Option Rejection
admit_dmre_v5 frame envelope ctx now =
    check_stun frame ctx.stunned
    or check_packet_age frame envelope now
    or check_source_server frame envelope ctx
    or check_hops frame envelope
    or check_tg_filter_v5 frame envelope ctx
    or check_acl_chain frame ctx
