-- ===== src/Mesh/Engine/Hops.antt =====
-- Hop counts along a path of servers that each take a frame in by the v5 handler of
-- src/adn_server/domain/mesh_engine.py.
use adn_dmr_peer_server.Prelude.{
  ℕ, suc, ◌+◌, ◌≤◌, ◌<◌, ◌≡◌, inl, inr, ap, ◌∙◌, true, Option, none, [], ◌∷◌, slice, get_elem?,
  get_elem?_before, Bool-cases, Option-cases, arith,
}
use adn_dmr_peer_server.Wire.{Bytes, from_bytes}
use adn_dmr_peer_server.Mesh.Admission.Rules.{check_network_id}
use adn_dmr_peer_server.Mesh.Session.{ObpBridgeSession, Address}
use adn_dmr_peer_server.Mesh.Engine.{MeshIngress, BridgePolicy, accepts_source, Deliver}
use adn_dmr_peer_server.Mesh.Engine.Ingest.{ingest_dmre_v5}
use adn_dmr_peer_server.Mesh.Engine.Delivery.{delivered, ingest_dmre_v5-Outcome, Outcome-delivers}

-- The hop field of a frame that so many servers delivered one after the other, each taking it from
-- the one before; the first takes it with any hop field at all.
pub data Relayed : ℕ → Bytes → Type 0 where
  origin : (hops : Bytes) → Relayed 0 hops
  relay :
      {n : ℕ} (ingress : MeshIngress) (addr : Option Address) (policy : BridgePolicy)
      (session : ObpBridgeSession) (timestamp_ns now : ℕ) (d : Deliver)
      → Relayed n ingress.hops
      → delivered (ingest_dmre_v5 ingress addr policy session timestamp_ns now).0 ≡ d ∷ []
      → Relayed (suc n) d.hops

module _ (ingress : MeshIngress) (addr : Option Address) (policy : BridgePolicy)
    (session : ObpBridgeSession) (timestamp_ns now : ℕ) where
  missing_bits :
      get_elem? ingress.voice_frame 15 ≡ none
      → delivered (ingest_dmre_v5 ingress addr policy session timestamp_ns now).0 ≡ []
  unfolding ingest_dmre_v5
  missing_bits e = elim (Bool-cases (accepts_source addr policy session)) [
    | inr refused ↦ rw refused
    | inl accepted ↦
        rw accepted
          (elim (Option-cases (
            check_network_id policy.system (slice 16 20 ingress.voice_frame) policy.network_id
              (slice 11 15 ingress.voice_frame) true)) [
                | inr (r, f) ↦ rw f
                | inl same ↦ rw (same, e)
              ])
  ]

  -- A delivery takes a frame of fewer than ten hops, and adds one.
  pub delivery_hops :
      (d : Deliver)
      → delivered (ingest_dmre_v5 ingress addr policy session timestamp_ns now).0 ≡ d ∷ []
      → (from_bytes ingress.hops < 10) × (from_bytes d.hops ≡ from_bytes ingress.hops + 1)
  delivery_hops d h = elim (Option-cases (get_elem? ingress.voice_frame 15)) [
    | inl e ↦ cc (missing_bits e)
    | inr (bits, e) ↦
        let (seq, f) = get_elem?_before ingress.voice_frame 4 15 (omega arith) e in
        let (allowed, same) =
          Outcome-delivers now session (ingest_dmre_v5 ingress addr policy session timestamp_ns now)
            (ingest_dmre_v5-Outcome ingress addr policy session timestamp_ns now bits seq e f) h in
        ((((allowed.1).1).1).1.0, ap (λ (x : Deliver). from_bytes x.hops) same ∙ one_more)
  ]
    where
      one_more : from_bytes ((from_bytes ingress.hops + 1) ∷ []) ≡ from_bytes ingress.hops + 1
      one_more = unfold from_bytes in omega arith

hops_counted : {n : ℕ} {hops : Bytes} → Relayed n hops → (n ≤ from_bytes hops) × (n ≤ 10)
hops_counted (origin hops) = omega arith
hops_counted (relay ingress addr policy session timestamp_ns now d before sent) =
    omega (
      arith,
      hops_counted before,
      delivery_hops ingress addr policy session timestamp_ns now d sent,
    )

-- No frame is delivered by more than ten servers one after the other, where each takes it by the v5
-- handler with the hop field that the one before delivered, whatever the frame, their policies, their
-- sessions and the first hop field are.
pub Relayed-le-max_hops : {n : ℕ} {hops : Bytes} → Relayed n hops → n ≤ 10
Relayed-le-max_hops r = (hops_counted r).1
