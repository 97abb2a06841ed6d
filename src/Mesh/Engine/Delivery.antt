-- ===== src/Mesh/Engine/Delivery.antt =====
-- When a frame is delivered to routing, and what that does to the session:
-- src/adn_server/domain/mesh_engine.py.
use adn_dmr_peer_server.Prelude.{
  ℕ, ◌+◌, ◌<◌, ◌≡◌, ◌↔◌, ◌⊎◌, inl, inr, refl, Bool, true, false, Option, none, some, List, [], ◌∷◌,
  bytes_eq, list_beq_iff, slice, drop, get_elem?, Bool-cases, Option-cases, arith, String,
}
use adn_dmr_peer_server.Wire.{Bytes, from_bytes, to_byte}
use adn_dmr_peer_server.Mesh.Admission.{CallAttributes, ObpFrame, MeshEnvelope}
use adn_dmr_peer_server.Mesh.Admission.Bits.{call_attributes}
use adn_dmr_peer_server.Mesh.Admission.Rules.{check_network_id}
use adn_dmr_peer_server.Mesh.Admission.Chains.{admit_dmrd_v1, admit_dmre_v5}
use adn_dmr_peer_server.Mesh.Admission.Accepts.{
  AllowedV1, AllowedV5, admit_dmrd_v1-none_iff, admit_dmre_v5-none_iff,
}
use adn_dmr_peer_server.Mesh.Session.{ObpBridgeSession, Address, note_keepalive}
use adn_dmr_peer_server.Mesh.Engine.{
  MeshIngress, BridgePolicy, accepts_source, delivery_effects, Deliver, Effect, reject, log,
  request_version, note_stream, store_talker_alias, deliver, Answer, not_accepted, raised, effects,
  frame_of, envelope_of,
}
use adn_dmr_peer_server.Mesh.Engine.Ingest.{ingest_dmrd_v1, ingest_dmre_v5}

-- What an answer hands to routing.
abbrev pub deliveries : List Effect → List Deliver
deliveries [] = []
deliveries (deliver d ∷ es) = d ∷ deliveries es
deliveries (reject r t s ∷ es) = deliveries es
deliveries (log l m a ∷ es) = deliveries es
deliveries (request_version ∷ es) = deliveries es
deliveries (note_stream p r s ∷ es) = deliveries es
deliveries (store_talker_alias p r s v b ∷ es) = deliveries es

abbrev pub delivered : Answer → List Deliver
delivered not_accepted = []
delivered (raised e) = []
delivered (effects es) = deliveries es

abbrev pub raises : Answer → Bool
raises (raised e) = true
raises _ = false

pub deliveries-delivery_effects :
    (frame : ObpFrame) (packet peer_id : Bytes) (frame_type dtype_vseq : ℕ) (d : Deliver)
    → deliveries (delivery_effects frame packet peer_id frame_type dtype_vseq d) ≡ d ∷ []
unfolding delivery_effects
deliveries-delivery_effects frame packet peer_id frame_type dtype_vseq d = ground arith

network_id_iff :
    (system : String) (stream expected received : Bytes) (dmre : Bool)
    → (check_network_id system stream expected received dmre ≡ none) ↔ (expected ≡ received)
unfolding check_network_id
network_id_iff system stream expected received dmre = ground (arith, list_beq_iff expected received)

-- The one outcome that hands `d` to routing and notes a keepalive, or an answer that does neither.
abbrev pub Outcome : Type 0 → Deliver → ℕ → ObpBridgeSession → Answer × ObpBridgeSession → Type 0
Outcome Allowed d now session (answer, session') =
    (raises answer ≡ false)
    × (Allowed × (delivered answer ≡ d ∷ []) × (session' ≡ note_keepalive now session)
        ⊎ (¬ Allowed) × (delivered answer ≡ []) × (session' ≡ session))

-- A delivery tells that the frame was allowed, and which one it is.
pub Outcome-delivers :
    {Allowed : Type 0} {expected d : Deliver} (now : ℕ) (session : ObpBridgeSession)
    (r : Answer × ObpBridgeSession)
    → Outcome Allowed expected now session r
    → delivered r.0 ≡ d ∷ []
    → Allowed × (d ≡ expected)
Outcome-delivers now session r (_, inl (allowed, sent, _)) h = (allowed, cc)
Outcome-delivers now session r (_, inr (_, none_sent, _)) h = cc

abbrev pub AcceptedSource : MeshIngress → Option Address → BridgePolicy → ObpBridgeSession → Type 0
AcceptedSource ingress addr policy session =
    (accepts_source addr policy session ≡ true)
    × (policy.network_id ≡ slice 11 15 ingress.voice_frame)

-- What routing is to be handed of an accepted v1 frame: the fields of the frame at their places, the
-- attributes of its byte 15, and none of the fields that the v5 protocol adds.
abbrev pub routed_v1 : BridgePolicy → Bytes → ℕ → CallAttributes → Deliver
routed_v1 policy packet seq attrs = record {
  peer_id = slice 11 15 packet;
  rf_src = slice 5 8 packet;
  dst_id = slice 8 11 packet;
  seq = seq;
  slot = attrs.slot;
  call_type = attrs.call_type;
  frame_type = attrs.frame_type;
  dtype_vseq = attrs.dtype_vseq;
  stream_id = slice 16 20 packet;
  frame = packet;
  hops = [];
  source_server = policy.server_id;
  ber = 0 ∷ [];
  rssi = 0 ∷ [];
  source_rptr = 0 ∷ 0 ∷ 0 ∷ 0 ∷ [];
}

-- What routing is to be handed of an accepted v5 frame: slot 1 whatever its byte 15 says, one hop more
-- than it came with, "DMRD" in the place of its first four bytes, and what its envelope tells.
abbrev pub routed_v5 : MeshIngress → ℕ → CallAttributes → Deliver
routed_v5 ingress seq attrs = record {
  peer_id = slice 11 15 ingress.voice_frame;
  rf_src = slice 5 8 ingress.voice_frame;
  dst_id = slice 8 11 ingress.voice_frame;
  seq = seq;
  slot = 1;
  call_type = attrs.call_type;
  frame_type = attrs.frame_type;
  dtype_vseq = attrs.dtype_vseq;
  stream_id = slice 16 20 ingress.voice_frame;
  frame = 68 ∷ 77 ∷ 82 ∷ 68 ∷ drop 4 ingress.voice_frame;
  hops = (from_bytes ingress.hops + 1) ∷ [];
  source_server = ingress.source_server;
  ber = ingress.ber;
  rssi = ingress.rssi;
  source_rptr = ingress.source_rptr;
}

-- A v1 frame that has its bytes 4 and 15 never raises. It is delivered to routing, once and with the
-- fields of `routed_v1`, and notes a keepalive exactly if its source is accepted, it has the bridge's network id and it meets the
-- conditions of the v1 gauntlet; else it delivers nothing and leaves the session as it was.
pub ingest_dmrd_v1-Outcome :
    (ingress : MeshIngress) (addr : Option Address) (policy : BridgePolicy)
    (session : ObpBridgeSession) (now bits seq : ℕ)
    → get_elem? ingress.voice_frame 15 ≡ some bits
    → get_elem? ingress.voice_frame 4 ≡ some seq
    → let attrs = call_attributes bits in
      let packet = ingress.voice_frame in
      Outcome
        (AcceptedSource ingress addr policy session
          × AllowedV1 (frame_of policy packet attrs.slot attrs.call_type) policy.admission)
        (routed_v1 policy packet seq attrs)
        now
        session
        (ingest_dmrd_v1 ingress addr policy session now)
unfolding ingest_dmrd_v1
ingest_dmrd_v1-Outcome ingress addr policy session now bits seq hb hs =
    elim (Bool-cases (accepts_source addr policy session)) [
      | inr refused ↦ rw refused (refl, inr ((λ q. cc), refl, refl))
      | inl accepted ↦
          rw accepted
            (elim (Option-cases (
              check_network_id policy.system (slice 16 20 packet) policy.network_id
                (slice 11 15 packet) false)) [
                  | inr (r, e) ↦ rw e (refl, inr ((λ q. cc (e, (net).1 (q.0).1)), refl, refl))
                  | inl same ↦
                      rw (same, hb)
                        (elim (Option-cases (admit_dmrd_v1 frame policy.admission)) [
                          | inr (r, e) ↦ rw e (refl, inr ((λ q. cc (e, admit.1 q.1)), refl, refl))
                          | inl ok ↦
                              rw (ok, hs)
                                (
                                  refl,
                                  inl (
                                    ((refl, net.0 same), admit.0 ok),
                                    deliveries-delivery_effects _ _ _ _ _ _,
                                    refl,
                                  ),
                                )
                        ])
                ])
    ]
  where
    packet : Bytes
    packet = ingress.voice_frame

    attrs : CallAttributes
    attrs = call_attributes bits

    frame : ObpFrame
    frame = frame_of policy packet attrs.slot attrs.call_type

    net :
        (check_network_id policy.system
            (slice 16 20 packet)
            policy.network_id
            (slice 11 15 packet)
            false
          ≡ none)
        ↔ (policy.network_id ≡ slice 11 15 packet)
    net = network_id_iff _ _ _ _ _

    admit : (admit_dmrd_v1 frame policy.admission ≡ none) ↔ AllowedV1 frame policy.admission
    admit = admit_dmrd_v1-none_iff frame policy.admission

to_byte-hops : (n : ℕ) → n < 10 → to_byte (n + 1) ≡ some ((n + 1) ∷ [])
to_byte-hops n h = ground arith

-- A v5 frame that has its bytes 4 and 15 never raises: the hop count fits its byte. It is delivered
-- to routing, once and with the fields of `routed_v5` (slot 1, one hop more, the frame under the name
-- DMRD), and notes a keepalive exactly if its source is
-- accepted, it has the bridge's network id and it meets the conditions of the v5 gauntlet; else it
-- delivers nothing and leaves the session as it was.
pub ingest_dmre_v5-Outcome :
    (ingress : MeshIngress) (addr : Option Address) (policy : BridgePolicy)
    (session : ObpBridgeSession) (timestamp_ns now bits seq : ℕ)
    → get_elem? ingress.voice_frame 15 ≡ some bits
    → get_elem? ingress.voice_frame 4 ≡ some seq
    → let attrs = call_attributes bits in
      Outcome
        (AcceptedSource ingress addr policy session
          × AllowedV5
              (frame_of policy ingress.voice_frame 1 attrs.call_type)
              (envelope_of ingress timestamp_ns)
              policy.admission
              now)
        (routed_v5 ingress seq attrs)
        now
        session
        (ingest_dmre_v5 ingress addr policy session timestamp_ns now)
unfolding ingest_dmre_v5
ingest_dmre_v5-Outcome ingress addr policy session timestamp_ns now bits seq hb hs =
    elim (Bool-cases (accepts_source addr policy session)) [
      | inr refused ↦ rw refused (refl, inr ((λ q. cc), refl, refl))
      | inl accepted ↦
          rw accepted
            (elim (Option-cases (
              check_network_id policy.system (slice 16 20 packet) policy.network_id
                (slice 11 15 packet) true)) [
                  | inr (r, e) ↦ rw e (refl, inr ((λ q. cc (e, (net).1 (q.0).1)), refl, refl))
                  | inl same ↦
                      rw (same, hb)
                        (elim (Option-cases (admit_dmre_v5 frame envelope policy.admission now)) [
                          | inr (r, e) ↦ rw e (refl, inr ((λ q. cc (e, admit.1 q.1)), refl, refl))
                          | inl ok ↦
                              rw
                                (
                                  ok,
                                  hs,
                                  to_byte-hops (from_bytes ingress.hops) (few_hops (admit.0 ok)),
                                )
                                (
                                  refl,
                                  inl (
                                    ((refl, net.0 same), admit.0 ok),
                                    deliveries-delivery_effects _ _ _ _ _ _,
                                    refl,
                                  ),
                                )
                        ])
                ])
    ]
  where
    packet : Bytes
    packet = ingress.voice_frame

    frame : ObpFrame
    frame = frame_of policy packet 1 (call_attributes bits).call_type

    envelope : MeshEnvelope
    envelope = envelope_of ingress timestamp_ns

    net :
        (check_network_id policy.system
            (slice 16 20 packet)
            policy.network_id
            (slice 11 15 packet)
            true
          ≡ none)
        ↔ (policy.network_id ≡ slice 11 15 packet)
    net = network_id_iff _ _ _ _ _

    admit :
        (admit_dmre_v5 frame envelope policy.admission now ≡ none)
        ↔ AllowedV5 frame envelope policy.admission now
    admit = admit_dmre_v5-none_iff frame envelope policy.admission now

    few_hops : AllowedV5 frame envelope policy.admission now → from_bytes ingress.hops < 10
    few_hops q = (((q.1).1).1).0
