-- ===== src/Mesh/Engine/Ingest.antt =====
-- src/adn_server/domain/mesh_engine.py: `ingest_dmrd_v1` and `ingest_dmre_v5`.
use adn_dmr_peer_server.Prelude.{
  ℕ, ◌+◌, true, false, not, Option, none, some, if◌then◌else◌, slice, get_elem?,
}
use adn_dmr_peer_server.Wire.{Bytes, from_bytes, to_byte}
use adn_dmr_peer_server.Mesh.Admission.{CallAttributes, Rejection}
use adn_dmr_peer_server.Mesh.Admission.Bits.{call_attributes}
use adn_dmr_peer_server.Mesh.Admission.Rules.{check_network_id}
use adn_dmr_peer_server.Mesh.Admission.Chains.{admit_dmrd_v1, admit_dmre_v5}
use adn_dmr_peer_server.Mesh.Session.{ObpBridgeSession, Address, note_keepalive}
use adn_dmr_peer_server.Mesh.Engine.{
  MeshIngress, BridgePolicy, accepts_source, delivery_effects, index_error, overflow_error, Answer,
  not_accepted, raised, effects, frame_of, rejected, delivery_v1, delivery_v5, envelope_of,
}

-- `data[4]` and what follows the admission of a v1 frame
deliver_v1 :
    BridgePolicy
    → Bytes
    → CallAttributes
    → ℕ
    → ObpBridgeSession
    → Option ℕ
    → Answer × ObpBridgeSession
deliver_v1 policy packet attrs now session none = (raised index_error, session)
deliver_v1 policy packet attrs now session (some seq) = (
  effects (
      delivery_effects (frame_of policy packet attrs.slot attrs.call_type) packet
        (slice 11 15 packet) attrs.frame_type attrs.dtype_vseq
        (delivery_v1 policy packet seq attrs)),
  note_keepalive now session,
)

admitted_v1 :
    BridgePolicy
    → Bytes
    → CallAttributes
    → ℕ
    → ObpBridgeSession
    → Option Rejection
    → Answer × ObpBridgeSession
admitted_v1 policy packet attrs now session (some rejection) = (rejected rejection packet, session)
admitted_v1 policy packet attrs now session none =
    deliver_v1 policy packet attrs now session (get_elem? packet 4)

-- `data[15]` and what follows
attributed_v1 : BridgePolicy → Bytes → ℕ → ObpBridgeSession → Option ℕ → Answer × ObpBridgeSession
attributed_v1 policy packet now session none = (raised index_error, session)
attributed_v1 policy packet now session (some bits) =
    let attrs = call_attributes bits in
    admitted_v1 policy packet attrs now session
      (admit_dmrd_v1 (frame_of policy packet attrs.slot attrs.call_type) policy.admission)

identified_v1 :
    BridgePolicy → Bytes → ℕ → ObpBridgeSession → Option Rejection → Answer × ObpBridgeSession
identified_v1 policy packet now session (some rejection) = (rejected rejection packet, session)
identified_v1 policy packet now session none =
    attributed_v1 policy packet now session (get_elem? packet 15)

unfoldable pub ingest_dmrd_v1 :
    MeshIngress → Option Address → BridgePolicy → ObpBridgeSession → ℕ → Answer × ObpBridgeSession
unfolding deliver_v1 admitted_v1 attributed_v1 identified_v1
ingest_dmrd_v1 ingress addr policy session now =
    let packet = ingress.voice_frame in
    if not (accepts_source addr policy session)
    then (not_accepted, session)
    else identified_v1 policy packet now session (
        check_network_id policy.system (slice 16 20 packet) policy.network_id (slice 11 15 packet)
          false)

-- `data[4]`, the hop byte and what follows the admission of a v5 frame
deliver_v5 :
    MeshIngress
    → BridgePolicy
    → CallAttributes
    → ℕ
    → ObpBridgeSession
    → Option ℕ
    → Option Bytes
    → Answer × ObpBridgeSession
deliver_v5 ingress policy attrs now session none hops = (raised index_error, session)
deliver_v5 ingress policy attrs now session (some seq) none = (raised overflow_error, session)
deliver_v5 ingress policy attrs now session (some seq) (some hops) =
    let packet = ingress.voice_frame in
    (
      effects (
          delivery_effects (frame_of policy packet 1 attrs.call_type) packet (slice 11 15 packet)
            attrs.frame_type attrs.dtype_vseq (delivery_v5 ingress hops seq attrs)),
      note_keepalive now session,
    )

admitted_v5 :
    MeshIngress
    → BridgePolicy
    → CallAttributes
    → ℕ
    → ObpBridgeSession
    → Option Rejection
    → Answer × ObpBridgeSession
admitted_v5 ingress policy attrs now session (some rejection) =
    (rejected rejection ingress.voice_frame, session)
admitted_v5 ingress policy attrs now session none =
    deliver_v5 ingress policy attrs now session (get_elem? ingress.voice_frame 4)
      (to_byte (from_bytes ingress.hops + 1))

attributed_v5 :
    MeshIngress → BridgePolicy → ℕ → ℕ → ObpBridgeSession → Option ℕ → Answer × ObpBridgeSession
attributed_v5 ingress policy timestamp_ns now session none = (raised index_error, session)
attributed_v5 ingress policy timestamp_ns now session (some bits) =
    let attrs = call_attributes bits in
    admitted_v5 ingress policy attrs now session (
      admit_dmre_v5 (frame_of policy ingress.voice_frame 1 attrs.call_type)
        (envelope_of ingress timestamp_ns) policy.admission now)

identified_v5 :
    MeshIngress
    → BridgePolicy
    → ℕ
    → ℕ
    → ObpBridgeSession
    → Option Rejection
    → Answer × ObpBridgeSession
identified_v5 ingress policy timestamp_ns now session (some rejection) =
    (rejected rejection ingress.voice_frame, session)
identified_v5 ingress policy timestamp_ns now session none =
    attributed_v5 ingress policy timestamp_ns now session (get_elem? ingress.voice_frame 15)

unfoldable pub ingest_dmre_v5 :
    MeshIngress
    → Option Address
    → BridgePolicy
    → ObpBridgeSession
    → ℕ
    → ℕ
    → Answer × ObpBridgeSession
unfolding deliver_v5 admitted_v5 attributed_v5 identified_v5
ingest_dmre_v5 ingress addr policy session timestamp_ns now =
    let packet = ingress.voice_frame in
    if not (accepts_source addr policy session)
    then (not_accepted, session)
    else identified_v5 ingress policy timestamp_ns now session (
        check_network_id policy.system (slice 16 20 packet) policy.network_id (slice 11 15 packet)
          true)
