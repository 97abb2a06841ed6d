-- ===== src/Mesh/Engine/Tests.antt =====
-- The handlers at concrete frames.
use adn_dmr_peer_server.Prelude.{
  ℕ, ◌≤◌, ◌≡◌, Bool, true, false, Option, none, some, List, [], ◌∷◌, ◌++◌, String, refl, All, arith,
}
use adn_dmr_peer_server.Wire.{Bytes}
use adn_dmr_peer_server.Mesh.Admission.{
  group, ObpFrame, no_rules, MeshEnvelope, AdmissionContext, CallAttributes,
}
use adn_dmr_peer_server.Mesh.Admission.Bits.{call_attributes}
use adn_dmr_peer_server.Mesh.Admission.Accepts.{AllowedV1, AllowedV5}
use adn_dmr_peer_server.Mesh.Session.{ObpBridgeSession, Address}
use adn_dmr_peer_server.Mesh.Engine.{
  MeshIngress, BridgePolicy, Deliver, delivery_effects, frame_of, delivery_v1, delivery_v5,
  envelope_of,
}
use adn_dmr_peer_server.Mesh.Engine.Ingest.{ingest_dmrd_v1, ingest_dmre_v5}
use adn_dmr_peer_server.Mesh.Engine.Delivery.{
  AcceptedSource, Outcome, delivered, routed_v1, routed_v5, ingest_dmrd_v1-Outcome,
  ingest_dmre_v5-Outcome,
}
use adn_dmr_peer_server.Mesh.Engine.Effects.{BurstIsWhole, delivery_effects-BurstIsWhole}
use adn_dmr_peer_server.Mesh.Engine.Hops.{origin, relay, Relayed-le-max_hops}

abbrev thirty_three : Bytes
thirty_three =
    1 ∷ 2 ∷ 3 ∷ 4 ∷ 5 ∷ 6 ∷ 7 ∷ 8 ∷ 9 ∷ 10 ∷ 11 ∷ 12 ∷ 13 ∷ 14 ∷ 15 ∷ 16 ∷ 17 ∷ 18 ∷ 19 ∷ 20 ∷ 21
    ∷ 22 ∷ 23 ∷ 24 ∷ 25 ∷ 26 ∷ 27 ∷ 28 ∷ 29 ∷ 30 ∷ 31 ∷ 32 ∷ 33 ∷ []

-- Sequence number 9, subscriber 7302001, talkgroup 7302, peer 7302, the attribute byte 33, stream
-- 1.2.3.4 and a burst.
abbrev a_packet : Bytes
a_packet =
    b'D' ∷ b'M' ∷ b'R' ∷ b'D' ∷ 9 ∷ 111 ∷ 107 ∷ 113 ∷ 0 ∷ 28 ∷ 134 ∷ 0 ∷ 0 ∷ 28 ∷ 134 ∷ 33 ∷ 1 ∷ 2
    ∷ 3 ∷ 4 ∷ thirty_three

abbrev an_ingress : MeshIngress
an_ingress = record {
  codec = "dmre_v5";
  voice_frame = a_packet;
  hops = 2 ∷ [];
  ber = 0 ∷ [];
  rssi = 0 ∷ [];
  source_server = 0 ∷ 0 ∷ 28 ∷ 134 ∷ [];
  source_rptr = 0 ∷ 0 ∷ 0 ∷ 0 ∷ [];
  embedded_ver = some 5;
  timestamp = [];
}

abbrev a_policy : BridgePolicy
a_policy = record {
  system = "OBP-1";
  network_id = 0 ∷ 0 ∷ 28 ∷ 134 ∷ [];
  proto_ver = some 5;
  relax_checks = true;
  server_id = 0 ∷ 0 ∷ 28 ∷ 132 ∷ [];
  admission = record {
    stunned = false;
    acl_check = none;
    global_rules = no_rules;
    system_rules = no_rules;
    server_id = 7300;
    validate_server_ids = false;
    known_server_prefixes = [];
    resolve_server_id = none;
  };
}

abbrev a_session : ObpBridgeSession
a_session = record {
  system_name = "OBP-1";
  configured_peer = (some "192.0.2.1", 62044);
  learned_peer = none;
  learned_at = 0;
  last_keepalive = none;
  quenched = [];
  stunned = false;
  drops = [];
  dns_host = none;
  resolved_peer = none;
  dns_checked_at = 0;
}

abbrev an_addr : Option Address
an_addr = some ("192.0.2.1", 62044)

ingest_dmre_v5-Outcome_example :
    Outcome
      (AcceptedSource an_ingress an_addr a_policy a_session
        × AllowedV5
            (frame_of a_policy a_packet 1 (call_attributes 33).call_type)
            (envelope_of an_ingress 7)
            a_policy.admission
            8)
      (routed_v5 an_ingress 9 (call_attributes 33))
      8
      a_session
      (ingest_dmre_v5 an_ingress an_addr a_policy a_session 7 8)
unfolding adn_dmr_peer_server.Wire.from_bytes
ingest_dmre_v5-Outcome_example =
    ingest_dmre_v5-Outcome an_ingress an_addr a_policy a_session 7 8 33 9 refl refl

ingest_dmrd_v1-Outcome_example :
    Outcome
      (AcceptedSource an_ingress an_addr a_policy a_session
        × AllowedV1
            (frame_of a_policy a_packet 1 (call_attributes 33).call_type)
            a_policy.admission)
      (routed_v1 a_policy a_packet 9 (call_attributes 33))
      8
      a_session
      (ingest_dmrd_v1 an_ingress an_addr a_policy a_session 8)
unfolding call_attributes
ingest_dmrd_v1-Outcome_example =
    ingest_dmrd_v1-Outcome an_ingress an_addr a_policy a_session 8 33 9 refl refl

abbrev a_delivery : Deliver
a_delivery = delivery_v5 an_ingress (3 ∷ []) 9 (call_attributes 33)

delivery_effects-BurstIsWhole_example :
    All BurstIsWhole
      (delivery_effects (frame_of a_policy a_packet 1 group) a_packet (1 ∷ []) 0 4 a_delivery)
delivery_effects-BurstIsWhole_example =
    delivery_effects-BurstIsWhole (frame_of a_policy a_packet 1 group) a_packet (1 ∷ []) 0 4
      a_delivery

-- The first server delivers the frame.
sent : delivered (ingest_dmre_v5 an_ingress an_addr a_policy a_session 7 8).0 ≡ a_delivery ∷ []
unfolding ingest_dmre_v5 adn_dmr_peer_server.Mesh.Engine.accepts_source
    adn_dmr_peer_server.Mesh.Session.peer adn_dmr_peer_server.Mesh.Admission.Rules.check_network_id
    adn_dmr_peer_server.Mesh.Admission.Chains.admit_dmre_v5
    adn_dmr_peer_server.Mesh.Admission.Rules.check_stun
    adn_dmr_peer_server.Mesh.Admission.Rules.check_packet_age
    adn_dmr_peer_server.Mesh.Admission.Rules.check_source_server
    adn_dmr_peer_server.Prelude.Decimal.str adn_dmr_peer_server.Wire.from_bytes
    adn_dmr_peer_server.Mesh.Admission.Rules.check_hops
    adn_dmr_peer_server.Mesh.Admission.Filters.check_tg_filter_v5 call_attributes
    adn_dmr_peer_server.Wire.int_id adn_dmr_peer_server.Mesh.Admission.Filters.check_acl_chain
    delivery_effects
sent = refl

Relayed-le-max_hops_example : 1 ≤ 10
Relayed-le-max_hops_example =
    Relayed-le-max_hops
      (relay an_ingress an_addr a_policy a_session 7 8 a_delivery (origin (2 ∷ [])) sent)
