-- ===== src/Mesh/Wire/Tests.antt =====
-- Datagrams with concrete parts, and a digest that is always zero.
use adn_dmr_peer_server.Prelude.{◌≡◌, ◌↔◌, none, some, [], ◌∷◌, ◌++◌, length, take, refl, arith}
use adn_dmr_peer_server.Wire.{Bytes}
use adn_dmr_peer_server.Mesh.Wire.{Mac, dmrd, PeerMeshConfig, MeshEgress}
use adn_dmr_peer_server.Mesh.Wire.ObpV1.{try_decode_v1, verify_dmrd_v1}
use adn_dmr_peer_server.Mesh.Wire.DmreV5.{built, try_decode_v5, encode_v5}
use adn_dmr_peer_server.Mesh.Wire.Registry.{
  decode_auto, default_peer_transports, decode_auto-default,
}
use adn_dmr_peer_server.Mesh.Wire.RoundTrip.{verify_dmrd_v1-some_iff}
use adn_dmr_peer_server.Mesh.Wire.Transports.{Fits}
use adn_dmr_peer_server.Mesh.Wire.EncodeDecode.{received, decode-encode_v5, encode_v5-unreadable}

abbrev digest_16 : Mac
digest_16 key octets = 0 ∷ 0 ∷ 0 ∷ 0 ∷ 0 ∷ 0 ∷ 0 ∷ 0 ∷ 0 ∷ 0 ∷ 0 ∷ 0 ∷ 0 ∷ 0 ∷ 0 ∷ 0 ∷ []

abbrev digest_20 : Mac
digest_20 key octets = 1 ∷ 1 ∷ 1 ∷ 1 ∷ digest_16 key octets

abbrev a_packet : Bytes
a_packet =
    b'D' ∷ b'M' ∷ b'R' ∷ b'D' ∷ 9 ∷ 111 ∷ 107 ∷ 113 ∷ 0 ∷ 28 ∷ 134 ∷ 0 ∷ 0 ∷ 28 ∷ 134 ∷ 33 ∷ 1 ∷ 2
    ∷ 3 ∷ 4 ∷ 1 ∷ 2 ∷ 3 ∷ 4 ∷ 5 ∷ 6 ∷ 7 ∷ 8 ∷ 9 ∷ 10 ∷ 11 ∷ 12 ∷ 13 ∷ 14 ∷ 15 ∷ 16 ∷ 17 ∷ 18 ∷ 19
    ∷ 20 ∷ 21 ∷ 22 ∷ 23 ∷ 24 ∷ 25 ∷ 26 ∷ 27 ∷ 28 ∷ 29 ∷ 30 ∷ 31 ∷ 32 ∷ 33 ∷ []

abbrev an_egress : MeshEgress
an_egress = record {
  inner_packet = a_packet;
  hops = 2 ∷ [];
  ber = 0 ∷ [];
  rssi = 0 ∷ [];
  source_server = 0 ∷ 0 ∷ 28 ∷ 134 ∷ [];
  source_rptr = 0 ∷ 0 ∷ 0 ∷ 5 ∷ [];
  timestamp_ns = none;
}

abbrev config_5 : PeerMeshConfig
config_5 = record {
  passphrase = b's' ∷ [];
  server_id = 0 ∷ 0 ∷ 28 ∷ 134 ∷ [];
  wire_ver = some 5;
  embedded_ver = 5;
}

abbrev config_4 : PeerMeshConfig
config_4 = record config_5 { wire_ver = some 4 }

config_5-Fits : Fits an_egress config_5 7
config_5-Fits = record {
  inner_size = refl;
  inner_head = refl;
  server_size = refl;
  ber_size = refl;
  rssi_size = refl;
  source_size = refl;
  rptr_size = refl;
  hops_size = refl;
  version_fits = omega arith;
  not_two = omega arith;
  not_three = omega arith;
  time_fits = omega arith;
}

config_4-Fits : Fits an_egress config_4 7
config_4-Fits = record {
  inner_size = refl;
  inner_head = refl;
  server_size = refl;
  ber_size = refl;
  rssi_size = refl;
  source_size = refl;
  rptr_size = refl;
  hops_size = refl;
  version_fits = omega arith;
  not_two = omega arith;
  not_three = omega arith;
  time_fits = omega arith;
}

decode-encode_v5_example :
    (octets : Bytes) × (encode_v5 digest_16 an_egress config_5 7 ≡ some (built octets))
    × (try_decode_v5 digest_16 octets config_5 ≡ some (received an_egress config_5 7))
decode-encode_v5_example =
    decode-encode_v5 digest_16 (λ key octets. refl) an_egress config_5 7 config_5-Fits refl

encode_v5-unreadable_example :
    (octets : Bytes) × (encode_v5 digest_16 an_egress config_4 7 ≡ some (built octets))
    × ((peer : PeerMeshConfig) → try_decode_v5 digest_16 octets peer ≡ none)
encode_v5-unreadable_example =
    encode_v5-unreadable digest_16 (λ key octets. refl) an_egress config_4 7 config_4-Fits refl
      (omega arith)

verify_dmrd_v1-some_iff_example :
    (verify_dmrd_v1 digest_20 (a_packet ++ digest_20 [] []) (b's' ∷ []) ≡ some a_packet) ↔ (
      (rest : Bytes) × (a_packet ++ digest_20 [] []
        ≡ a_packet ++ (digest_20 (b's' ∷ []) a_packet ++ rest))
      × (length a_packet ≡ 53)
      × (take 4 a_packet ≡ dmrd))
verify_dmrd_v1-some_iff_example =
    verify_dmrd_v1-some_iff digest_20 (λ key octets. refl) (a_packet ++ digest_20 [] []) (b's' ∷ [])
      a_packet

decode_auto-default_example :
    decode_auto (default_peer_transports digest_20 digest_16) (a_packet ++ digest_20 [] []) config_5
    ≡ try_decode_v1 digest_20 (a_packet ++ digest_20 [] []) config_5
decode_auto-default_example =
    decode_auto-default digest_20 digest_16 (a_packet ++ digest_20 [] []) config_5
