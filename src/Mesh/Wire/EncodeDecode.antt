-- ===== src/Mesh/Wire/EncodeDecode.antt =====
-- What a FreeBridge peer makes of a message, and which it cannot read: `DmreV5PeerTransport` of
-- src/adn_server/infrastructure/mesh/transports.py.
use adn_dmr_peer_server.Prelude.{
  ℕ, ◌<◌, ◌≡◌, refl, ap, sym, ◌∙◌, Bool, true, false, none, some, [], ◌∷◌, ltb, length,
  if◌then◌else◌,
}
use adn_dmr_peer_server.Wire.{Bytes}
use adn_dmr_peer_server.Mesh.Wire.{Mac, PeerMeshConfig, MeshEgress}
use adn_dmr_peer_server.Mesh.Wire.DmreV5.{built, try_decode_v5, encode_v5, wide, parse_dmre_trailer}
use adn_dmr_peer_server.Mesh.Wire.RoundTripV5.{parse_mislabelled, decode_unparsed, ingress_of}
use adn_dmr_peer_server.Mesh.Wire.Transports.{
  Fits, time_bytes, payload_of, time_of, payload-Sizes, body-append, encode_v5-built, mac_of,
  mac_size, packet, decode_packet, trailer_of_message,
}
use adn_dmr_peer_server.Mesh.Engine.{MeshIngress}

-- What the receiver should read of a message.
abbrev pub received : MeshEgress → PeerMeshConfig → ℕ → MeshIngress
received egress config now = record {
  codec = "dmre_v5";
  voice_frame = payload_of egress config;
  hops = egress.hops;
  ber = egress.ber;
  rssi = egress.rssi;
  source_server = egress.source_server;
  source_rptr = if wide config.wire_ver then egress.source_rptr else 0 ∷ 0 ∷ 0 ∷ 0 ∷ [];
  embedded_ver = some config.embedded_ver;
  timestamp = time_bytes (time_of egress now);
}

module _ (blake2b : Mac) (digest_len : (key octets : Bytes) → length (blake2b key octets) ≡ 16)
    (egress : MeshEgress) (config : PeerMeshConfig) (now : ℕ)
    (fits : Fits egress config (time_of egress now)) where
  -- Where the layout that the configured version chooses is the one that the embedded version
  -- announces, a message whose parts have their sizes is encoded, and a peer with the same passphrase
  -- reads back all its fields; the source repeater is zero in the layout that has no room for it. It
  -- is assumed that a digest has 16 bytes.
  pub decode-encode_v5 :
      wide config.wire_ver ≡ ltb 4 config.embedded_ver
      → (octets : Bytes) × (encode_v5 blake2b egress config now ≡ some (built octets))
        × (try_decode_v5 blake2b octets config ≡ some (received egress config now))
  decode-encode_v5 agree = (
    packet blake2b digest_len egress config now fits (wide config.wire_ver),
    encode_v5-built egress config now fits blake2b (wide config.wire_ver) refl,
    decode_packet blake2b digest_len egress config now fits (wide config.wire_ver) (sym agree)
        ∙ fields (wide config.wire_ver) refl,
  )
    where
      fields :
          (ext : Bool)
          → wide config.wire_ver ≡ ext
          → some (
              ingress_of (payload_of egress config) (trailer_of_message egress config now fits ext))
            ≡ some (received egress config now)
      fields true w = rw w
      fields false w = rw w

  -- Where the short layout is chosen and the embedded version is 5 or more, as it is for a link
  -- configured for version 4, the message is encoded and no peer with this decoder can read it.
  pub encode_v5-unreadable :
      wide config.wire_ver ≡ false
      → 4 < config.embedded_ver
      → (octets : Bytes) × (encode_v5 blake2b egress config now ≡ some (built octets))
        × ((peer : PeerMeshConfig) → try_decode_v5 blake2b octets peer ≡ none)
  encode_v5-unreadable short new = (
    packet blake2b digest_len egress config now fits false,
    encode_v5-built egress config now fits blake2b false short,
    λ peer. decode_unparsed blake2b _ peer (
        ap parse_dmre_trailer (
          body-append egress config now fits egress.hops
            (mac_of blake2b digest_len egress config now fits false))
        ∙ parse_mislabelled (payload_of egress config) egress.ber egress.rssi config.embedded_ver
            (time_bytes (time_of egress now)) egress.source_server egress.source_rptr egress.hops
            (mac_of blake2b digest_len egress config now fits false)
            (payload-Sizes egress config now fits)
            (mac_size blake2b digest_len egress config now fits false) fits.hops_size new),
  )
