-- ===== src/Mesh/Wire/ObpV1.antt =====
-- src/adn_server/infrastructure/mesh/obp_v1.py, and `ObpV1PeerTransport` of
-- src/adn_server/infrastructure/mesh/transports.py. `compare_digest` is equality of `bytes`.
use adn_dmr_peer_server.Prelude.{
  ℕ, Bool, false, not, ◌||◌, Option, none, some, [], ◌∷◌, ◌++◌, ltb, length, take, drop, slice,
  if◌then◌else◌, ◌==◌, bytes_eq,
}
use adn_dmr_peer_server.Wire.{Bytes, from_bytes, to_byte}
use adn_dmr_peer_server.Mesh.Wire.{Mac, dmrd, bcka, bcsq, bcst, bcve, PeerMeshConfig, MeshEgress}
use adn_dmr_peer_server.Mesh.Engine.{MeshIngress}

pub record VerifiedBcsq : Type 0 where
  pub tgid : Bytes
  pub stream_id : Bytes

-- `obp_hmac_sha1`
module _ (hmac_sha1 : Mac) where
  unfoldable pub build_dmrd_v1 : Bytes → Bytes → Bytes → Bytes
  build_dmrd_v1 dmr_packet server_id passphrase =
      let packet = dmrd ++ (slice 4 11 dmr_packet ++ (server_id ++ drop 15 dmr_packet)) in
      packet ++ hmac_sha1 passphrase packet

  -- the payload of `VerifiedDmrdV1`
  unfoldable pub verify_dmrd_v1 : Bytes → Bytes → Option Bytes
  verify_dmrd_v1 packet passphrase =
      if not (take 4 packet == dmrd) || ltb (length packet) 73
      then none
      else let payload = take 53 packet in
        if not (slice 53 73 packet == hmac_sha1 passphrase payload) then none else some payload

  unfoldable pub build_bcka : Bytes → Bytes
  build_bcka passphrase = bcka ++ hmac_sha1 passphrase bcka

  unfoldable pub verify_bcka : Bytes → Bytes → Bool
  verify_bcka packet passphrase =
      if not (take 4 packet == bcka) || ltb (length packet) 24
      then false
      else slice 4 24 packet == hmac_sha1 passphrase (take 4 packet)

  abbrev bcve_packet : Bytes → Option Bytes → Option Bytes
  bcve_packet passphrase none = none
  bcve_packet passphrase (some ver) = some ((bcve ++ ver) ++ hmac_sha1 passphrase ver)

  -- `none` is the `OverflowError` of a version above 255.
  unfoldable pub build_bcve : ℕ → Bytes → Option Bytes
  build_bcve ver passphrase = bcve_packet passphrase (to_byte ver)

  -- `(ok, ver)`
  unfoldable pub verify_bcve : Bytes → Bytes → Bool × Option ℕ
  verify_bcve packet passphrase =
      if not (take 4 packet == bcve) || ltb (length packet) 25
      then (false, none)
      else let ok = slice 5 25 packet == hmac_sha1 passphrase (slice 4 5 packet) in
        (ok, if ok then some (from_bytes (slice 4 5 packet)) else none)

  unfoldable pub build_bcsq : Bytes → Bytes → Bytes → Bytes
  build_bcsq tgid stream_id passphrase =
      let packet = bcsq ++ (tgid ++ stream_id) in packet ++ hmac_sha1 passphrase packet

  unfoldable pub verify_bcsq : Bytes → Bytes → Option VerifiedBcsq
  verify_bcsq packet passphrase =
      if not (take 4 packet == bcsq) || ltb (length packet) 31
      then none
      else if not (slice 11 31 packet == hmac_sha1 passphrase (take 11 packet))
      then none
      else some (record { tgid = slice 4 7 packet; stream_id = slice 7 11 packet })

  unfoldable pub verify_bcst : Bytes → Bytes → Bool
  verify_bcst packet passphrase =
      if not (take 4 packet == bcst) || ltb (length packet) 24
      then false
      else slice 4 24 packet == hmac_sha1 passphrase (take 4 packet)

  abbrev ingress_v1 : PeerMeshConfig → Option Bytes → Option MeshIngress
  ingress_v1 config none = none
  ingress_v1 config (some payload) = some (record {
    codec = "obp_v1";
    voice_frame = payload;
    hops = [];
    ber = 0 ∷ [];
    rssi = 0 ∷ [];
    source_server = config.server_id;
    source_rptr = 0 ∷ 0 ∷ 0 ∷ 0 ∷ [];
    embedded_ver = none;
    timestamp = 0 ∷ 0 ∷ 0 ∷ 0 ∷ 0 ∷ 0 ∷ 0 ∷ 0 ∷ [];
  })

  unfoldable pub try_decode_v1 : Bytes → PeerMeshConfig → Option MeshIngress
  try_decode_v1 datagram config =
      if not (take 4 datagram == dmrd)
      then none
      else ingress_v1 config (verify_dmrd_v1 datagram config.passphrase)

  unfoldable pub encode_v1 : MeshEgress → PeerMeshConfig → Option Bytes
  encode_v1 egress config =
      if not (take 4 egress.inner_packet == dmrd)
      then none
      else some (build_dmrd_v1 egress.inner_packet config.server_id config.passphrase)
