-- ===== src/Mesh/Wire/DmreV5.antt =====
-- src/adn_server/infrastructure/mesh/dmre_v5.py, and `DmreV5PeerTransport` of
-- src/adn_server/infrastructure/mesh/transports.py.
use adn_dmr_peer_server.Prelude.{
  ℕ, ◌+◌, ◌/◌, ◌%◌, ◌^◌, Bool, false, not, ◌||◌, Option, none, some, or_else, [], ◌∷◌, ◌++◌, ltb,
  length, take, drop, slice, get_elem?, if◌then◌else◌, ◌==◌, bytes_eq, nat_eq,
}
use adn_dmr_peer_server.Wire.{Bytes, to_byte, bytes_4}
use adn_dmr_peer_server.Mesh.Wire.{Mac, dmrd, dmre, PeerMeshConfig, MeshEgress}
use adn_dmr_peer_server.Mesh.Engine.{MeshIngress}

pub record DmreTrailer : Type 0 where
  pub embedded_version : ℕ
  pub ber : Bytes
  pub rssi : Bytes
  pub timestamp : Bytes
  pub source_server : Bytes
  pub source_rptr : Bytes
  pub hops : Bytes
  pub hash_len : ℕ

abbrev pub trailer_of : Bytes → Option ℕ → Option DmreTrailer
trailer_of packet none = none
trailer_of packet (some version) =
    if ltb 4 version
    then (if ltb (length packet) 89
        then none
        else some (record {
          embedded_version = version;
          ber = slice 53 54 packet;
          rssi = slice 54 55 packet;
          timestamp = slice 56 64 packet;
          source_server = slice 64 68 packet;
          source_rptr = slice 68 72 packet;
          hops = slice 72 73 packet;
          hash_len = 73;
        }))
    else if ltb (length packet) 85
    then none
    else some (record {
      embedded_version = version;
      ber = slice 53 54 packet;
      rssi = slice 54 55 packet;
      timestamp = slice 56 64 packet;
      source_server = slice 64 68 packet;
      source_rptr = 0 ∷ 0 ∷ 0 ∷ 0 ∷ [];
      hops = slice 68 69 packet;
      hash_len = 69;
    })

-- With 69 bytes or more, byte 55 is there.
unfoldable pub parse_dmre_trailer : Bytes → Option DmreTrailer
parse_dmre_trailer packet =
    if not (take 4 packet == dmre) || ltb (length packet) 69
    then none
    else trailer_of packet (get_elem? packet 55)

-- `timestamp_ns.to_bytes(8, "big")`: `none` is the `OverflowError`.
abbrev pub to_bytes_8 : ℕ → Option Bytes
to_bytes_8 n = if ltb n (2 ^ 64) then some (bytes_4 (n / 2 ^ 32) ++ bytes_4 (n % 2 ^ 32)) else none

-- What `build_dmre` answers: no packet for the versions 2 and 3, or an `OverflowError`.
pub data Built : Type 0 where
  unsupported : Built
  overflow : Built
  built : Bytes → Built

abbrev pub body_of : MeshEgress → Bytes → Bytes → Bytes → Bool → Bytes
body_of egress server_id ver_byte ts extended_layout =
    let head = slice 4 11 egress.inner_packet ++ (server_id ++ drop 15 egress.inner_packet) in
    dmre
    ++ (head
        ++ (egress.ber
            ++ (egress.rssi
                ++ (ver_byte
                    ++ (ts
                        ++ (egress.source_server
                            ++ (if extended_layout
                                then egress.source_rptr ++ egress.hops
                                else egress.hops)))))))

-- `wire_ver is not None and wire_ver > 4`
abbrev pub wide : Option ℕ → Bool
wide none = false
wide (some ver) = ltb 4 ver

-- `blake2b(key=passphrase, digest_size=16)`
module _ (blake2b : Mac) where
  unfoldable pub dmre_blake2b_mac : Bytes → Bytes → ℕ → Bytes
  dmre_blake2b_mac packet passphrase hash_len = blake2b passphrase (take hash_len packet)

  unfoldable pub verify_dmre_mac : Bytes → Bytes → ℕ → Bool
  unfolding dmre_blake2b_mac
  verify_dmre_mac packet passphrase hash_len =
      if ltb (length packet) (hash_len + 16)
      then false
      else slice hash_len (hash_len + 16) packet == dmre_blake2b_mac packet passphrase hash_len

  abbrev pub signed : Bytes → Bytes → Built
  signed passphrase body = built (body ++ dmre_blake2b_mac body passphrase (length body))

  abbrev pub encoded : MeshEgress → PeerMeshConfig → Bool → Option Bytes → Option Bytes → Built
  encoded egress config extended none ts = overflow
  encoded egress config extended (some ver_byte) none = overflow
  encoded egress config extended (some ver_byte) (some ts) =
      signed config.passphrase (body_of egress config.server_id ver_byte ts extended)

  -- `build_dmre`, on the fields of the message and of the configuration that it is called with
  unfoldable pub build_dmre : MeshEgress → PeerMeshConfig → ℕ → Bool → Built
  unfolding dmre_blake2b_mac
  build_dmre egress config timestamp_ns extended_layout =
      if config.embedded_ver == 2 || config.embedded_ver == 3
      then unsupported
      else encoded egress config extended_layout (to_byte config.embedded_ver)
          (to_bytes_8 timestamp_ns)

  abbrev pub ingress_v5 : Bytes → PeerMeshConfig → Option DmreTrailer → Option MeshIngress
  ingress_v5 datagram config none = none
  ingress_v5 datagram config (some trailer) =
      if not (verify_dmre_mac datagram config.passphrase trailer.hash_len)
      then none
      else some (record {
        codec = "dmre_v5";
        voice_frame = take 53 datagram;
        hops = trailer.hops;
        ber = trailer.ber;
        rssi = trailer.rssi;
        source_server = trailer.source_server;
        source_rptr = trailer.source_rptr;
        embedded_ver = some trailer.embedded_version;
        timestamp = trailer.timestamp;
      })

  unfoldable pub try_decode_v5 : Bytes → PeerMeshConfig → Option MeshIngress
  try_decode_v5 datagram config =
      if not (take 4 datagram == dmre)
      then none
      else ingress_v5 datagram config (parse_dmre_trailer datagram)

  -- `now` is `time.time_ns()`. The outer `none` is an inner packet that is no DMRD.
  unfoldable pub encode_v5 : MeshEgress → PeerMeshConfig → ℕ → Option Built
  unfolding build_dmre
  encode_v5 egress config now =
      if not (take 4 egress.inner_packet == dmrd)
      then none
      else some (build_dmre egress config (or_else egress.timestamp_ns now) (wide config.wire_ver))
