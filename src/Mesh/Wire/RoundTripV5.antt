-- ===== src/Mesh/Wire/RoundTripV5.antt =====
-- FreeBridge datagrams: what `DmreV5PeerTransport` of
-- src/adn_server/infrastructure/mesh/transports.py encodes it decodes.
use adn_dmr_peer_server.Prelude.{
  ℕ, ◌+◌, ◌-◌, ◌≤◌, ◌<◌, ◌≡◌, ap, sym, ◌∙◌, true, none, some, [], ◌∷◌, ◌++◌, ltb_iff, length,
  length-append, take, slice, bytes_eq, nat_eq, list_beq_iff, arith,
}
use adn_dmr_peer_server.Prelude.Slices.{take-append_at, drop-append_at, take-all}
use adn_dmr_peer_server.Wire.{Bytes}
use adn_dmr_peer_server.Mesh.Wire.{Mac, dmre, PeerMeshConfig}
use adn_dmr_peer_server.Mesh.Wire.DmreV5.{
  DmreTrailer, verify_dmre_mac, dmre_blake2b_mac, parse_dmre_trailer, try_decode_v5,
}
use adn_dmr_peer_server.Mesh.Wire.Trailer.{
  datagram, Sizes, ltb-false, at_ber, at_rssi, at_time, at_source, length-datagram,
  parse_dmre_trailer-datagram, at_rptr, at_hops, at_short_hops,
}
use adn_dmr_peer_server.Mesh.Engine.{MeshIngress}

abbrev pub long_trailer : Bytes → Bytes → ℕ → Bytes → Bytes → Bytes → Bytes → DmreTrailer
long_trailer b r v t s q h = record {
  embedded_version = v;
  ber = b;
  rssi = r;
  timestamp = t;
  source_server = s;
  source_rptr = q;
  hops = h;
  hash_len = 73;
}

abbrev pub short_trailer : Bytes → Bytes → ℕ → Bytes → Bytes → Bytes → DmreTrailer
short_trailer b r v t s h = record {
  embedded_version = v;
  ber = b;
  rssi = r;
  timestamp = t;
  source_server = s;
  source_rptr = 0 ∷ 0 ∷ 0 ∷ 0 ∷ [];
  hops = h;
  hash_len = 69;
}

module _ (p b r : Bytes) (v : ℕ) (t s q h mac : Bytes) (sizes : Sizes p b r t s)
    (mac_size : length mac ≡ 16) (hops_size : length h ≡ 1) where
  pub parse_long :
      length q ≡ 4
      → 4 < v
      → parse_dmre_trailer (datagram p b r v t s (q ++ (h ++ mac)))
        ≡ some (long_trailer b r v t s q h)
  parse_long n new =
      let rest = q ++ (h ++ mac) in
      let size : length (datagram p b r v t s rest) ≡ 89 =
        length-datagram p b r v t s rest sizes
        ∙ omega (arith, length-append q (h ++ mac), length-append h mac, n, mac_size, hops_size) in
      parse_dmre_trailer-datagram p b r v t s rest sizes
        (omega (arith, length-append q (h ++ mac), n))
      ∙ rw ((ltb_iff 4 v).1 new) (
          rw ((ltb-false (length (datagram p b r v t s rest)) 89).1 (omega (arith, size))) (
            cc (
              at_ber p b r v t s rest sizes,
              at_rssi p b r v t s rest sizes,
              at_time p b r v t s rest sizes,
              at_source p b r v t s rest sizes,
              at_rptr p b r v t s q h mac sizes n,
              at_hops p b r v t s q h mac sizes n hops_size,
            )))

  pub parse_short :
      v ≤ 4
      → parse_dmre_trailer (datagram p b r v t s (h ++ mac)) ≡ some (short_trailer b r v t s h)
  parse_short old =
      let rest = h ++ mac in
      let size : length (datagram p b r v t s rest) ≡ 85 =
        length-datagram p b r v t s rest sizes
        ∙ omega (arith, length-append h mac, mac_size, hops_size) in
      parse_dmre_trailer-datagram p b r v t s rest sizes
        (omega (arith, length-append h mac, hops_size))
      ∙ rw ((ltb-false 4 v).1 old) (
          rw ((ltb-false (length (datagram p b r v t s rest)) 85).1 (omega (arith, size))) (
            cc (
              at_ber p b r v t s rest sizes,
              at_rssi p b r v t s rest sizes,
              at_time p b r v t s rest sizes,
              at_source p b r v t s rest sizes,
              at_short_hops p b r v t s q h mac sizes hops_size,
            )))

  -- A short datagram that calls itself version 5 or later is taken for a truncated long one.
  pub parse_mislabelled : 4 < v → parse_dmre_trailer (datagram p b r v t s (h ++ mac)) ≡ none
  parse_mislabelled new =
      let rest = h ++ mac in
      let size : length (datagram p b r v t s rest) ≡ 85 =
        length-datagram p b r v t s rest sizes
        ∙ omega (arith, length-append h mac, mac_size, hops_size) in
      parse_dmre_trailer-datagram p b r v t s rest sizes
        (omega (arith, length-append h mac, hops_size))
      ∙ rw ((ltb_iff 4 v).1 new)
          (rw ((ltb_iff (length (datagram p b r v t s rest)) 89).1 (omega (arith, size))))

-- The message that a trailer and a payload make.
abbrev pub ingress_of : Bytes → DmreTrailer → MeshIngress
ingress_of p trailer = record {
  codec = "dmre_v5";
  voice_frame = p;
  hops = trailer.hops;
  ber = trailer.ber;
  rssi = trailer.rssi;
  source_server = trailer.source_server;
  source_rptr = trailer.source_rptr;
  embedded_ver = some trailer.embedded_version;
  timestamp = trailer.timestamp;
}

module _ (blake2b : Mac) where
  pub decode_parsed :
      (packet : Bytes) (config : PeerMeshConfig) (trailer : DmreTrailer)
      → take 4 packet ≡ dmre
      → parse_dmre_trailer packet ≡ some trailer
      → verify_dmre_mac blake2b packet config.passphrase trailer.hash_len ≡ true
      → try_decode_v5 blake2b packet config ≡ some (ingress_of (take 53 packet) trailer)
  unfolding try_decode_v5
  decode_parsed packet config trailer e f g =
      rw ((list_beq_iff (take 4 packet) dmre).1 e) (rw f (rw g))

  pub decode_unparsed :
      (packet : Bytes) (config : PeerMeshConfig)
      → parse_dmre_trailer packet ≡ none
      → try_decode_v5 blake2b packet config ≡ none
  unfolding try_decode_v5
  decode_unparsed packet config f = rw f (ground arith)

module _ (blake2b : Mac)
    (digest_len : (key octets : Bytes) → length (blake2b key octets) ≡ 16) where
  -- A prefix with its digest behind it is verified.
  pub verify_dmre_mac-signed :
      (body passphrase : Bytes) (n : ℕ)
      → length body ≡ n
      → verify_dmre_mac blake2b (body ++ blake2b passphrase body) passphrase n ≡ true
  unfolding verify_dmre_mac dmre_blake2b_mac
  verify_dmre_mac-signed body passphrase n h =
      let mac = blake2b passphrase body in
      rw
        ((ltb-false (length (body ++ mac)) (n + 16)).1
          (omega (arith, length-append body mac, digest_len passphrase body)))
        ((list_beq_iff (slice n (n + 16) (body ++ mac))
            (blake2b passphrase (take n (body ++ mac)))).1
          (cut mac (digest_len passphrase body)
            ∙ sym (ap (blake2b passphrase) (take-append_at n body mac h))))
    where
      cut : (mac : Bytes) → length mac ≡ 16 → slice n (n + 16) (body ++ mac) ≡ mac
      cut mac l =
          let fit : n + 16 - n ≡ 16 = omega arith in
          rw (fit, drop-append_at n body mac h) (take-all 16 mac (omega (arith, l)))
