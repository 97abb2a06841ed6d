-- ===== src/Mesh/Wire/Transports.antt =====
-- FreeBridge messages over the wire: `encode` and `try_decode` of `DmreV5PeerTransport`,
-- src/adn_server/infrastructure/mesh/transports.py.
use adn_dmr_peer_server.Prelude.{
  ℕ, ◌^◌, ◌/◌, ◌%◌, ◌≤◌, ◌<◌, ◌≡◌, ◌≢◌, refl, ap, ◌∙◌, Bool, true, false, some, or_else, [], ◌∷◌,
  ◌++◌, ltb, ltb_iff, length, length-append, length-take, length-drop, take, drop, slice, ◌==◌,
  bytes_eq, nat_eq, list_beq_iff, arith,
}
use mathlib.Core.List.{append_assoc}
use adn_dmr_peer_server.Prelude.Slices.{take-append_le, take-all}
use adn_dmr_peer_server.Wire.{Bytes, bytes_4}
use adn_dmr_peer_server.Mesh.Wire.{Mac, dmrd, dmre, PeerMeshConfig, MeshEgress}
use adn_dmr_peer_server.Mesh.Wire.DmreV5.{
  DmreTrailer, built, body_of, verify_dmre_mac, try_decode_v5, encode_v5, wide, parse_dmre_trailer,
}
use adn_dmr_peer_server.Mesh.Wire.Trailer.{datagram, Sizes, length-datagram, ltb-false}
use adn_dmr_peer_server.Mesh.Wire.RoundTripV5.{
  long_trailer, short_trailer, parse_long, parse_short, ingress_of, decode_parsed,
  verify_dmre_mac-signed,
}

datagram-append :
    (p b r : Bytes) (v : ℕ) (t s rest mac : Bytes)
    → datagram p b r v t s rest ++ mac ≡ datagram p b r v t s (rest ++ mac)
datagram-append p b r v t s rest mac = simp append_assoc

beq_false : (n m : ℕ) → n ≢ m → (n == m) ≡ false
beq_false n m h = ground arith

-- A message whose parts have their sizes, for a version that has a byte and is sent at all.
pub record Fits (egress : MeshEgress) (config : PeerMeshConfig) (time : ℕ) : Type 0 where
  pub inner_size : length egress.inner_packet ≡ 53
  pub inner_head : take 4 egress.inner_packet ≡ dmrd
  pub server_size : length config.server_id ≡ 4
  pub ber_size : length egress.ber ≡ 1
  pub rssi_size : length egress.rssi ≡ 1
  pub source_size : length egress.source_server ≡ 4
  pub rptr_size : length egress.source_rptr ≡ 4
  pub hops_size : length egress.hops ≡ 1
  pub version_fits : config.embedded_ver < 256
  pub not_two : config.embedded_ver ≢ 2
  pub not_three : config.embedded_ver ≢ 3
  pub time_fits : time < 2 ^ 64

abbrev pub time_bytes : ℕ → Bytes
time_bytes n = bytes_4 (n / 2 ^ 32) ++ bytes_4 (n % 2 ^ 32)

-- The 53 bytes in front: the inner packet as DMRE, with our server id for the peer id.
abbrev pub payload_of : MeshEgress → PeerMeshConfig → Bytes
payload_of egress config =
    dmre ++ (slice 4 11 egress.inner_packet ++ (config.server_id ++ drop 15 egress.inner_packet))

abbrev pub time_of : MeshEgress → ℕ → ℕ
time_of egress now = or_else egress.timestamp_ns now

module _ (egress : MeshEgress) (config : PeerMeshConfig) (now : ℕ)
    (fits : Fits egress config (time_of egress now)) where
  pub payload-Sizes :
      Sizes
        (payload_of egress config)
        egress.ber
        egress.rssi
        (time_bytes (time_of egress now))
        egress.source_server
  unfolding bytes_4
  payload-Sizes = record {
    payload_size = omega (
      arith,
      length-append (slice 4 11 egress.inner_packet)
          (config.server_id ++ drop 15 egress.inner_packet),
      length-append config.server_id (drop 15 egress.inner_packet),
      length-take 7 (drop 4 egress.inner_packet),
      length-drop 4 egress.inner_packet,
      length-drop 15 egress.inner_packet,
      fits,
    );
    ber_size = fits.ber_size;
    rssi_size = fits.rssi_size;
    time_size = refl;
    source_size = fits.source_size;
    is_dmre = refl;
  }

  abbrev pub tail_of : Bool → Bytes
  tail_of true = egress.source_rptr ++ egress.hops
  tail_of false = egress.hops

  abbrev pub body : Bytes → Bytes
  body rest =
      datagram (payload_of egress config) egress.ber egress.rssi config.embedded_ver
        (time_bytes (time_of egress now)) egress.source_server rest

  pub body-append : (rest mac : Bytes) → body rest ++ mac ≡ body (rest ++ mac)
  body-append rest mac =
      datagram-append (payload_of egress config) egress.ber egress.rssi config.embedded_ver
        (time_bytes (time_of egress now)) egress.source_server rest mac

  pub encode_v5-built :
      (blake2b : Mac) (extended : Bool)
      → wide config.wire_ver ≡ extended
      → encode_v5 blake2b egress config now
        ≡ some
            (built (body (tail_of extended) ++ blake2b config.passphrase (body (tail_of extended))))
  unfolding encode_v5
  encode_v5-built blake2b extended w =
      rw ((list_beq_iff (take 4 egress.inner_packet) dmrd).1 fits.inner_head) (
        rw (beq_false config.embedded_ver 2 fits.not_two) (
          rw (beq_false config.embedded_ver 3 fits.not_three) (
            rw ((ltb_iff config.embedded_ver 256).1 fits.version_fits) (
              rw ((ltb_iff (time_of egress now) (2 ^ 64)).1 fits.time_fits)
                (rw w (ap (λ b. some (built b)) (same extended)))))))
    where
      signed_body : Bool → Bytes
      signed_body ext =
          body_of egress config.server_id (config.embedded_ver ∷ [])
            (time_bytes (time_of egress now)) ext

      reassociated : (ext : Bool) → signed_body ext ≡ body (tail_of ext)
      reassociated true = simp append_assoc
      reassociated false = simp append_assoc

      same :
          (ext : Bool)
          → signed_body ext
              ++ blake2b config.passphrase (take (length (signed_body ext)) (signed_body ext))
            ≡ body (tail_of ext) ++ blake2b config.passphrase (body (tail_of ext))
      same ext =
          ap (λ t. signed_body ext ++ blake2b config.passphrase t)
            (take-all (length (signed_body ext)) (signed_body ext) (omega arith))
          ∙ ap (λ t. t ++ blake2b config.passphrase t) (reassociated ext)

  -- The trailer that the receiver reads of the message.
  abbrev pub trailer_of_message : Bool → DmreTrailer
  trailer_of_message true =
      long_trailer egress.ber egress.rssi config.embedded_ver (time_bytes (time_of egress now))
        egress.source_server egress.source_rptr egress.hops
  trailer_of_message false =
      short_trailer egress.ber egress.rssi config.embedded_ver (time_bytes (time_of egress now))
        egress.source_server egress.hops

module _ (blake2b : Mac) (digest_len : (key octets : Bytes) → length (blake2b key octets) ≡ 16)
    (egress : MeshEgress) (config : PeerMeshConfig) (now : ℕ)
    (fits : Fits egress config (time_of egress now)) where
  abbrev pub mac_of : Bool → Bytes
  mac_of ext =
      blake2b config.passphrase (body egress config now fits (tail_of egress config now fits ext))

  pub mac_size : (ext : Bool) → length (mac_of ext) ≡ 16
  mac_size ext =
      digest_len config.passphrase
        (body egress config now fits (tail_of egress config now fits ext))

  abbrev pub packet : Bool → Bytes
  packet ext = body egress config now fits (tail_of egress config now fits ext) ++ mac_of ext

  parse_packet :
      (ext : Bool)
      → ltb 4 config.embedded_ver ≡ ext
      → parse_dmre_trailer (packet ext) ≡ some (trailer_of_message egress config now fits ext)
  parse_packet true e =
      ap parse_dmre_trailer (
        body-append egress config now fits (egress.source_rptr ++ egress.hops) (mac_of true)
        ∙ ap (body egress config now fits)
            (append_assoc egress.source_rptr egress.hops (mac_of true)))
      ∙ parse_long (payload_of egress config) egress.ber egress.rssi config.embedded_ver
          (time_bytes (time_of egress now)) egress.source_server egress.source_rptr egress.hops
          (mac_of true) (payload-Sizes egress config now fits) (mac_size true) fits.hops_size
          fits.rptr_size ((ltb_iff 4 config.embedded_ver).0 e)
  parse_packet false e =
      ap parse_dmre_trailer (body-append egress config now fits egress.hops (mac_of false))
      ∙ parse_short (payload_of egress config) egress.ber egress.rssi config.embedded_ver
          (time_bytes (time_of egress now)) egress.source_server egress.source_rptr egress.hops
          (mac_of false) (payload-Sizes egress config now fits) (mac_size false) fits.hops_size
          ((ltb-false 4 config.embedded_ver).0 e)

  pub decode_packet :
      (ext : Bool)
      → ltb 4 config.embedded_ver ≡ ext
      → try_decode_v5 blake2b (packet ext) config
        ≡ some
            (ingress_of (payload_of egress config) (trailer_of_message egress config now fits ext))
  decode_packet ext e =
      decode_parsed blake2b (packet ext) config (trailer_of_message egress config now fits ext)
        (head ext) (parse_packet ext e) (verified ext)
      ∙ ap (λ t. some (ingress_of t (trailer_of_message egress config now fits ext))) (payload ext)
    where
      rest_of : Bool → Bytes
      rest_of ext = tail_of egress config now fits ext

      front :
          (ext : Bool) (n : ℕ) → n ≤ 53 → take n (packet ext) ≡ take n (payload_of egress config)
      front ext n h =
          ap (take n) (body-append egress config now fits (rest_of ext) (mac_of ext))
          ∙ take-append_le n (payload_of egress config) _
              (omega (arith, payload-Sizes egress config now fits))

      head : (ext : Bool) → take 4 (packet ext) ≡ dmre
      head ext = front ext 4 (omega arith)

      payload : (ext : Bool) → take 53 (packet ext) ≡ payload_of egress config
      payload ext =
          front ext 53 (omega arith)
          ∙ take-all 53 (payload_of egress config)
              (omega (arith, payload-Sizes egress config now fits))

      body_size :
          (ext : Bool)
          → length (body egress config now fits (rest_of ext))
            ≡ (trailer_of_message egress config now fits ext).hash_len
      body_size true =
          length-datagram (payload_of egress config) egress.ber egress.rssi config.embedded_ver
            (time_bytes (time_of egress now)) egress.source_server (rest_of true)
            (payload-Sizes egress config now fits)
          ∙ omega (arith, length-append egress.source_rptr egress.hops, fits)
      body_size false =
          length-datagram (payload_of egress config) egress.ber egress.rssi config.embedded_ver
            (time_bytes (time_of egress now)) egress.source_server (rest_of false)
            (payload-Sizes egress config now fits)
          ∙ omega (arith, fits)

      verified :
          (ext : Bool)
          → verify_dmre_mac blake2b
              (packet ext)
              config.passphrase
              (trailer_of_message egress config now fits ext).hash_len
            ≡ true
      verified ext =
          verify_dmre_mac-signed blake2b digest_len (body egress config now fits (rest_of ext))
            config.passphrase (trailer_of_message egress config now fits ext).hash_len
            (body_size ext)
