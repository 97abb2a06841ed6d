-- ===== src/Mesh/Wire/Trailer.antt =====
-- The fields of a FreeBridge datagram stand where `parse_dmre_trailer` of
-- src/adn_server/infrastructure/mesh/dmre_v5.py looks for them.
use adn_dmr_peer_server.Prelude.{
  ℕ, ◌+◌, ◌≤◌, ◌≡◌, ap, ◌∙◌, ◌↔◌, false, some, [], ◌∷◌, ◌++◌, ltb, length, length-append, take,
  slice, get_elem?, bytes_eq, list_beq_iff, arith,
}
use mathlib.Core.List.{append_assoc, append-nil}
use adn_dmr_peer_server.Prelude.Slices.{slice-field, take-append_le, get_elem?-append_at}
use adn_dmr_peer_server.Wire.{Bytes}
use adn_dmr_peer_server.Mesh.Wire.{dmre}
use adn_dmr_peer_server.Mesh.Wire.DmreV5.{trailer_of, parse_dmre_trailer}

pub ltb-false : (n m : ℕ) → (ltb n m ≡ false) ↔ (m ≤ n)
ltb-false n m = ground arith

-- The parts of a datagram: payload, BER, RSSI, version, time stamp, source server, and the rest.
abbrev pub datagram : Bytes → Bytes → Bytes → ℕ → Bytes → Bytes → Bytes → Bytes
datagram p b r v t s rest = p ++ (b ++ (r ++ ((v ∷ []) ++ (t ++ (s ++ rest)))))

pub record Sizes (p b r t s : Bytes) : Type 0 where
  pub payload_size : length p ≡ 53
  pub ber_size : length b ≡ 1
  pub rssi_size : length r ≡ 1
  pub time_size : length t ≡ 8
  pub source_size : length s ≡ 4
  pub is_dmre : take 4 p ≡ dmre

module _ (p b r : Bytes) (v : ℕ) (t s rest : Bytes) (sizes : Sizes p b r t s) where
  pub at_ber : slice 53 54 (datagram p b r v t s rest) ≡ b
  at_ber = slice-field 53 54 p b _ sizes.payload_size sizes.ber_size

  pub at_rssi : slice 54 55 (datagram p b r v t s rest) ≡ r
  at_rssi = simp append_assoc at (
      slice-field 54 55 (p ++ b) r ((v ∷ []) ++ (t ++ (s ++ rest)))
        (omega (arith, length-append p b, sizes)) sizes.rssi_size)

  before_version : Bytes
  before_version = p ++ (b ++ r)

  length-before_version : length before_version ≡ 55
  unfolding before_version
  length-before_version = omega (arith, length-append p (b ++ r), length-append b r, sizes)

  pub at_version : get_elem? (datagram p b r v t s rest) 55 ≡ some v
  unfolding before_version
  at_version =
      simp append_assoc at
        (get_elem?-append_at 55 (p ++ (b ++ r)) (t ++ (s ++ rest)) v length-before_version)

  pub at_time : slice 56 64 (datagram p b r v t s rest) ≡ t
  at_time = simp append_assoc at (
      slice-field 56 64 (p ++ (b ++ (r ++ (v ∷ [])))) t (s ++ rest)
        (omega (
          arith,
          length-append p (b ++ (r ++ (v ∷ []))),
          length-append b (r ++ (v ∷ [])),
          length-append r (v ∷ []),
          sizes,
        ))
        sizes.time_size)

  before_source : Bytes
  before_source = p ++ (b ++ (r ++ ((v ∷ []) ++ t)))

  length-before_source : length before_source ≡ 64
  unfolding before_source
  length-before_source = omega (
    arith,
    length-append p (b ++ (r ++ ((v ∷ []) ++ t))),
    length-append b (r ++ ((v ∷ []) ++ t)),
    length-append r ((v ∷ []) ++ t),
    length-append (v ∷ []) t,
    sizes,
  )

  pub at_source : slice 64 68 (datagram p b r v t s rest) ≡ s
  unfolding before_source
  at_source = simp append_assoc at (
      slice-field 64 68 (p ++ (b ++ (r ++ ((v ∷ []) ++ t)))) s rest length-before_source
        sizes.source_size)

  pub length-datagram : length (datagram p b r v t s rest) ≡ 68 + length rest
  unfolding before_source
  length-datagram =
      ap length (split)
      ∙ omega (
        arith,
        length-append before_source (s ++ rest),
        length-append s rest,
        length-before_source,
        sizes,
      )
    where
      split : datagram p b r v t s rest ≡ before_source ++ (s ++ rest)
      split = simp append_assoc

  pub head_is_dmre : take 4 (datagram p b r v t s rest) ≡ dmre
  head_is_dmre = take-append_le 4 p _ (omega (arith, sizes.payload_size)) ∙ sizes.is_dmre

  -- The reader finds the version, and goes on from there.
  pub parse_dmre_trailer-datagram :
      1 ≤ length rest
      → parse_dmre_trailer (datagram p b r v t s rest)
        ≡ trailer_of (datagram p b r v t s rest) (some v)
  unfolding parse_dmre_trailer
  parse_dmre_trailer-datagram h = rw ((list_beq_iff _ _).1 head_is_dmre) (
      rw ((ltb-false (length (datagram p b r v t s rest)) 69).1 (omega (arith, length-datagram, h)))
        (ap (trailer_of (datagram p b r v t s rest)) at_version))

module _ (p b r : Bytes) (v : ℕ) (t s q h mac : Bytes) (sizes : Sizes p b r t s) where
  whole : Bytes
  whole = p ++ (b ++ (r ++ ((v ∷ []) ++ (t ++ s))))

  length-whole : length whole ≡ 68
  unfolding whole
  length-whole = ap length (simp append-nil) ∙ length-datagram p b r v t s [] sizes

  pub at_rptr : length q ≡ 4 → slice 68 72 (datagram p b r v t s (q ++ (h ++ mac))) ≡ q
  unfolding whole
  at_rptr n = simp append_assoc at (slice-field 68 72 whole q (h ++ mac) length-whole n)

  pub at_hops :
      length q ≡ 4 → length h ≡ 1 → slice 72 73 (datagram p b r v t s (q ++ (h ++ mac))) ≡ h
  unfolding whole
  at_hops n k = simp append_assoc at (
      slice-field 72 73 (whole ++ q) h mac (length-append whole q ∙ omega (arith, length-whole, n))
        k)

  pub at_short_hops : length h ≡ 1 → slice 68 69 (datagram p b r v t s (h ++ mac)) ≡ h
  unfolding whole
  at_short_hops k = simp append_assoc at (slice-field 68 69 whole h mac length-whole k)
