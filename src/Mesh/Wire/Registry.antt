-- ===== src/Mesh/Wire/Registry.antt =====
-- src/adn_server/infrastructure/mesh/registry.py, over the two transports that the server has.
use adn_dmr_peer_server.Prelude.{
  ℕ, Bool, false, not, Option, none, some, ◌or◌, [], ◌∷◌, String, leb, if◌then◌else◌, ◌==◌,
  string_eq, ◌≡◌, inl, inr, refl, ap, take, bytes_eq, list_beq_iff, Bool-cases, ◌∙◌,
}
use adn_dmr_peer_server.Prelude.Dict
use adn_dmr_peer_server.Prelude.Dict.{Dict}
use adn_dmr_peer_server.Wire.{Bytes}
use adn_dmr_peer_server.Mesh.Wire.{Mac, dmrd, dmre, PeerMeshConfig, MeshEgress}
use adn_dmr_peer_server.Mesh.Wire.ObpV1.{try_decode_v1, encode_v1}
use adn_dmr_peer_server.Mesh.Wire.DmreV5.{Built, built, try_decode_v5, encode_v5}
use adn_dmr_peer_server.Mesh.Engine.{MeshIngress}

-- A transport, at a time `now` that only the encoder reads.
pub record Transport : Type 0 where
  pub try_decode : Bytes → PeerMeshConfig → Option MeshIngress
  pub encode : MeshEgress → PeerMeshConfig → ℕ → Option Built

abbrev built_v1 : Option Bytes → Option Built
built_v1 none = none
built_v1 (some octets) = some (built octets)

-- `_transports`
abbrev pub Transports : Type 0
Transports = Dict String Transport

-- `default_peer_transports`, from the two keyed hashes
abbrev pub default_peer_transports : Mac → Mac → Transports
default_peer_transports hmac_sha1 blake2b =
    ("dmre_v5", record { try_decode = try_decode_v5 blake2b; encode = encode_v5 blake2b })
    ∷ (
      "obp_v1",
      record {
        try_decode = try_decode_v1 hmac_sha1;
        encode = λ egress config now. built_v1 (encode_v1 hmac_sha1 egress config);
      },
    )
    ∷ []

abbrev decode_with : Option Transport → Bytes → PeerMeshConfig → Option MeshIngress
decode_with none datagram config = none
decode_with (some transport) datagram config = transport.try_decode datagram config

unfoldable pub decode_auto : Transports → Bytes → PeerMeshConfig → Option MeshIngress
decode_auto transports datagram config =
    decode_with (Dict.get "dmre_v5" transports) datagram config
    or decode_with (Dict.get "obp_v1" transports) datagram config

abbrev is_name : Option String → Bool
is_name none = false
is_name (some name) = not (name == "")

abbrev name_or : Option String → String → String
name_or none other = other
name_or (some name) other = if name == "" then other else name

abbrev at_least_4 : Option ℕ → Bool
at_least_4 none = false
at_least_4 (some ver) = leb 4 ver

unfoldable pub resolve_encode_codec : String → PeerMeshConfig → Option String → String
resolve_encode_codec mesh_protocol config session_codec =
    if not (mesh_protocol == "auto")
    then mesh_protocol
    else name_or session_codec (if at_least_4 config.wire_ver then "dmre_v5" else "obp_v1")

abbrev encode_with : Option Transport → MeshEgress → PeerMeshConfig → ℕ → Option Built
encode_with none egress config now = none
encode_with (some transport) egress config now = transport.encode egress config now

unfoldable pub registry_encode :
    Transports → String → MeshEgress → PeerMeshConfig → Option String → ℕ → Option Built
unfolding resolve_encode_codec
registry_encode transports mesh_protocol egress config session_codec now =
    encode_with (Dict.get (resolve_encode_codec mesh_protocol config session_codec) transports)
      egress config now

module _ (hmac_sha1 blake2b : Mac) where
  v1_needs_dmrd :
      (datagram : Bytes) (config : PeerMeshConfig)
      → (take 4 datagram == dmrd) ≡ false
      → try_decode_v1 hmac_sha1 datagram config ≡ none
  unfolding try_decode_v1
  v1_needs_dmrd datagram config h = rw h

  v5_needs_dmre :
      (datagram : Bytes) (config : PeerMeshConfig)
      → (take 4 datagram == dmre) ≡ false
      → try_decode_v5 blake2b datagram config ≡ none
  unfolding try_decode_v5
  v5_needs_dmre datagram config h = rw h

  v1_named :
      (datagram : Bytes) (config : PeerMeshConfig)
      → try_decode_v1 hmac_sha1 datagram config
        ≡ (if take 4 datagram == dmrd then try_decode_v1 hmac_sha1 datagram config else none)
  v1_named datagram config = elim (Bool-cases (take 4 datagram == dmrd)) [
    | inl old ↦ rw old
    | inr other ↦ rw other (v1_needs_dmrd datagram config other)
  ]

  or_none : (a : Option MeshIngress) → (a or none) ≡ a
  or_none none = refl
  or_none (some x) = refl

  -- With the server's two transports a datagram is read by the codec that its first four bytes name:
  -- FreeBridge for DMRE, OpenBridge for DMRD, and by none if they name neither.
  pub decode_auto-default :
      (datagram : Bytes) (config : PeerMeshConfig)
      → decode_auto (default_peer_transports hmac_sha1 blake2b) datagram config ≡ (
          if take 4 datagram == dmre
          then try_decode_v5 blake2b datagram config
          else if take 4 datagram == dmrd
          then try_decode_v1 hmac_sha1 datagram config
          else none)
  unfolding decode_auto Dict.get
  decode_auto-default datagram config = elim (Bool-cases (take 4 datagram == dmre)) [
    | inl new ↦ rw new (
        ap (λ o. try_decode_v5 blake2b datagram config or o)
          (v1_needs_dmrd datagram config
            (ap (λ t. t == dmrd) ((list_beq_iff (take 4 datagram) dmre).0 new)))
        ∙ or_none (try_decode_v5 blake2b datagram config))
    | inr other ↦ rw other (
        ap (λ o. o or try_decode_v1 hmac_sha1 datagram config) (v5_needs_dmre datagram config other)
        ∙ v1_named datagram config)
  ]
