-- ===== src/Mesh/Wire.antt =====
-- src/adn_server/infrastructure/mesh/: the datagrams between servers, OpenBridge v1 (`obp_v1.py`)
-- and FreeBridge v5 (`dmre_v5.py`). The hashes of `hmac` and `hashlib` are parameters, from the key
-- and the data to the digest; that a digest has 20 or 16 bytes is a hypothesis of the lemmas that
-- need it.
pub mod ObpV1
pub mod DmreV5
pub mod RoundTrip
pub mod Trailer
pub mod RoundTripV5
pub mod Transports
pub mod EncodeDecode
pub mod Registry
mod Tests
use adn_dmr_peer_server.Prelude.{ℕ, Option, List, [], ◌∷◌}
use adn_dmr_peer_server.Wire.{Bytes}

-- A keyed hash: the key, the data, the digest.
abbrev pub Mac : Type 0
Mac = Bytes → Bytes → Bytes

-- src/adn_server/infrastructure/hbp_constants.py
abbrev pub dmrd : Bytes
dmrd = b'D' ∷ b'M' ∷ b'R' ∷ b'D' ∷ []

abbrev pub dmre : Bytes
dmre = b'D' ∷ b'M' ∷ b'R' ∷ b'E' ∷ []

abbrev pub bcka : Bytes
bcka = b'B' ∷ b'C' ∷ b'K' ∷ b'A' ∷ []

abbrev pub bcsq : Bytes
bcsq = b'B' ∷ b'C' ∷ b'S' ∷ b'Q' ∷ []

abbrev pub bcst : Bytes
bcst = b'B' ∷ b'C' ∷ b'S' ∷ b'T' ∷ []

abbrev pub bcve : Bytes
bcve = b'B' ∷ b'C' ∷ b'V' ∷ b'E' ∷ []

-- src/adn_server/domain/mesh_routing.py
pub record PeerMeshConfig : Type 0 where
  pub passphrase : Bytes
  pub server_id : Bytes
  pub wire_ver : Option ℕ
  pub embedded_ver : ℕ

-- `timestamp_ns` is filled in from the clock where it is missing: `none` stands for that.
pub record MeshEgress : Type 0 where
  pub inner_packet : Bytes
  pub hops : Bytes
  pub ber : Bytes
  pub rssi : Bytes
  pub source_server : Bytes
  pub source_rptr : Bytes
  pub timestamp_ns : Option ℕ
