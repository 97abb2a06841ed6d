-- ===== src/Wire/Tests.antt =====
-- Ids on the wire at concrete inputs.
use adn_dmr_peer_server.Prelude.{◌%◌, ◌^◌, ◌≡◌, [], ◌∷◌, ◌++◌, arith}
use adn_dmr_peer_server.Wire.{bytes_3, bytes_4, int_id}
use adn_dmr_peer_server.Wire.RoundTrip.{int_id-bytes, bytes-int_id}

int_id-bytes_example :
    (int_id (bytes_3 7302) ≡ 7302 % 2 ^ 24) × (int_id (bytes_4 7302 ++ 9 ∷ []) ≡ 7302 % 2 ^ 32)
int_id-bytes_example = int_id-bytes 7302 (9 ∷ [])

bytes-int_id_example :
    (bytes_3 (int_id (0 ∷ 28 ∷ 134 ∷ [])) ≡ 0 ∷ 28 ∷ 134 ∷ [])
    × (bytes_4 (int_id (0 ∷ 28 ∷ 134 ∷ 255 ∷ [])) ≡ 0 ∷ 28 ∷ 134 ∷ 255 ∷ [])
bytes-int_id_example =
    bytes-int_id 0 28 134 255 (omega arith) (omega arith) (omega arith) (omega arith)
