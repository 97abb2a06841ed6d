-- ===== src/Wire/RoundTrip.antt =====
-- Ids survive the wire: src/adn_server/domain/value_objects.py.
use adn_dmr_peer_server.Prelude.{ℕ, ◌%◌, ◌^◌, ◌<◌, ◌≡◌, [], ◌∷◌, ◌++◌, arith}
use adn_dmr_peer_server.Wire.{Bytes, bytes_3, bytes_4, int_id}

-- Decoding a 3-byte or a 4-byte encoding gives the number back modulo the width of the encoding,
-- also where a 4-byte encoding is followed by more bytes.
pub int_id-bytes :
    (n : ℕ) (rest : Bytes)
    → (int_id (bytes_3 n) ≡ n % 2 ^ 24) × (int_id (bytes_4 n ++ rest) ≡ n % 2 ^ 32)
unfolding int_id bytes_3 bytes_4
int_id-bytes n rest = (omega arith, omega arith)

-- Encoding the decoded id of three bytes, or of four, gives the bytes back.
pub bytes-int_id :
    (a b c d : ℕ)
    → a < 256
    → b < 256
    → c < 256
    → d < 256
    → (bytes_3 (int_id (a ∷ b ∷ c ∷ [])) ≡ a ∷ b ∷ c ∷ [])
      × (bytes_4 (int_id (a ∷ b ∷ c ∷ d ∷ [])) ≡ a ∷ b ∷ c ∷ d ∷ [])
unfolding int_id bytes_3 bytes_4
bytes-int_id a b c d ha hb hc hd = ground arith
