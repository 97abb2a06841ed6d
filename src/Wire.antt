-- ===== src/Wire.antt =====
-- src/adn_server/domain/value_objects.py: DMR ids on the wire. `bytes` is a list of numbers below
-- 256, and an `int` that the program takes from the wire is a natural number.
pub mod RoundTrip
mod Tests
use adn_dmr_peer_server.Prelude.{
  ℕ, ◌*◌, ◌+◌, ◌/◌, ◌%◌, ◌<◌, ltb, if◌then◌else◌, Option, some, none, List, [], ◌∷◌, All, get_elem?,
}

-- `bytes`
abbrev pub Bytes : Type 0
Bytes = List ℕ

abbrev pub IsBytes : Bytes → Type 0
IsBytes = All (λ b. b < 256)

-- `(i & 0xFFFFFF).to_bytes(3, "big")`
unfoldable pub bytes_3 : ℕ → Bytes
bytes_3 i = (i / 65536 % 256) ∷ (i / 256 % 256) ∷ (i % 256) ∷ []

-- `(i & 0xFFFFFFFF).to_bytes(4, "big")`
unfoldable pub bytes_4 : ℕ → Bytes
bytes_4 i = (i / 16777216 % 256) ∷ (i / 65536 % 256) ∷ (i / 256 % 256) ∷ (i % 256) ∷ []

-- `int.from_bytes(b, "big")`
from_bytes_acc : ℕ → Bytes → ℕ
from_bytes_acc acc [] = acc
from_bytes_acc acc (b ∷ bs) = from_bytes_acc (acc * 256 + b) bs

unfoldable pub from_bytes : Bytes → ℕ
unfolding from_bytes_acc
from_bytes bs = from_bytes_acc 0 bs

-- `n.to_bytes(1, "big")`: `none` is the `OverflowError`.
abbrev pub to_byte : ℕ → Option Bytes
to_byte n = if ltb n 256 then some (n ∷ []) else none

-- `int_id` on `bytes`: four bytes or more give the first four, three give all, fewer give 0.
unfoldable pub int_id : Bytes → ℕ
unfolding from_bytes
int_id (a ∷ b ∷ c ∷ d ∷ rest) = from_bytes (a ∷ b ∷ c ∷ d ∷ [])
int_id (a ∷ b ∷ c ∷ []) = from_bytes (a ∷ b ∷ c ∷ [])
int_id _ = 0
