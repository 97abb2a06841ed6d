-- ===== src/Prelude/Decimal.antt =====
-- `str(n)` of a natural number, as its decimal digits, most significant first, and `int(s)`.
pub mod Laws
use adn_dmr_peer_server.Prelude.Tests.{ltb, if◌then◌else◌}
use adn_dmr_peer_server.Prelude.Lists.{take}
use Prim.Native.Nat.{ℕ, zero, suc, ◌+◌, ◌*◌, ◌/◌, ◌%◌}
use mathlib.Core.List.{List, [], ◌∷◌}

-- The digits of `n` before `acc`; the fuel `n` is enough, since each round divides by ten.
str_from : ℕ → ℕ → List ℕ → List ℕ
str_from zero n acc = n ∷ acc
str_from (suc f) n acc =
    let rest = str_from f (n / 10) ((n % 10) ∷ acc) in if ltb n 10 then n ∷ acc else rest

unfoldable pub str : ℕ → List ℕ
unfolding str_from
str n = str_from n n []

int_from : ℕ → List ℕ → ℕ
int_from acc [] = acc
int_from acc (d ∷ ds) = int_from (acc * 10 + d) ds

unfoldable pub int : List ℕ → ℕ
unfolding int_from
int ds = int_from 0 ds

-- `int(str(n)[:k])`
abbrev pub prefix : ℕ → ℕ → ℕ
prefix k n = int (take k (str n))
