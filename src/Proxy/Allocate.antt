-- ===== src/Proxy/Allocate.antt =====
-- Which report slot a new session gets: src/adn_server/application/proxy/use_cases.py.
use adn_dmr_peer_server.Prelude.{
  ℕ, ◌≤◌, ◌<◌, ◌≡◌, Bool, true, false, Option, none, some, List, any, ◌==◌, nat_eq,
}

abbrev pub is_used : ℕ → List ℕ → Bool
is_used k used = any (λ i. i == k) used

-- The least number from `lo` on and below `end` that is not used, or that there is none.
abbrev pub LeastFree : ℕ → ℕ → List ℕ → Option ℕ → Type 0
LeastFree lo end used none = (j : ℕ) → lo ≤ j → j < end → is_used j used ≡ true
LeastFree lo end used (some i) =
    (lo ≤ i)
    × (i < end)
    × (is_used i used ≡ false)
    × ((j : ℕ) → lo ≤ j → j < i → is_used j used ≡ true)
