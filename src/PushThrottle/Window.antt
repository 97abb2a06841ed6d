-- ===== src/PushThrottle/Window.antt =====
-- Which connects count for the debounce: src/adn_server/infrastructure/config_push_throttle.py.
use adn_dmr_peer_server.Prelude.{ℕ, suc, ◌≤◌, List, [], ◌∷◌, All, if◌then◌else◌}
use adn_dmr_peer_server.PushThrottle.{is_old}

-- The clock does not run back.
abbrev pub Ordered : List ℕ → Type 0
Ordered [] = Unit
Ordered (t ∷ times) = All (λ u. t ≤ u) times × Ordered times

-- How many connects are no older than the window.
unfoldable pub recent : ℕ → List ℕ → ℕ
recent now [] = 0
recent now (t ∷ times) = let rest = recent now times in if is_old now t then rest else suc rest
