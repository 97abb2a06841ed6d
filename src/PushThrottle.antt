-- ===== src/PushThrottle.antt =====
-- The debounce of configuration pushes: src/adn_server/infrastructure/config_push_throttle.py. Times
-- are numbers of nanoseconds, and `now` is the argument or the clock.
pub mod Window
mod Tests
use adn_dmr_peer_server.Prelude.{ℕ, ◌+◌, Bool, List, [], ◌∷◌, ◌++◌, ltb, leb, length, if◌then◌else◌}

abbrev pub debounce_normal_ns : ℕ
debounce_normal_ns = 300_000_000

abbrev pub debounce_burst_ns : ℕ
debounce_burst_ns = 2_000_000_000

abbrev pub burst_window_ns : ℕ
burst_window_ns = 10_000_000_000

abbrev pub burst_min_connects : ℕ
burst_min_connects = 5

-- `_connect_times`
abbrev pub ConnectTimes : Type 0
ConnectTimes = List ℕ

-- `t < now - CONFIG_PUSH_BURST_WINDOW_SEC`
abbrev pub is_old : ℕ → ℕ → Bool
is_old now t = ltb (t + burst_window_ns) now

unfoldable pub prune : ℕ → ConnectTimes → ConnectTimes
prune now [] = []
prune now (t ∷ times) = let rest = prune now times in if is_old now t then rest else t ∷ times

unfoldable pub note_peer_connected : ℕ → ConnectTimes → ConnectTimes
note_peer_connected now times = prune now (times ++ now ∷ [])

unfoldable pub debounce_seconds : ℕ → ConnectTimes → ℕ × ConnectTimes
debounce_seconds now times =
    let left = prune now times in
    (if leb burst_min_connects (length left) then debounce_burst_ns else debounce_normal_ns, left)
