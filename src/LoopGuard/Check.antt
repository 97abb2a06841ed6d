-- ===== src/LoopGuard/Check.antt =====
-- The verdicts that the loop guard keeps: `check` and `trim` of
-- src/adn_server/application/routing/loop_guard.py.
use adn_dmr_peer_server.Prelude.{
  key_eq, ℕ, ◌+◌, Bool, false, Option, none, some, [], ◌∷◌, ltb, if◌then◌else◌, bytes_eq,
}
use adn_dmr_peer_server.Prelude.Dict
use adn_dmr_peer_server.Prelude.Dict.{Dict}
use adn_dmr_peer_server.Wire.{Bytes}
use adn_dmr_peer_server.LoopGuard.{
  Config, Protocols, Stream, LoopGuard, LoopEcho, Leg, evaluate, forget_after_ns,
}

abbrev pub cached_or :
    Config
    → Protocols
    → Stream
    → LoopGuard
    → Option (Option LoopEcho × ℕ)
    → Option LoopEcho × LoopGuard
cached_or config protocols stream guard (some (echo, at)) = (echo, guard)
cached_or config protocols stream guard none =
    let (echo, guard') = evaluate config protocols stream guard in
    (
      echo,
      record guard' {
        verdicts = Dict.put stream.stream_id (echo, stream.pkt_time) guard'.verdicts;
      },
    )

unfoldable pub check : Config → Protocols → Stream → LoopGuard → Option LoopEcho × LoopGuard
unfolding evaluate
check config protocols stream guard =
    cached_or config protocols stream guard (Dict.get stream.stream_id guard.verdicts)

-- `t < now - _FORGET_AFTER_S`
abbrev pub forgotten : ℕ → ℕ → Bool
forgotten now t = ltb (t + forget_after_ns) now

unfoldable pub trim_verdicts :
    ℕ → Dict Bytes (Option LoopEcho × ℕ) → Dict Bytes (Option LoopEcho × ℕ)
trim_verdicts now [] = []
trim_verdicts now ((stream_id, (echo, t)) ∷ verdicts) =
    let rest = trim_verdicts now verdicts in
    if forgotten now t then rest else (stream_id, (echo, t)) ∷ rest

unfoldable pub trim_legs : ℕ → Dict (Bytes × Bytes) Leg → Dict (Bytes × Bytes) Leg
trim_legs now [] = []
trim_legs now ((key, leg) ∷ legs) =
    let rest = trim_legs now legs in if forgotten now leg.start then rest else (key, leg) ∷ rest

unfoldable pub trim : ℕ → LoopGuard → LoopGuard
unfolding trim_verdicts trim_legs
trim now guard = record {
  legs = trim_legs now guard.legs;
  verdicts = trim_verdicts now guard.verdicts;
}

abbrev drops_echo : Option LoopEcho → Bool
drops_echo none = false
drops_echo (some echo) = echo.drop

unfoldable pub loop_guard_drops : Config → Protocols → Stream → LoopGuard → Bool × LoopGuard
unfolding check
loop_guard_drops config protocols stream guard =
    let (echo, guard') = check config protocols stream guard in (drops_echo echo, guard')
