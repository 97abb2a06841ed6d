-- ===== src/LoopGuard/Tests.antt =====
-- A caller who comes back through another system.
use adn_dmr_peer_server.Prelude.{key_eq, ◌<◌, ◌≡◌, none, some, [], ◌∷◌, refl, string_eq, List}
use adn_dmr_peer_server.Prelude.Dict
use adn_dmr_peer_server.LoopGuard.{
  Config, hold, loop_guard_mode, loop_guard_hold, max_hold_ns, Stream, Protocols, LoopGuard,
  evaluate,
}
use adn_dmr_peer_server.LoopGuard.Check.{check}
use adn_dmr_peer_server.LoopGuard.Verdicts.{loop_guard_hold-bounds, Judged, evaluate-Judged}
use adn_dmr_peer_server.LoopGuard.History.{Use, checks, trims, use_all, check-again}

abbrev a_config : Config
a_config = record {
  systems = ("HBP-1", record { mode = "MASTER"; loop_guard = none }) ∷ [];
  loop_guard_hold = some (hold 9_000_000_000);
  server_voice_ids = [];
}

abbrev protocols_of_one : Protocols
protocols_of_one =
    (
      "HBP-2",
      record {
        streams = [];
        slots = (2, record { rx_stream_id = some (1 ∷ []); rx_time = some 100 }) ∷ [];
      },
    )
    ∷ []

abbrev a_stream : Stream
a_stream = record {
  system_name = "HBP-1";
  peer_id = some (7 ∷ []);
  slot = 2;
  rf_src = 111 ∷ 107 ∷ 113 ∷ [];
  dst_id = 0 ∷ 28 ∷ 134 ∷ [];
  stream_id = 2 ∷ [];
  pkt_time = 150;
}

abbrev a_guard : LoopGuard
a_guard = record {
  legs =
      (
        (111 ∷ 107 ∷ 113 ∷ [], 0 ∷ 28 ∷ 134 ∷ []),
        record {
          system = "HBP-2";
          peer_id = none;
          ingress = (some "HBP-2", none);
          slot = 2;
          stream_id = 1 ∷ [];
          start = 90;
        },
      )
      ∷ [];
  verdicts = [];
}

loop_guard_hold-bounds_example :
    (0 < loop_guard_hold a_config) × (loop_guard_hold a_config < max_hold_ns)
loop_guard_hold-bounds_example = loop_guard_hold-bounds a_config

-- Another stream is checked and the guard trimmed between.
abbrev some_uses : List Use
some_uses =
    checks a_config protocols_of_one (record a_stream { stream_id = 3 ∷ []; pkt_time = 160 })
    ∷ trims 300_000_000_100
    ∷ []

check-again_example :
    check a_config []
      (record a_stream { pkt_time = 900 })
      (use_all some_uses (check a_config protocols_of_one a_stream a_guard).1)
    ≡ (
      (check a_config protocols_of_one a_stream a_guard).0,
      use_all some_uses (check a_config protocols_of_one a_stream a_guard).1,
    )
unfolding Dict.get
check-again_example =
    check-again a_config a_config protocols_of_one [] a_stream (record a_stream { pkt_time = 900 })
      some_uses a_guard refl refl (refl, (refl, tt))

evaluate-Judged_example :
    Judged a_config protocols_of_one a_stream
      (loop_guard_mode (Dict.get "HBP-1" a_config.systems))
      (Dict.get (111 ∷ 107 ∷ 113 ∷ [], 0 ∷ 28 ∷ 134 ∷ []) a_guard.legs)
      (evaluate a_config protocols_of_one a_stream a_guard).0
evaluate-Judged_example = evaluate-Judged a_config protocols_of_one a_stream a_guard
