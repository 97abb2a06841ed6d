-- ===== src/Report/Tests.antt =====
-- A queue with room for two events.
use adn_dmr_peer_server.Prelude.{ℕ, ◌≡◌, true, none, some, [], ◌∷◌, ◌++◌, map, arith}
use adn_dmr_peer_server.Report.{routing_event, set_systems, send_config, BoundedReportQueue, drain}
use adn_dmr_peer_server.Report.Laws.{enqueue_all, newest, enqueue_all-newest, drain-take}

abbrev a_queue : BoundedReportQueue ℕ
a_queue = record {
  max_events = 2;
  max_drain_per_tick = 1;
  events = "a" ∷ [];
  pending_config = some (3, true);
  pending_bridge = none;
  dropped_events = 0;
}

enqueue_all-newest_example :
    enqueue_all ("b" ∷ "c" ∷ []) a_queue ≡ some (newest ("a" ∷ "b" ∷ "c" ∷ []) a_queue)
enqueue_all-newest_example = enqueue_all-newest ("b" ∷ "c" ∷ []) a_queue (omega arith) (omega arith)

drain-take_example : drain a_queue ≡ (
  2,
  map routing_event ("a" ∷ []) ++ (set_systems 3 ∷ send_config 3 true ∷ []),
  record a_queue { events = []; pending_config = none; pending_bridge = none },
)
drain-take_example = drain-take a_queue
