-- ===== src/Report.antt =====
-- The queue of reports to the monitor: src/adn_server/application/report/queue.py. The snapshots of
-- systems and bridges are only handed on, so their type is a parameter. What the sender is called
-- with is a list of calls.
pub mod Laws
mod Tests
use adn_dmr_peer_server.Prelude.{
  ℕ, zero, suc, ◌+◌, Bool, Option, none, some, List, [], ◌∷◌, ◌++◌, String, leb, length,
  if◌then◌else◌,
}

pub data Call (Snapshot : Type 0) : Type 0 where
  routing_event : String → Call Snapshot
  set_systems set_routing_table : Snapshot → Call Snapshot
  send_config send_routing_table : Snapshot → Bool → Call Snapshot

pub record BoundedReportQueue (Snapshot : Type 0) : Type 0 where
  pub max_events : ℕ
  pub max_drain_per_tick : ℕ
  pub events : List String
  pub pending_config : Option (Snapshot × Bool)
  pub pending_bridge : Option (Snapshot × Bool)
  pub dropped_events : ℕ

module _ {Snapshot : Type 0} where
  abbrev pub appended : String → BoundedReportQueue Snapshot → BoundedReportQueue Snapshot
  appended event q = record q { events = q.events ++ event ∷ [] }

  abbrev pub without_oldest :
      String → BoundedReportQueue Snapshot → List String → Option (BoundedReportQueue Snapshot)
  without_oldest event q [] = none
  without_oldest event q (oldest ∷ events) =
      some (appended event (record q { events = events; dropped_events = q.dropped_events + 1 }))

  -- `none` is the `IndexError` of `popleft` on no events.
  unfoldable pub enqueue_event :
      String → BoundedReportQueue Snapshot → Option (BoundedReportQueue Snapshot)
  enqueue_event event q =
      if leb q.max_events (length q.events)
      then without_oldest event q q.events
      else some (appended event q)

  unfoldable pub enqueue_config :
      Snapshot → Bool → BoundedReportQueue Snapshot → BoundedReportQueue Snapshot
  enqueue_config systems incremental q = record q { pending_config = some (systems, incremental) }

  unfoldable pub enqueue_bridge :
      Snapshot → Bool → BoundedReportQueue Snapshot → BoundedReportQueue Snapshot
  enqueue_bridge bridges incremental q = record q { pending_bridge = some (bridges, incremental) }

  -- The loop of `drain`, on its budget: the number sent, the calls and the events left.
  unfoldable pub drain_events : ℕ → List String → ℕ × List (Call Snapshot) × List String
  drain_events zero events = (0, [], events)
  drain_events (suc budget) [] = (0, [], [])
  drain_events (suc budget) (event ∷ events) =
      let (sent, calls, left) = drain_events budget events in
      (sent + 1, routing_event event ∷ calls, left)

  abbrev pub drain_config : Option (Snapshot × Bool) → ℕ × List (Call Snapshot)
  drain_config none = (0, [])
  drain_config (some (systems, incremental)) =
      (1, set_systems systems ∷ send_config systems incremental ∷ [])

  abbrev pub drain_bridge : Option (Snapshot × Bool) → ℕ × List (Call Snapshot)
  drain_bridge none = (0, [])
  drain_bridge (some (bridges, incremental)) =
      (1, set_routing_table bridges ∷ send_routing_table bridges incremental ∷ [])

  unfoldable pub drain :
      BoundedReportQueue Snapshot → ℕ × List (Call Snapshot) × BoundedReportQueue Snapshot
  unfolding drain_events
  drain q =
      let (sent, calls, left) = drain_events q.max_drain_per_tick q.events in
      let (of_config, config_calls) = drain_config q.pending_config in
      let (of_bridge, bridge_calls) = drain_bridge q.pending_bridge in
      (
        sent + of_config + of_bridge,
        calls ++ (config_calls ++ bridge_calls),
        record q { events = left; pending_config = none; pending_bridge = none },
      )

  -- `QueuedReportSender`: the calls of the inner sender, and the queue.
  unfoldable pub queued_send_config :
      Snapshot
      → Bool
      → BoundedReportQueue Snapshot
      → List (Call Snapshot) × BoundedReportQueue Snapshot
  unfolding enqueue_config
  queued_send_config systems incremental q =
      (set_systems systems ∷ [], enqueue_config systems incremental q)

  unfoldable pub queued_send_routing_table :
      Snapshot
      → Bool
      → BoundedReportQueue Snapshot
      → List (Call Snapshot) × BoundedReportQueue Snapshot
  unfolding enqueue_bridge
  queued_send_routing_table bridges incremental q =
      (set_routing_table bridges ∷ [], enqueue_bridge bridges incremental q)
