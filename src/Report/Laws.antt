-- ===== src/Report/Laws.antt =====
-- The backlog of events and the order of a drain: src/adn_server/application/report/queue.py.
use mathlib.Core.List.{append_assoc, append-nil}
use adn_dmr_peer_server.Prelude.{
  ℕ, zero, suc, ◌+◌, ◌-◌, ◌≤◌, ◌≡◌, refl, ap, sym, ◌∙◌, false, Option, none, some, List, [], ◌∷◌,
  ◌++◌, String, leb, leb_iff, length, length-append, take, drop, map, Bool-cases, inl, inr, arith,
  Bool,
}
use adn_dmr_peer_server.Report.{
  routing_event, BoundedReportQueue, enqueue_event, drain_events, drain, drain_config, drain_bridge,
  Call, set_systems, send_config, set_routing_table, send_routing_table, appended, without_oldest,
}

plus_none : (n : ℕ) → n + 0 ≡ n
plus_none n = omega arith

plus_shift : (n m : ℕ) → n + 1 + m ≡ n + suc m
plus_shift n m = omega arith

one_lost : (n m : ℕ) → m ≤ n → suc n - m ≡ suc (n - m)
one_lost n m h = omega arith

one_more : (n : ℕ) → n + 1 ≡ suc n
one_more n = omega arith

module _ {Snapshot : Type 0} where
  -- Events that arrive one after the other.
  unfoldable pub enqueue_all :
      List String → BoundedReportQueue Snapshot → Option (BoundedReportQueue Snapshot)
  enqueue_all [] q = some q
  enqueue_all (event ∷ arriving) q = elim (enqueue_event event q) [
    | none ↦ none
    | some next ↦ enqueue_all arriving next
  ]

  -- The newest `max_events` of all events, the others counted as dropped.
  abbrev pub newest : List String → BoundedReportQueue Snapshot → BoundedReportQueue Snapshot
  newest all q =
      let lost = length all - q.max_events in
      record q { events = drop lost all; dropped_events = q.dropped_events + lost }

  newest_none :
      (q : BoundedReportQueue Snapshot) (lost : ℕ)
      → lost ≡ 0
      → record q { events = drop lost q.events; dropped_events = q.dropped_events + lost } ≡ q
  newest_none q lost h =
      rw h (ap (λ n. record q { dropped_events = n }) (plus_none q.dropped_events))

  newest_more :
      (oldest : String) (all waiting : List String) (q : BoundedReportQueue Snapshot)
      → q.max_events ≤ length all
      → newest all (record q { events = waiting; dropped_events = q.dropped_events + 1 })
        ≡ newest (oldest ∷ all) q
  newest_more oldest all waiting q h = rw (one_lost (length all) q.max_events h) (
      ap (λ n. record q { events = drop (length all - q.max_events) all; dropped_events = n })
        (plus_shift q.dropped_events (length all - q.max_events)))

  -- As long as at least one event may wait and no more wait than may, events are taken without
  -- failure: the newest of the waiting and the arriving ones wait afterwards, in their order and as many as
  -- may, and the count of dropped events grows by those that are lost.
  pub enqueue_all-newest :
      (arriving : List String) (q : BoundedReportQueue Snapshot)
      → 1 ≤ q.max_events
      → length q.events ≤ q.max_events
      → enqueue_all arriving q ≡ some (newest (q.events ++ arriving) q)
  unfolding enqueue_all enqueue_event
  enqueue_all-newest [] q h fits = ap some (
      sym (
        ap (λ (all : List String). newest all q) (append-nil q.events)
        ∙ newest_none q (length q.events - q.max_events) (omega arith)))
  enqueue_all-newest (event ∷ arriving) q h fits =
      elim (Bool-cases (leb q.max_events (length q.events))) [
        | inl full ↦
            rw (full, enqueue_all)
              (over (λ p. enqueue_all-newest arriving p) q.events refl
                ((leb_iff q.max_events (length q.events)).0 full))
        | inr room ↦
            rw (room, enqueue_all)
              (enqueue_all-newest arriving (appended event q) h
                  (omega (arith, more room, length-append q.events (event ∷ [])))
                ∙ ap (λ (all : List String). some (newest all q))
                    (append_assoc q.events (event ∷ []) arriving))
      ]
    where
      over :
          ((p : BoundedReportQueue Snapshot)
            → 1 ≤ p.max_events
            → length p.events ≤ p.max_events
            → enqueue_all arriving p ≡ some (newest (p.events ++ arriving) p))
          → (waiting : List String) → q.events ≡ waiting
          → q.max_events ≤ length q.events
          → (elim (without_oldest event q waiting) as (λ x. Option (BoundedReportQueue Snapshot)) [
            | none ↦ none
            | some next ↦ enqueue_all arriving next
          ])
            ≡ some (newest (waiting ++ event ∷ arriving) q)
      over again [] e full = absurd (omega (arith, ap length e))
      over again (oldest ∷ rest) e full =
          again (appended event (record q { events = rest; dropped_events = q.dropped_events + 1 }))
            h (omega (arith, ap length e, length-append rest (event ∷ [])))
          ∙ ap
              (λ (all : List String).
                some (newest all (record q { dropped_events = q.dropped_events + 1 })))
              (append_assoc rest (event ∷ []) arriving)
          ∙ ap some (
              newest_more oldest (rest ++ event ∷ arriving) q.events q
                (omega (arith, ap length e, length-append rest (event ∷ arriving))))

      more : leb q.max_events (length q.events) ≡ false → length q.events + 1 ≤ q.max_events
      more room = ground (arith, room)

  drain_events-take :
      (budget : ℕ) (events : List String)
      → drain_events {Snapshot = Snapshot} budget events
        ≡ (length (take budget events), map routing_event (take budget events), drop budget events)
  unfolding drain_events
  drain_events-take zero events = refl
  drain_events-take (suc budget) [] = refl
  drain_events-take (suc budget) (event ∷ events) = rw (drain_events-take budget events) (
      ap
        (λ n. (n, routing_event event ∷ map routing_event (take budget events), drop budget events))
        (one_more (length (take budget events))))

  -- Whether a snapshot waits, as a number.
  abbrev pub waits : Option (Snapshot × Bool) → ℕ
  waits none = 0
  waits (some pushed) = 1

  -- What a drain is to call for the configuration and for the bridges that wait: the new value is set
  -- first, and then sent as it was pushed, whole or incrementally.
  abbrev pub pushes_config : Option (Snapshot × Bool) → List (Call Snapshot)
  pushes_config none = []
  pushes_config (some (systems, incremental)) =
      set_systems systems ∷ send_config systems incremental ∷ []

  abbrev pub pushes_bridge : Option (Snapshot × Bool) → List (Call Snapshot)
  pushes_bridge none = []
  pushes_bridge (some (bridges, incremental)) =
      set_routing_table bridges ∷ send_routing_table bridges incremental ∷ []

  -- A drain sends the oldest events in their order, as many as its budget allows, then sets and sends
  -- the configuration if it waits and then the bridges if they wait; the number it answers counts the
  -- events and the snapshots sent, and what is left are the other events and no snapshot.
  pub drain-take :
      (q : BoundedReportQueue Snapshot)
      → let sending = take q.max_drain_per_tick q.events in
        drain q ≡ (
          length sending + waits q.pending_config + waits q.pending_bridge,
          map routing_event sending
              ++ (pushes_config q.pending_config ++ pushes_bridge q.pending_bridge),
          record q {
            events = drop q.max_drain_per_tick q.events;
            pending_config = none;
            pending_bridge = none;
          },
        )
  unfolding drain
  drain-take q =
      rw (drain_events-take q.max_drain_per_tick q.events)
        (rw (config q.pending_config, bridge q.pending_bridge))
    where
      config : (o : Option (Snapshot × Bool)) → drain_config o ≡ (waits o, pushes_config o)
      config none = refl
      config (some (systems, incremental)) = refl

      bridge : (o : Option (Snapshot × Bool)) → drain_bridge o ≡ (waits o, pushes_bridge o)
      bridge none = refl
      bridge (some (bridges, incremental)) = refl
