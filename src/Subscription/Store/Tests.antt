-- ===== src/Subscription/Store/Tests.antt =====
-- Two systems with a talkgroup's table, written, changed and read.
use adn_dmr_peer_server.Prelude.{
  ◌≡◌, refl, true, false, none, some, List, [], ◌∷◌, String, ℕ, string_eq, id_eq, leg_eq, bytes_eq,
  nat_eq, Option,
}
use adn_dmr_peer_server.Subscription.{
  Subscription, Text, SubscriptionPhase, idle, active, sink, inband, no_triggers, table_key,
  str_text,
}
use adn_dmr_peer_server.Prelude.Dict
use adn_dmr_peer_server.Prelude.Decimal
use adn_dmr_peer_server.Subscription.Store.{SubscriptionStore, empty_store}
use adn_dmr_peer_server.Subscription.Store.History.{
  Write, upserts, removes, replaces, writes, writes-IsSound, all_distinct,
}
use adn_dmr_peer_server.Subscription.Store.Reads.{
  AreScans, reads-scan, has_table, has_active_target_leg,
}

abbrev pub a_leg : String → ℕ → Option Text → SubscriptionPhase → Subscription
a_leg system slot relay_table_key phase = record {
  channel = record { tgid = 730; slot = slot };
  system = system;
  target_tgid = 730;
  role = sink;
  policy = inband;
  state = record { phase = phase; timer_expires_at = some 600 };
  relay_table_key = relay_table_key;
  timeout_seconds = some 600;
  triggers = no_triggers;
}

abbrev pub some_writes : List Write
some_writes =
    replaces (a_leg "MASTER-A" 2 none active ∷ a_leg "MASTER-B" 2 none active ∷ [])
    ∷ upserts (a_leg "MASTER-A" 2 (some (35 ∷ 55 ∷ 51 ∷ 48 ∷ [])) active)
    ∷ upserts (a_leg "MASTER-B" 2 none idle)
    ∷ upserts (a_leg "OBP-1" 1 none active)
    ∷ removes (730, 2, "MASTER-C")
    ∷ []

abbrev pub a_store : SubscriptionStore
a_store = writes some_writes (empty_store 0)

reads-scan_example : AreScans (writes some_writes (empty_store 0))
unfolding all_distinct
reads-scan_example =
    reads-scan (writes some_writes (empty_store 0))
      (writes-IsSound some_writes (refl, (refl, (refl, (refl, (refl, tt))))))

reads_test :
    (has_table (55 ∷ 51 ∷ 48 ∷ []) a_store ≡ true)
    × (has_active_target_leg "MASTER-B" 2 730 a_store ≡ false)
    × (has_active_target_leg "OBP-1" 1 730 a_store ≡ true)
unfolding has_table has_active_target_leg writes Dict.get Dict.put Dict.pop table_key str_text
    Decimal.str
reads_test = (refl, refl, refl)
