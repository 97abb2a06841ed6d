-- ===== src/Subscription/ObpSource/Tests.antt =====
-- An OBP calls a talkgroup that has a reflector, too.
use adn_dmr_peer_server.Prelude.{
  ◌≡◌, refl, none, some, List, [], ◌∷◌, string_eq, id_eq, leg_eq, bytes_eq, nat_eq,
}
use adn_dmr_peer_server.Wire.{bytes_3}
use adn_dmr_peer_server.Subscription.{active, hash, str_text, table_key}
use adn_dmr_peer_server.Prelude.Dict
use adn_dmr_peer_server.Prelude.Decimal
use adn_dmr_peer_server.Subscription.Store.{SubscriptionStore, empty_store}
use adn_dmr_peer_server.Subscription.Store.History.{
  Write, replaces, writes, writes-IsSound, all_distinct,
}
use adn_dmr_peer_server.Subscription.Store.Reads.{has_table}
use adn_dmr_peer_server.Subscription.Store.Tests.{a_leg}
use adn_dmr_peer_server.Subscription.ObpSource.{obp_source_needs_ensure, ensure_obp_source_for_tg}
use adn_dmr_peer_server.Subscription.ObpSource.Both.{IsUnserved, needs_ensure-ensure}
use adn_dmr_peer_server.Subscription.Store.Counts.{count}

abbrev two_tables : List Write
two_tables =
    replaces (
      a_leg "MASTER-A" 2 none active
      ∷ a_leg "MASTER-B" 2 (some (35 ∷ 55 ∷ 51 ∷ 48 ∷ [])) active
      ∷ [])
    ∷ []

abbrev a_store : SubscriptionStore
a_store = writes two_tables (empty_store 0)

a_store-IsUnserved : IsUnserved "OBP-1" 730 a_store
unfolding count writes Dict.get Dict.put
a_store-IsUnserved = record { unmatched = λ key. refl; free = refl }

needs_ensure-ensure_example :
    obp_source_needs_ensure
      (ensure_obp_source_for_tg a_store "OBP-1" (str_text 730) (bytes_3 730) 730 5)
      "OBP-1"
      (str_text 730)
      730
    ≡ has_table (hash ∷ str_text 730) a_store
unfolding all_distinct has_table writes Dict.get Dict.put table_key str_text Decimal.str
needs_ensure-ensure_example =
    needs_ensure-ensure "OBP-1" 730 5 a_store (writes-IsSound two_tables (refl, tt))
      a_store-IsUnserved refl
