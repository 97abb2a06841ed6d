-- ===== src/Subscription/Router/Tests.antt =====
-- A packet of an OBP, forwarded.
use adn_dmr_peer_server.Prelude.{
  ◌≡◌, refl, true, not, ◌||◌, none, some, All, List, [], ◌∷◌, string_eq, id_eq, leg_eq, bytes_eq,
  nat_eq,
}
use adn_dmr_peer_server.Subscription.{active, table_key, str_text}
use adn_dmr_peer_server.Prelude.Dict
use adn_dmr_peer_server.Prelude.Decimal
use adn_dmr_peer_server.Subscription.Store.{SubscriptionStore, empty_store}
use adn_dmr_peer_server.Subscription.Store.History.{
  Write, replaces, writes, writes-IsSound, all_distinct,
}
use adn_dmr_peer_server.Subscription.Store.Tests.{a_leg}
use adn_dmr_peer_server.Subscription.Router.{VoiceIngress, targets, resolve}
use adn_dmr_peer_server.Subscription.Router.Safety.{IsTarget, distinct_places, targets-IsTarget}

abbrev two_legs : List Write
two_legs = replaces (a_leg "OBP-1" 1 none active ∷ a_leg "MASTER-B" 2 none active ∷ []) ∷ []

abbrev a_store : SubscriptionStore
a_store = writes two_legs (empty_store 0)

abbrev an_ingress : VoiceIngress
an_ingress = record {
  source_system = "OBP-1";
  slot = 2;
  dst_tgid = 730;
  source_is_obp = true;
  call_type = "group";
  stream_id = some 7;
  peer_id = none;
  src_id = some 7300001;
}

resolve_test :
    resolve an_ingress a_store
    ≡ record { target_system = "MASTER-B"; slot = 2; target_tgid = 730 } ∷ []
unfolding resolve writes Dict.get Dict.put table_key str_text Decimal.str
resolve_test = refl

targets-IsTarget_example :
    (All (IsTarget an_ingress a_store) (targets an_ingress a_store))
    × ((not an_ingress.source_is_obp || distinct_places (targets an_ingress a_store)) ≡ true)
unfolding all_distinct
targets-IsTarget_example = targets-IsTarget an_ingress a_store (writes-IsSound two_legs (refl, tt))
