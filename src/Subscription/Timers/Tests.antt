-- ===== src/Subscription/Timers/Tests.antt =====
-- A tick at which the timer of one of two legs has run out.
use adn_dmr_peer_server.Prelude.{
  ◌≡◌, refl, true, false, none, some, List, [], ◌∷◌, id_eq, String, string_eq,
}
use adn_dmr_peer_server.Prelude.Dict
use adn_dmr_peer_server.Prelude.Dict.{Dict}
use adn_dmr_peer_server.Prelude.Decimal
use adn_dmr_peer_server.Subscription.{active, idle, table_key, str_text, legacy_to_type, with_timer}
use adn_dmr_peer_server.Subscription.Store.{SubscriptionStore, empty_store}
use adn_dmr_peer_server.Subscription.Store.History.{
  Write, replaces, writes, writes-IsSound, all_distinct,
}
use adn_dmr_peer_server.Subscription.Store.Tests.{a_leg}
use adn_dmr_peer_server.Subscription.Timers.{
  SystemBlock, apply_rule_timer, is_special_tg, is_infinite, verdict,
}
use adn_dmr_peer_server.Subscription.Timers.Tick.{ticked_leg, get-apply_rule_timer}
use adn_dmr_peer_server.Subscription.Timers.Expiry.{has_expired, apply_rule_timer-active}

abbrev two_legs : List Write
two_legs =
    replaces (a_leg "MASTER-A" 2 none active ∷ with_timer 900 (a_leg "MASTER-B" 2 none active) ∷ [])
    ∷ []

abbrev a_store : SubscriptionStore
a_store = writes two_legs (empty_store 0)

abbrev systems_cfg : Dict String SystemBlock
systems_cfg =
    ("MASTER-A", record { single_mode = true; mode = "MASTER" })
    ∷ ("MASTER-B", record { single_mode = true; mode = "MASTER" })
    ∷ []

get-apply_rule_timer_example :
    Dict.get (730, 2, "MASTER-A") (apply_rule_timer a_store systems_cfg 700).store.items
    ≡ ticked_leg systems_cfg 700 a_store (Dict.get (730, 2, "MASTER-A") a_store.items)
unfolding all_distinct
get-apply_rule_timer_example =
    get-apply_rule_timer systems_cfg 700 (730, 2, "MASTER-A") a_store
      (writes-IsSound two_legs (refl, tt))

tick_test :
    Dict.get (730, 2, "MASTER-A") (apply_rule_timer a_store systems_cfg 700).store.items
    ≡ some (a_leg "MASTER-A" 2 none idle)
unfolding apply_rule_timer is_special_tg is_infinite verdict legacy_to_type writes Dict.get Dict.put
    Dict.pop table_key str_text Decimal.str Decimal.int
tick_test = refl

apply_rule_timer-active_example :
    (Dict.get (730, 2, "MASTER-B") a_store.items
      ≡ some (with_timer 900 (a_leg "MASTER-B" 2 none active)))
    × (has_expired systems_cfg 700 (with_timer 900 (a_leg "MASTER-B" 2 none active)) ≡ false)
unfolding all_distinct apply_rule_timer is_special_tg is_infinite verdict legacy_to_type writes
    Dict.get Dict.put Dict.pop table_key str_text Decimal.str Decimal.int
apply_rule_timer-active_example =
    apply_rule_timer-active systems_cfg 700 a_store (730, 2, "MASTER-B")
      (with_timer 900 (a_leg "MASTER-B" 2 none active)) (writes-IsSound two_legs (refl, tt)) refl
      refl
