-- ===== src/Subscription/Reset/Tests.antt =====
-- A system's packet before and after its legs are deactivated.
use adn_dmr_peer_server.Prelude.{
  ◌≡◌, refl, true, false, none, some, List, [], ◌∷◌, id_eq, string_eq,
}
use adn_dmr_peer_server.Prelude.Dict
use adn_dmr_peer_server.Prelude.Decimal
use adn_dmr_peer_server.Subscription.{table_key, str_text, active, legacy_to_type}
use adn_dmr_peer_server.Subscription.Store.{SubscriptionStore, empty_store}
use adn_dmr_peer_server.Subscription.Store.History.{
  Write, replaces, writes, writes-IsSound, all_distinct,
}
use adn_dmr_peer_server.Subscription.Store.Reads.{has_active_target_leg}
use adn_dmr_peer_server.Subscription.Store.Tests.{a_leg}
use adn_dmr_peer_server.Subscription.Router.{VoiceIngress, resolve}
use adn_dmr_peer_server.Subscription.Reset.{deactivate_system_legs, restore_prohibited_static_legs}
use adn_dmr_peer_server.Subscription.Reset.Silence.{resolve-deactivate_system_legs}

abbrev two_legs : List Write
two_legs = replaces (a_leg "MASTER-A" 2 none active ∷ a_leg "MASTER-B" 2 none active ∷ []) ∷ []

abbrev a_store : SubscriptionStore
a_store = writes two_legs (empty_store 0)

abbrev an_ingress : VoiceIngress
an_ingress = record {
  source_system = "MASTER-A";
  slot = 2;
  dst_tgid = 730;
  source_is_obp = false;
  call_type = "group";
  stream_id = some 7;
  peer_id = none;
  src_id = some 7300001;
}

before_test :
    resolve an_ingress a_store
    ≡ record { target_system = "MASTER-B"; slot = 2; target_tgid = 730 } ∷ []
unfolding resolve writes Dict.get Dict.put Dict.pop table_key str_text Decimal.str legacy_to_type
before_test = refl

resolve-deactivate_system_legs_example :
    resolve an_ingress (deactivate_system_legs a_store "MASTER-A" 50) ≡ []
unfolding all_distinct
resolve-deactivate_system_legs_example =
    resolve-deactivate_system_legs a_store 50 an_ingress (writes-IsSound two_legs (refl, tt))

restored_test :
    has_active_target_leg "MASTER-A" 2 9990 (
      restore_prohibited_static_legs
        (λ tgid acl. true)
        a_store
        "MASTER-A"
        (record {
          mode = "MASTER";
          enabled = true;
          use_acl = true;
          ts1_static = [];
          ts2_static = 730 ∷ 9990 ∷ [];
          tg1_acl = tt;
          tg2_acl = tt;
        })
        50)
    ≡ true
unfolding has_active_target_leg restore_prohibited_static_legs writes Dict.get Dict.put Dict.pop
    table_key str_text Decimal.str legacy_to_type
restored_test = refl
