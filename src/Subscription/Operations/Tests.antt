-- ===== src/Subscription/Operations/Tests.antt =====
-- A day of a store: legs are held, put to idle, restored, and the rule timer ticks.
use adn_dmr_peer_server.Prelude.{refl, true, none, some, List, [], ◌∷◌, any, not, ◌≡◌, ◌⊎◌}
use adn_dmr_peer_server.Wire.{bytes_3}
use adn_dmr_peer_server.Subscription.{active, str_text}
use adn_dmr_peer_server.Subscription.Store.{empty_store}
use adn_dmr_peer_server.Subscription.Store.Sound.{IsSound}
use adn_dmr_peer_server.Subscription.Store.History.{replaces, upserts, all_distinct}
use adn_dmr_peer_server.Subscription.Store.Tests.{a_leg}
use adn_dmr_peer_server.Subscription.Operations.{
  Operation, writes, ticks, trims, ensures, signals, deactivates, operate_all,
}
use adn_dmr_peer_server.Subscription.Operations.Sound.{operate_all-IsSound, gives_own_targets}
use adn_dmr_peer_server.Subscription.Store.Exact.{IsExact}

abbrev some_operations : List (Operation Unit)
some_operations =
    writes (replaces (a_leg "MASTER-A" 2 none active ∷ a_leg "MASTER-B" 2 none active ∷ []))
    ∷ writes (upserts (a_leg "MASTER-B" 2 (some (35 ∷ 55 ∷ 51 ∷ 48 ∷ [])) active))
    ∷ ensures "OBP-1" (str_text 730) (bytes_3 730) 730 5
    ∷ signals "MASTER-A" 2 (bytes_3 730) 60 []
    ∷ deactivates "MASTER-B" 70
    ∷ ticks [] 700
    ∷ trims
    ∷ []

operate_all-IsSound_example :
    IsSound (operate_all (λ tgid acl. true) some_operations (empty_store 0))
    × ((any (λ (o : Operation Unit). not (gives_own_targets o)) some_operations ≡ true)
        ⊎ IsExact (operate_all (λ tgid acl. true) some_operations (empty_store 0)))
unfolding all_distinct adn_dmr_peer_server.Subscription.StaticTexts.static_tgs
    adn_dmr_peer_server.Prelude.Dict.get
operate_all-IsSound_example =
    operate_all-IsSound (λ tgid acl. true) some_operations
      (refl, (refl, (refl, (refl, (refl, (refl, (refl, tt)))))))
