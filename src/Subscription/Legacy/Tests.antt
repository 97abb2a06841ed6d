-- ===== src/Subscription/Legacy/Tests.antt =====
-- A leg's row, written and read.
use adn_dmr_peer_server.Prelude.{◌≡◌, ◌≢◌, refl, none, [], ◌∷◌, arith}
use adn_dmr_peer_server.Subscription.{Subscription, active}
use adn_dmr_peer_server.Subscription.Store.Tests.{a_leg}
use adn_dmr_peer_server.Subscription.Legacy.{subscription_to_legacy_row, subscription_from_row}
use adn_dmr_peer_server.Subscription.Legacy.RoundTrip.{row-from_row}

abbrev a_triggered : Subscription
a_triggered = record (a_leg "MASTER-A" 2 none active) {
  triggers = record { on = []; off = (0 ∷ 15 ∷ 160 ∷ []) ∷ []; reset = [] };
}

two_nonzero : a_triggered.channel.slot ≢ 0
two_nonzero = omega arith

row-from_row_example :
    subscription_to_legacy_row
      (subscription_from_row (55 ∷ 51 ∷ 48 ∷ []) (subscription_to_legacy_row a_triggered 10))
      20
    ≡ subscription_to_legacy_row a_triggered 10
row-from_row_example =
    row-from_row a_triggered (55 ∷ 51 ∷ 48 ∷ []) 10 20 two_nonzero (tt, (refl, tt), tt)
