-- ===== src/Mesh/Sessions/Tests.antt =====
-- Reloads of a concrete configuration.
use adn_dmr_peer_server.Prelude.{◌≡◌, true, false, none, some, [], ◌∷◌, refl, string_eq}
use adn_dmr_peer_server.Prelude.Dict
use adn_dmr_peer_server.Mesh.Session.{ObpBridgeSession}
use adn_dmr_peer_server.Mesh.Config.{SysCfg, port}
use adn_dmr_peer_server.Mesh.Sessions.{Systems, sync}
use adn_dmr_peer_server.Mesh.Sessions.Sync.{after_sync, get-sync}

abbrev a_block : SysCfg
a_block = record {
  mode = "OPENBRIDGE";
  enabled = some true;
  target_sock = some (some "192.0.2.1", port 62044);
  target_ip = none;
  target_port = none;
  original_ip = some " example.org";
}

abbrev two_systems : Systems
two_systems = ("OBP-1", some a_block) ∷ ("REPORTS", none) ∷ []

abbrev an_old : ObpBridgeSession
an_old = record {
  system_name = "OBP-1";
  configured_peer = (some "192.0.2.7", 62044);
  learned_peer = some ("192.0.2.7", 50000);
  learned_at = 5;
  last_keepalive = some 7;
  quenched = [];
  stunned = false;
  drops = [];
  dns_host = none;
  resolved_peer = none;
  dns_checked_at = 0;
}

get-sync_example :
    Dict.get "OBP-1" (sync (λ ip. false) two_systems (("OBP-1", an_old) ∷ []))
    ≡ after_sync (λ ip. false) (some (some a_block)) "OBP-1" (some an_old)
unfolding Dict.get
get-sync_example =
    get-sync (λ ip. false) two_systems (("OBP-1", an_old) ∷ []) "OBP-1" (refl, (refl, tt))
