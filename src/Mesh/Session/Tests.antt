-- ===== src/Mesh/Session/Tests.antt =====
-- Sessions at concrete peers, streams and times.
use adn_dmr_peer_server.Prelude.{
  string_eq, ◌==◌, ℕ, ◌≤◌, ◌≡◌, ◌≢◌, ◌↔◌, ◌+◌, Bool, true, false, none, some, [], ◌∷◌, refl,
  if◌then◌else◌, ◌==◌, bytes_eq, arith,
}
use adn_dmr_peer_server.Mesh.Session.{
  ObpBridgeSession, peer, dns_anchored, learn_peer, number, quenches, release_stream,
  note_keepalive, keepalive_ok, keepalive_stale,
}
use adn_dmr_peer_server.Mesh.Session.Address.{learn_peer-moves, learn_peer-anchored}
use adn_dmr_peer_server.Mesh.Session.Keepalive.{keepalive-phases}
use adn_dmr_peer_server.Mesh.Session.Quench.{quenches-release_stream}

abbrev a_session : ObpBridgeSession
a_session = record {
  system_name = "OBP-1";
  configured_peer = (some "192.0.2.1", 62044);
  learned_peer = none;
  learned_at = 0;
  last_keepalive = none;
  quenched = [];
  stunned = false;
  drops = [];
  dns_host = some "example.org";
  resolved_peer = none;
  dns_checked_at = 0;
}

abbrev a_quenched : ObpBridgeSession
a_quenched = record a_session { quenched = (0 ∷ 0 ∷ 9 ∷ [], 1 ∷ 1 ∷ []) ∷ [] }

learn_peer-anchored_example :
    (peer (learn_peer (some ("198.51.100.7", 5)) 3 a_session).0).0 ≡ (peer a_session).0
unfolding dns_anchored
learn_peer-anchored_example = learn_peer-anchored (some ("198.51.100.7", 5)) 3 a_session refl

learn_peer-moves_example :
    ((learn_peer (some ("192.0.2.1", 50000)) 3 a_session).1 ≡ true
      ↔ (peer (learn_peer (some ("192.0.2.1", 50000)) 3 a_session).0 ≢ peer a_session))
    × ((learn_peer (some ("192.0.2.1", 50000)) 3 a_session).1 ≡ true
        → peer (learn_peer (some ("192.0.2.1", 50000)) 3 a_session).0 ≡ (some "192.0.2.1", 50000))
learn_peer-moves_example = learn_peer-moves "192.0.2.1" 50000 3 a_session

keepalive-phases_example :
    ((keepalive_ok a_session 50 60 ≡ false) × (keepalive_stale a_session 50 60 ≡ false)
      ↔ (a_session.last_keepalive ≡ none))
    × (¬ ((keepalive_ok a_session 50 60 ≡ true) × (keepalive_stale a_session 50 60 ≡ true)))
    × ((keepalive_ok (note_keepalive 10 a_session) 50 60 ≡ true) ↔ (50 ≤ 10 + 60))
keepalive-phases_example = keepalive-phases a_session 10 50 60

quenches-release_stream_example :
    quenches (number 9) (1 ∷ 1 ∷ []) (release_stream (1 ∷ 1 ∷ []) a_quenched) ≡ false
unfolding adn_dmr_peer_server.Prelude.Dict.get
quenches-release_stream_example =
    quenches-release_stream (number 9) (1 ∷ 1 ∷ []) (1 ∷ 1 ∷ []) a_quenched (refl, tt)
