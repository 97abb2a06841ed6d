-- ===== src/Mesh/Session/Keepalive.antt =====
-- The keepalive clock of src/adn_server/domain/mesh_session.py.
use adn_dmr_peer_server.Prelude.{ℕ, ◌+◌, ◌≤◌, ◌≡◌, ◌↔◌, true, false, none, arith}
use adn_dmr_peer_server.Mesh.Session.{
  ObpBridgeSession, note_keepalive, keepalive_stale, keepalive_ok,
}

-- A link is not both alive and stale, it is neither exactly before its first keepalive, and after a
-- keepalive it is alive exactly as long as no more than the timeout has passed.
pub keepalive-phases :
    (s : ObpBridgeSession) (at now timeout : ℕ)
    → ((keepalive_ok s now timeout ≡ false) × (keepalive_stale s now timeout ≡ false)
        ↔ (s.last_keepalive ≡ none))
      × (¬ ((keepalive_ok s now timeout ≡ true) × (keepalive_stale s now timeout ≡ true)))
      × ((keepalive_ok (note_keepalive at s) now timeout ≡ true) ↔ (now ≤ at + timeout))
unfolding keepalive_ok note_keepalive
keepalive-phases s at now timeout = ground arith
