-- ===== src/Proxy.antt =====
-- The proxy that hotspots connect through: src/adn_server/domain/proxy.py, and the packets of
-- src/adn_server/application/proxy/packet_helpers.py and session_teardown.py. The children have the
-- stores (Slots), the use cases (UseCases) and what holds of them.
pub mod Slots
pub mod Packets
pub mod UseCases
pub mod Allocate
pub mod Sessions
pub mod Attach
mod Tests
use adn_dmr_peer_server.Prelude.{ℕ, Option, none, String}
use adn_dmr_peer_server.Wire.{Bytes}

pub record ClientEndpoint : Type 0 where
  pub host : String
  pub udp_port : ℕ

pub record ClientSlot : Type 0 where
  pub peer_id : Bytes
  pub client : ClientEndpoint
  pub report_slot : Option ℕ

pub record SessionTeardown : Type 0 where
  pub peer_id : Bytes
  pub client : ClientEndpoint

unfoldable pub with_client : String → ℕ → ClientSlot → ClientSlot
with_client host udp_port slot = record {
  peer_id = slot.peer_id;
  client = record { host = host; udp_port = udp_port };
  report_slot = slot.report_slot;
}
