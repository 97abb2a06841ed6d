-- ===== src/Proxy/Sessions.antt =====
-- Sessions of the proxy over its operations: src/adn_server/application/proxy/use_cases.py.
use adn_dmr_peer_server.Prelude.{ℕ, ◌≡◌, false, List, [], ◌∷◌, String, nat_eq, bytes_eq}
use adn_dmr_peer_server.Prelude.Dict
use adn_dmr_peer_server.Prelude.Dict.{Dict}
use adn_dmr_peer_server.Wire.{Bytes}
use adn_dmr_peer_server.Proxy.{ClientSlot}
use adn_dmr_peer_server.Proxy.Slots.{SlotStore, list_slots}
use adn_dmr_peer_server.Proxy.UseCases.{ProxyUseCases, used_slots, allocate_report_slot}
use adn_dmr_peer_server.Proxy.Allocate.{is_used}

-- No report slot is in use twice.
abbrev pub Apart : List ℕ → Type 0
Apart [] = Unit
Apart (i ∷ used) = (is_used i used ≡ false) × Apart used

abbrev pub SlotsApart : ProxyUseCases → Type 0
SlotsApart proxy = Apart (used_slots (list_slots proxy.slots))

abbrev used_by : SlotStore → List ℕ
used_by store = used_slots (list_slots store)

abbrev new_slot : Bytes → String → ℕ → ProxyUseCases → ClientSlot
new_slot peer_id host udp_port proxy = record {
  peer_id = peer_id;
  client = record { host = host; udp_port = udp_port };
  report_slot = allocate_report_slot proxy;
}
