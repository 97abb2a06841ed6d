-- ===== src/Proxy/Tests.antt =====
-- A proxy with one session, and packets.
use adn_dmr_peer_server.Prelude.{◌⊎◌, false, some, [], ◌∷◌}
use adn_dmr_peer_server.Wire.{Bytes}
use adn_dmr_peer_server.Proxy.{ClientSlot}
use adn_dmr_peer_server.Proxy.Packets.{
  peer_id_from_packet, FourBytes, peer_id_from_packet-FourBytes,
}
use adn_dmr_peer_server.Proxy.UseCases.{ProxyUseCases, attach_client}
use adn_dmr_peer_server.Proxy.Attach.{MayAttach, Attached, Refused, attach_client-Attached}

abbrev a_peer : Bytes
a_peer = 0 ∷ 111 ∷ 107 ∷ 113 ∷ []

abbrev a_slot : ClientSlot
a_slot = record {
  peer_id = a_peer;
  client = record { host = "192.0.2.1"; udp_port = 62031 };
  report_slot = some 0;
}

abbrev a_proxy : ProxyUseCases
a_proxy = record {
  slots = (a_peer, a_slot) ∷ [];
  max_peers = 2;
  black_list = 7 ∷ [];
  ip_blacklist = some (("198.51.100.1", 100) ∷ []);
}

attach_client-Attached_example :
    MayAttach (0 ∷ 0 ∷ 0 ∷ 9 ∷ []) "192.0.2.9" 50 a_proxy
      × Attached
          (0 ∷ 0 ∷ 0 ∷ 9 ∷ [])
          "192.0.2.9"
          62031
          a_proxy
          (attach_client (0 ∷ 0 ∷ 0 ∷ 9 ∷ []) "192.0.2.9" 62031 50 a_proxy)
    ⊎ (¬ MayAttach (0 ∷ 0 ∷ 0 ∷ 9 ∷ []) "192.0.2.9" 50 a_proxy)
      × Refused a_proxy (attach_client (0 ∷ 0 ∷ 0 ∷ 9 ∷ []) "192.0.2.9" 62031 50 a_proxy)
attach_client-Attached_example =
    attach_client-Attached (0 ∷ 0 ∷ 0 ∷ 9 ∷ []) "192.0.2.9" 62031 50 a_proxy

peer_id_from_packet-FourBytes_example :
    FourBytes (peer_id_from_packet (b'R' ∷ b'P' ∷ b'T' ∷ b'L' ∷ a_peer) false)
peer_id_from_packet-FourBytes_example =
    peer_id_from_packet-FourBytes (b'R' ∷ b'P' ∷ b'T' ∷ b'L' ∷ a_peer) false
