-- ===== src/Proxy/Attach.antt =====
-- When a client may attach: `attach_client` of src/adn_server/application/proxy/use_cases.py.
use adn_dmr_peer_server.Prelude.{
  ℕ, ◌<◌, ◌≡◌, ◌⊎◌, inl, inr, true, false, is_some, String, length, any, ◌==◌, nat_eq, bytes_eq,
  Option-cases, arith,
}
use adn_dmr_peer_server.Prelude.Dict
use adn_dmr_peer_server.Wire.{Bytes, int_id}
use adn_dmr_peer_server.Proxy.{with_client}
use adn_dmr_peer_server.Proxy.Slots.{bind, update_client, list_slots}
use adn_dmr_peer_server.Proxy.UseCases.{
  ProxyUseCases, Result, fail, success, raised, is_ip_blocked, attach_client,
}

-- When a client may attach.
abbrev pub MayAttach : Bytes → String → ℕ → ProxyUseCases → Type 0
MayAttach peer_id host now proxy =
    (length peer_id ≡ 4)
    × (is_ip_blocked host now proxy ≡ false)
    × ((is_some (Dict.get peer_id proxy.slots) ≡ true)
        ⊎ (any (λ n. n == int_id peer_id) proxy.black_list ≡ false)
          × (length (list_slots proxy.slots) < proxy.max_peers))

abbrev pub Attached : Bytes → String → ℕ → ProxyUseCases → Result × ProxyUseCases → Type 0
Attached peer_id host udp_port proxy (success slot, proxy') =
    (slot.client ≡ record { host = host; udp_port = udp_port })
    × (proxy'.slots ≡ Dict.put peer_id slot proxy.slots)
Attached peer_id host udp_port proxy (fail message, proxy') = ⊥
Attached peer_id host udp_port proxy (raised, proxy') = ⊥

abbrev pub Refused : ProxyUseCases → Result × ProxyUseCases → Type 0
Refused proxy (success slot, proxy') = ⊥
Refused proxy (fail message, proxy') = proxy' ≡ proxy
Refused proxy (raised, proxy') = ⊥

-- Attaching a client never raises. A peer id of four bytes from a host that is not blocked is
-- attached if it has a session already, or is not blacklisted and there are fewer sessions than
-- may be; its session then has the client's address, and the other sessions are as they were. In
-- all other cases it is refused, and nothing changes.
pub attach_client-Attached :
    (peer_id : Bytes) (host : String) (udp_port now : ℕ) (proxy : ProxyUseCases)
    → MayAttach peer_id host now proxy
        × Attached peer_id host udp_port proxy (attach_client peer_id host udp_port now proxy)
      ⊎ (¬ MayAttach peer_id host now proxy)
        × Refused proxy (attach_client peer_id host udp_port now proxy)
unfolding attach_client update_client bind with_client
attach_client-Attached peer_id host udp_port now proxy =
    elim (Option-cases (Dict.get peer_id proxy.slots)) [
      | inr (slot, e) ↦ ground (arith, e)
      | inl e ↦ ground (arith, e)
    ]
