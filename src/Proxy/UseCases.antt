-- ===== src/Proxy/UseCases.antt =====
-- src/adn_server/application/proxy/use_cases.py: `ProxyUseCases`, over the stores of `Slots`. A
-- method returns its result beside the new state; `now` is the clock. The queue of pending RPTO
-- packets is only held by this class, so it is no part of the state.
use adn_dmr_peer_server.Prelude.{
  ℕ, zero, suc, ◌+◌, Bool, false, not, Option, none, some, List, [], ◌∷◌, String, leb, drop, length,
  any, if◌then◌else◌, ◌==◌, nat_eq,
}
use adn_dmr_peer_server.Wire.{Bytes, int_id}
use adn_dmr_peer_server.Proxy.{ClientEndpoint, ClientSlot, SessionTeardown, with_client}
use adn_dmr_peer_server.Proxy.Slots.{
  SlotStore, bind, update_client, unbind, get_by_peer, list_slots, IpBlacklist, block_until,
  is_blocked,
}

pub record ProxyUseCases : Type 0 where
  pub slots : SlotStore
  pub max_peers : ℕ
  pub black_list : List ℕ
  pub ip_blacklist : Option IpBlacklist

-- `Fail` has the message; `raised` is an exception of the slot store.
pub data Result : Type 0 where
  fail : String → Result
  success : ClientSlot → Result
  raised : Result

abbrev pub taken_by : Option ℕ → List ℕ → List ℕ
taken_by none used = used
taken_by (some i) used = i ∷ used

-- the set `used`
unfoldable pub used_slots : List ClientSlot → List ℕ
used_slots [] = []
used_slots (slot ∷ slots) = taken_by slot.report_slot (used_slots slots)

-- the loop over `count` indices from `index` on
unfoldable pub first_free : ℕ → ℕ → List ℕ → Option ℕ
first_free zero index used = none
first_free (suc count) index used =
    let rest = first_free count (index + 1) used in
    if not (any (λ i. i == index) used) then some index else rest

unfoldable pub allocate_report_slot : ProxyUseCases → Option ℕ
allocate_report_slot proxy = first_free proxy.max_peers 0 (used_slots (list_slots proxy.slots))

abbrev blocked_by : Option IpBlacklist → String → ℕ → Bool
blocked_by none host now = false
blocked_by (some entries) host now = is_blocked host now entries

unfoldable pub is_ip_blocked : String → ℕ → ProxyUseCases → Bool
is_ip_blocked host now proxy = blocked_by proxy.ip_blacklist host now

-- A write of the slot store, and the answer where it succeeds.
abbrev pub stored : ClientSlot → ProxyUseCases → Option SlotStore → Result × ProxyUseCases
stored slot proxy none = (raised, proxy)
stored slot proxy (some slots) = (success slot, record proxy { slots = slots })

-- from the look-up of the peer on
abbrev pub attached :
    Bytes → String → ℕ → ProxyUseCases → Option ClientSlot → Result × ProxyUseCases
attached peer_id host udp_port proxy (some existing) =
    stored (with_client host udp_port existing) proxy
      (update_client peer_id host udp_port proxy.slots)
attached peer_id host udp_port proxy none =
    if any (λ n. n == int_id peer_id) proxy.black_list
    then (fail "peer is blacklisted", proxy)
    else if leb proxy.max_peers (length (list_slots proxy.slots))
    then (fail "maximum peers exceeded", proxy)
    else let slot : ClientSlot = record {
      peer_id = peer_id;
      client = record { host = host; udp_port = udp_port };
      report_slot = allocate_report_slot proxy;
    } in
      stored slot proxy (bind slot proxy.slots)

unfoldable pub attach_client : Bytes → String → ℕ → ℕ → ProxyUseCases → Result × ProxyUseCases
attach_client peer_id host udp_port now proxy =
    if not (length peer_id == 4)
    then (fail "peer_id must be 4 bytes", proxy)
    else if is_ip_blocked host now proxy
    then (fail "client IP is blacklisted", proxy)
    else attached peer_id host udp_port proxy (get_by_peer peer_id proxy.slots)

unfoldable pub detach_client : Bytes → ProxyUseCases → Option ClientSlot × ProxyUseCases
detach_client peer_id proxy =
    let (slot, slots) = unbind peer_id proxy.slots in (slot, record proxy { slots = slots })

abbrev teardown : Option ClientSlot → Option SessionTeardown
teardown none = none
teardown (some slot) = some (record { peer_id = slot.peer_id; client = slot.client })

unfoldable pub expire_session : Bytes → ProxyUseCases → Option SessionTeardown × ProxyUseCases
unfolding detach_client
expire_session peer_id proxy =
    let (slot, proxy') = detach_client peer_id proxy in (teardown slot, proxy')

abbrev with_block : Option IpBlacklist → String → ℕ → Option IpBlacklist
with_block none host expire_at = none
with_block (some entries) host expire_at = some (block_until host expire_at entries)

unfoldable pub block_ip_until : String → ℕ → ProxyUseCases → ProxyUseCases
block_ip_until host expire_at proxy = record proxy {
  ip_blacklist = with_block proxy.ip_blacklist host expire_at;
}

abbrev expire_of : Option ℕ → ℕ → ℕ
expire_of none expire = expire
expire_of (some parsed) expire = parsed

-- `parse` is `float` of the decoded bytes, `none` where that raises.
unfoldable pub block_ip_from_prbl :
    (Bytes → Option ℕ) → Bytes → String → ℕ → ℕ → ProxyUseCases → ℕ × ProxyUseCases
block_ip_from_prbl parse datagram host default_ttl now proxy =
    let expire =
      if leb 9 (length datagram)
      then expire_of (parse (drop 8 datagram)) (now + default_ttl)
      else now + default_ttl in
    (expire, block_ip_until host expire proxy)

abbrev endpoint : Option ClientSlot → Option ClientEndpoint
endpoint none = none
endpoint (some slot) = some slot.client

unfoldable pub resolve_client : Bytes → ProxyUseCases → Option ClientEndpoint
resolve_client peer_id proxy = endpoint (get_by_peer peer_id proxy.slots)

unfoldable pub apply_runtime_settings : ℕ → List ℕ → ProxyUseCases → ProxyUseCases
apply_runtime_settings max_peers black_list proxy = record proxy {
  max_peers = max_peers;
  black_list = black_list;
}
