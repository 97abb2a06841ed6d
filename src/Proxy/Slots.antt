-- ===== src/Proxy/Slots.antt =====
-- src/adn_server/infrastructure/proxy/slot_store.py and ip_blacklist.py. Times are numbers of
-- nanoseconds.
use adn_dmr_peer_server.Prelude.{
  ℕ, Bool, false, Option, none, some, is_some, List, [], ◌∷◌, String, ltb, if◌then◌else◌, bytes_eq,
  string_eq,
}
use adn_dmr_peer_server.Prelude.Dict
use adn_dmr_peer_server.Prelude.Dict.{Dict}
use adn_dmr_peer_server.Wire.{Bytes}
use adn_dmr_peer_server.Proxy.{ClientSlot, with_client}

-- `_by_peer`
abbrev pub SlotStore : Type 0
SlotStore = Dict Bytes ClientSlot

-- `none` is the `ValueError`.
unfoldable pub bind : ClientSlot → SlotStore → Option SlotStore
bind slot store =
    if is_some (Dict.get slot.peer_id store) then none else some (Dict.put slot.peer_id slot store)

abbrev moved : Bytes → String → ℕ → SlotStore → Option ClientSlot → Option SlotStore
moved peer_id host udp_port store none = none
moved peer_id host udp_port store (some slot) =
    some (Dict.put peer_id (with_client host udp_port slot) store)

-- `none` is the `KeyError`.
unfoldable pub update_client : Bytes → String → ℕ → SlotStore → Option SlotStore
update_client peer_id host udp_port store =
    moved peer_id host udp_port store (Dict.get peer_id store)

abbrev pub unbind : Bytes → SlotStore → Option ClientSlot × SlotStore
unbind peer_id store = (Dict.get peer_id store, Dict.pop peer_id store)

abbrev pub get_by_peer : Bytes → SlotStore → Option ClientSlot
get_by_peer peer_id store = Dict.get peer_id store

abbrev pub list_slots : SlotStore → List ClientSlot
list_slots [] = []
list_slots ((peer_id, slot) ∷ store) = slot ∷ list_slots store

-- `InMemoryProxyIpBlacklist`: when each host's block ends
abbrev pub IpBlacklist : Type 0
IpBlacklist = Dict String ℕ

abbrev pub block_until : String → ℕ → IpBlacklist → IpBlacklist
block_until host expire_at entries = Dict.put host expire_at entries

abbrev ends_after : Option ℕ → ℕ → Bool
ends_after none now = false
ends_after (some expire) now = ltb now expire

unfoldable pub is_blocked : String → ℕ → IpBlacklist → Bool
is_blocked host now entries = ends_after (Dict.get host entries) now

unfoldable pub merge_static_entries : List (String × ℕ) → IpBlacklist → IpBlacklist
merge_static_entries [] entries = entries
merge_static_entries ((host, expire) ∷ rest) entries =
    merge_static_entries rest (Dict.put host expire entries)
