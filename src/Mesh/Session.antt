-- ===== src/Mesh/Session.antt =====
-- src/adn_server/domain/mesh_session.py: `ObpBridgeSession`. A method that changes the session
-- returns the new one. Times are numbers of nanoseconds; a peer is a host, if known, and a port.
pub mod Address
pub mod Keepalive
pub mod Quench
mod Tests
use adn_dmr_peer_server.Prelude.{
  ℕ, ◌+◌, ◌*◌, ◌^◌, ◌≡◌, Bool, true, false, not, ◌&&◌, ◌||◌, Option, none, some, ◌or◌, is_some,
  List, [], ◌∷◌, String, ltb, leb, if◌then◌else◌, ◌==◌, nat_eq, bytes_eq, string_eq, option_beq,
  length, take,
}
use adn_dmr_peer_server.Prelude.Dict
use adn_dmr_peer_server.Prelude.Dict.{Dict}
use adn_dmr_peer_server.Wire.{Bytes, int_id, bytes_3}

-- KEEPALIVE_TIMEOUT_S
abbrev pub keepalive_timeout_ns : ℕ
keepalive_timeout_ns = 60_000_000_000

abbrev pub Peer : Type 0
Peer = Option String × ℕ

abbrev pub Address : Type 0
Address = String × ℕ

abbrev pub to_peer : Address → Peer
to_peer (host, port) = (some host, port)

-- the truth of a host: `None` and `""` are false
abbrev pub is_host : Option String → Bool
is_host none = false
is_host (some host) = not (host == "")

abbrev pub peer_beq : Peer → Peer → Bool
peer_beq (h, p) (i, q) = option_beq h i && p == q

pub record ObpBridgeSession : Type 0 where
  pub system_name : String
  pub configured_peer : Peer
  pub learned_peer : Option Address
  pub learned_at : ℕ
  pub last_keepalive : Option ℕ
  pub quenched : Dict Bytes Bytes
  pub stunned : Bool
  pub drops : Dict String ℕ
  pub dns_host : Option String
  pub resolved_peer : Option Address
  pub dns_checked_at : ℕ

unfoldable pub new : String → Peer → Option String → ObpBridgeSession
new name configured dns = record {
  system_name = name;
  configured_peer = configured;
  learned_peer = none;
  learned_at = 0;
  last_keepalive = none;
  quenched = [];
  stunned = false;
  drops = [];
  dns_host = dns;
  resolved_peer = none;
  dns_checked_at = 0;
}

abbrev peer_or : Option Address → Peer → Peer
peer_or none p = p
peer_or (some a) p = to_peer a

-- the property `_anchor`
unfoldable pub anchor : ObpBridgeSession → Option Peer
anchor s =
    if not (is_host s.dns_host)
    then none
    else let a = peer_or s.resolved_peer s.configured_peer in if is_host a.0 then some a else none

unfoldable pub dns_anchored : ObpBridgeSession → Bool
unfolding anchor
dns_anchored s = is_some (anchor s)

abbrev anchored_peer : Option Address → Peer → Peer
anchored_peer none a = a
anchored_peer (some l) a = if option_beq (some l.0) a.0 then to_peer l else a

-- the property `peer`
unfoldable pub peer : ObpBridgeSession → Peer
unfolding anchor
peer s = elim (anchor s) [
  | none ↦ peer_or s.learned_peer s.configured_peer
  | some a ↦ anchored_peer s.learned_peer a
]

unfoldable pub peer_known : ObpBridgeSession → Bool
unfolding peer
peer_known s = is_host (peer s).0

abbrev other_host : Option Peer → String → Bool
other_host none host = false
other_host (some a) host = not (option_beq (some host) a.0)

-- `learn_peer(addr, at)`; a missing address is `none`.
unfoldable pub learn_peer : Option Address → ℕ → ObpBridgeSession → ObpBridgeSession × Bool
unfolding peer
learn_peer none at s = (s, false)
learn_peer (some (host, port)) at s =
    if host == ""
    then (s, false)
    else if other_host (anchor s) host
    then (s, false)
    else if peer_beq (peer s) (some host, port)
    then (s, false)
    else (record s { learned_peer = some (host, port); learned_at = at }, true)

abbrev forget_other_host : Option Address → String → Option Address
forget_other_host none host = none
forget_other_host (some l) host = if l.0 == host then some l else none

unfoldable pub adopt_resolved : Address → ℕ → ObpBridgeSession → ObpBridgeSession × Bool
unfolding peer
adopt_resolved (host, port) at s =
    let moved = record s {
      dns_checked_at = at;
      learned_peer = forget_other_host s.learned_peer host;
      resolved_peer = some (host, port);
    } in
    (moved, not (peer_beq (peer moved) (peer s)))

unfoldable pub forget_learned_peer : ObpBridgeSession → ObpBridgeSession
forget_learned_peer s = record s { learned_peer = none; learned_at = 0 }

unfoldable pub note_keepalive : ℕ → ObpBridgeSession → ObpBridgeSession
note_keepalive at s = record s { last_keepalive = some at }

unfoldable pub keepalive_seen : ObpBridgeSession → Bool
keepalive_seen s = is_some s.last_keepalive

-- `last_keepalive < now - timeout`
abbrev stale : Option ℕ → ℕ → ℕ → Bool
stale none now timeout = false
stale (some last) now timeout = ltb (last + timeout) now

unfoldable pub keepalive_stale : ObpBridgeSession → ℕ → ℕ → Bool
keepalive_stale s now timeout = stale s.last_keepalive now timeout

unfoldable pub keepalive_ok : ObpBridgeSession → ℕ → ℕ → Bool
unfolding keepalive_seen keepalive_stale
keepalive_ok s now timeout = keepalive_seen s && not (keepalive_stale s now timeout)

unfoldable pub quench : Bytes → Bytes → ObpBridgeSession → ObpBridgeSession
quench tgid stream_id s = record s { quenched = Dict.put tgid stream_id s.quenched }

-- A talkgroup as callers pass it.
pub data TgRef : Type 0 where
  octets : Bytes → TgRef
  number : ℕ → TgRef

unfoldable pub tid_of : TgRef → Bytes
tid_of (octets b) = if leb 3 (length b) then take 3 b else bytes_3 (int_id b)
tid_of (number n) = bytes_3 n

-- the loop over `quenched.items()`
unfoldable pub quenched_by_number : Bytes → Bytes → Dict Bytes Bytes → Bool
quenched_by_number tid stream_id [] = false
quenched_by_number tid stream_id ((key, value) ∷ rest) =
    (value == stream_id && (leb 3 (length key) && int_id key == int_id tid))
    || quenched_by_number tid stream_id rest

unfoldable pub quenches : TgRef → Bytes → ObpBridgeSession → Bool
unfolding quenched_by_number
quenches dst_id stream_id s =
    let tid = tid_of dst_id in
    option_beq (Dict.get tid s.quenched) (some stream_id)
    || quenched_by_number tid stream_id s.quenched

abbrev drops_of : Option ℕ → ℕ
drops_of none = 0
drops_of (some n) = n

unfoldable pub count_drop : String → ObpBridgeSession → ObpBridgeSession
count_drop reason s = record s {
  drops = Dict.put reason (drops_of (Dict.get reason s.drops) + 1) s.drops;
}

unfoldable pub stun : ObpBridgeSession → ObpBridgeSession
stun s = record s { stunned = true }

-- the loop of `release_stream` over the entries at its start
unfoldable pub release_loop : Dict Bytes Bytes → Bytes → Dict Bytes Bytes → Dict Bytes Bytes
release_loop [] stream_id d = d
release_loop ((tgid, value) ∷ rest) stream_id d =
    release_loop rest stream_id (if value == stream_id then Dict.pop tgid d else d)

unfoldable pub release_stream : Bytes → ObpBridgeSession → ObpBridgeSession
unfolding release_loop
release_stream stream_id s = record s { quenched = release_loop s.quenched stream_id s.quenched }
