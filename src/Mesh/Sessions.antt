-- ===== src/Mesh/Sessions.antt =====
-- src/adn_server/domain/mesh_session.py: `MeshSessionStore`, the live sessions by system name, and
-- its place in the server's configuration. The sessions are objects that callers share, so a method
-- that returns one returns it beside the store that holds it.
pub mod Sync
mod Tests
use adn_dmr_peer_server.Prelude.{
  ℕ, Bool, true, false, not, ◌&&◌, Option, none, some, or_else, is_some, List, [], ◌∷◌, ◌++◌, any,
  String, if◌then◌else◌, ◌==◌, string_eq, length,
}
use adn_dmr_peer_server.Prelude.Dict
use adn_dmr_peer_server.Prelude.Dict.{Dict}
use adn_dmr_peer_server.Mesh.Session.{ObpBridgeSession, Peer, new, peer_beq, forget_learned_peer}
use adn_dmr_peer_server.Mesh.Config.{SysCfg, peer_from_config, dns_host_from_config}

-- `_sessions`
abbrev pub MeshSessionStore : Type 0
MeshSessionStore = Dict String ObpBridgeSession

-- `__contains__`
abbrev pub contains : String → MeshSessionStore → Bool
contains name store = is_some (Dict.get name store)

unfoldable pub drop : String → MeshSessionStore → MeshSessionStore
drop name store = Dict.pop name store

-- The SYSTEMS mapping; a value that is no mapping is `none`.
abbrev pub Systems : Type 0
Systems = Dict String (Option SysCfg)

-- The loop body's guards: an enabled OPENBRIDGE block.
unfoldable pub is_live : Option SysCfg → Bool
is_live none = false
is_live (some cfg) = cfg.mode == "OPENBRIDGE" && or_else cfg.enabled true

-- The second loop of `sync`, over the names of the store at its start.
unfoldable pub prune_loop : MeshSessionStore → List String → MeshSessionStore → MeshSessionStore
prune_loop [] live store = store
prune_loop ((name, _) ∷ rest) live store =
    prune_loop rest live (if any (λ n. n == name) live then store else Dict.pop name store)

-- The configuration as far as this module reads it: SYSTEMS and the private `_MESH_SESSIONS`.
pub record Config : Type 0 where
  pub systems : Systems
  pub mesh_sessions : Option MeshSessionStore

abbrev block_of : Option (Option SysCfg) → Option SysCfg
block_of none = none
block_of (some cfg) = cfg

module _ (is_ip_address : String → Bool) where
  abbrev pub create : String → Option SysCfg → ObpBridgeSession
  create name cfg = new name (peer_from_config cfg) (dns_host_from_config is_ip_address cfg)

  abbrev reconfigured : ObpBridgeSession → Option SysCfg → ObpBridgeSession
  reconfigured s none = s
  reconfigured s (some cfg) = record s { configured_peer = peer_from_config (some cfg) }

  abbrev found : Option ObpBridgeSession → String → Option SysCfg → ObpBridgeSession
  found none name cfg = create name cfg
  found (some s) name cfg = reconfigured s cfg

  unfoldable pub session :
      String → Option SysCfg → MeshSessionStore → ObpBridgeSession × MeshSessionStore
  session name cfg store =
      let s = found (Dict.get name store) name cfg in (s, Dict.put name s store)

  -- One live block in the first loop of `sync`.
  abbrev pub refreshed : Option ObpBridgeSession → String → Option SysCfg → ObpBridgeSession
  refreshed none name cfg = create name cfg
  refreshed (some s) name cfg =
      let named = record s { dns_host = dns_host_from_config is_ip_address cfg } in
      if peer_beq s.configured_peer (peer_from_config cfg)
      then named
      else forget_learned_peer (record named { configured_peer = peer_from_config cfg })

  -- The first loop of `sync`, with the names of `live`.
  unfoldable pub sync_loop :
      Systems → List String → MeshSessionStore → List String × MeshSessionStore
  sync_loop [] live store = (live, store)
  sync_loop ((name, cfg) ∷ rest) live store =
      sync_loop rest (if is_live cfg then name ∷ live else live) (
        if is_live cfg
        then Dict.put name (refreshed (Dict.get name store) name cfg) store
        else store)

  unfoldable pub sync : Systems → MeshSessionStore → MeshSessionStore
  sync systems store =
      let (live, store') = sync_loop systems [] store in prune_loop store' live store'

  abbrev existing : Option MeshSessionStore → Systems → MeshSessionStore
  existing (some store) systems = store
  existing none systems = sync systems []

  unfoldable pub mesh_sessions : Config → MeshSessionStore × Config
  mesh_sessions config =
      let store = existing config.mesh_sessions config.systems in
      (store, record config { mesh_sessions = some store })

  unfoldable pub obp_session : Config → String → ObpBridgeSession × Config
  unfolding mesh_sessions
  obp_session config name =
      let (store, config') = mesh_sessions config in
      let (s, store') = session name (block_of (Dict.get name config.systems)) store in
      (s, record config' { mesh_sessions = some store' })
