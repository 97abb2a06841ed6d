-- ===== src/Mesh/Sessions/Sync.antt =====
-- What a configuration reload makes of the sessions: `sync` of
-- src/adn_server/domain/mesh_session.py, name by name.
use adn_dmr_peer_server.Prelude.{
  ◌≡◌, ◌⊎◌, inl, inr, refl, ap, ◌∙◌, Bool, true, false, ◌||◌, Option, none, some, is_some, List, [],
  ◌∷◌, any, String, if◌then◌else◌, ◌==◌, string_eq, eq_iff, Bool-cases, arith,
}
use mathlib.Core.Path.{subst}
use adn_dmr_peer_server.Prelude.Dict
use adn_dmr_peer_server.Prelude.Dict.{Dict}
use adn_dmr_peer_server.Mesh.Session.{ObpBridgeSession, new, peer_beq, forget_learned_peer}
use adn_dmr_peer_server.Mesh.Session.Address.{peer_beq_iff}
use adn_dmr_peer_server.Mesh.Config.{SysCfg, peer_from_config, dns_host_from_config}
use adn_dmr_peer_server.Mesh.Sessions.{
  MeshSessionStore, Systems, is_live, refreshed, sync_loop, prune_loop, sync,
}

abbrev pub block_live : Option (Option SysCfg) → Bool
block_live none = false
block_live (some cfg) = is_live cfg

module _ (is_ip_address : String → Bool) where
  -- What one name becomes, from its block and its session before the reload.
  abbrev pub after_loop :
      Option (Option SysCfg) → String → Option ObpBridgeSession → Option ObpBridgeSession
  after_loop none name old = old
  after_loop (some cfg) name old =
      if is_live cfg then some (refreshed is_ip_address old name cfg) else old

  -- The store after one block.
  abbrev stepped : String → Option SysCfg → MeshSessionStore → MeshSessionStore
  stepped n cfg store =
      if is_live cfg
      then Dict.put n (refreshed is_ip_address (Dict.get n store) n cfg) store
      else store

  get-stepped :
      (n : String) (cfg : Option SysCfg) (store : MeshSessionStore) (name : String)
      → Dict.get name (stepped n cfg store) ≡ (
          if n == name
          then after_loop (some cfg) name (Dict.get name store)
          else Dict.get name store)
  get-stepped n cfg store name = elim (Bool-cases (is_live cfg)) [
    | inl on ↦ rw on (
        Dict.get-put n name (refreshed is_ip_address (Dict.get n store) n cfg) store
        ∙ at_name (Bool-cases (n == name)))
    | inr off ↦ rw off (ground arith)
  ]
    where
      at_name :
          ((n == name) ≡ true) ⊎ ((n == name) ≡ false)
          → (if n == name
              then some (refreshed is_ip_address (Dict.get n store) n cfg)
              else Dict.get name store)
            ≡ (if n == name
                then some (refreshed is_ip_address (Dict.get name store) name cfg)
                else Dict.get name store)
      at_name (inl same) = rw same (
          ap (λ m. some (refreshed is_ip_address (Dict.get m store) m cfg))
            ((eq_iff n name).0 same))
      at_name (inr other) = rw other

  get-sync_loop :
      (systems : Systems) (live : List String) (store : MeshSessionStore) (name : String)
      → Dict.Distinct systems
      → Dict.get name (sync_loop is_ip_address systems live store).1
        ≡ after_loop (Dict.get name systems) name (Dict.get name store)
  unfolding sync_loop Dict.get
  get-sync_loop [] live store name h = refl
  get-sync_loop ((n, cfg) ∷ rest) live store name (fresh, h) =
      get-sync_loop rest (if is_live cfg then n ∷ live else live) (stepped n cfg store) name h
      ∙ at_name (Bool-cases (n == name))
    where
      at_name :
          ((n == name) ≡ true) ⊎ ((n == name) ≡ false)
          → after_loop (Dict.get name rest) name (Dict.get name (stepped n cfg store))
            ≡ after_loop
                (if n == name then some cfg else Dict.get name rest)
                name
                (Dict.get name store)
      at_name (inl same) =
          ap (λ o. after_loop o name (Dict.get name (stepped n cfg store)))
            (subst (λ m. Dict.get m rest ≡ none) ((eq_iff n name).0 same) fresh)
          ∙ get-stepped n cfg store name
          ∙ rw same
      at_name (inr other) =
          rw other
            (ap (after_loop (Dict.get name rest) name) (get-stepped n cfg store name ∙ rw other))

  live-sync_loop :
      (systems : Systems) (live : List String) (store : MeshSessionStore) (name : String)
      → Dict.Distinct systems
      → any (λ n. n == name) (sync_loop is_ip_address systems live store).0
        ≡ (any (λ n. n == name) live || block_live (Dict.get name systems))
  unfolding sync_loop Dict.get
  live-sync_loop [] live store name h = ground arith
  live-sync_loop ((n, cfg) ∷ rest) live store name (fresh, h) = ground (
    arith,
    live-sync_loop rest (if is_live cfg then n ∷ live else live) (stepped n cfg store) name h,
    eq_iff n name,
    fresh,
  )

get-prune_loop :
    (snapshot : MeshSessionStore) (live : List String) (store : MeshSessionStore) (name : String)
    → Dict.get name (prune_loop snapshot live store) ≡ (
        if any (λ n. n == name) live
        then Dict.get name store
        else if is_some (Dict.get name snapshot)
        then none
        else Dict.get name store)
unfolding prune_loop Dict.get
get-prune_loop [] live store name = ground arith
get-prune_loop ((n, s) ∷ rest) live store name = ground (
  arith,
  get-prune_loop rest live (if any (λ m. m == n) live then store else Dict.pop n store) name,
  Dict.get-pop n name store,
  eq_iff n name,
)

module _ (is_ip_address : String → Bool) where
  -- What a reload should make of a live system's session.
  abbrev pub renewed : Option ObpBridgeSession → String → Option SysCfg → ObpBridgeSession
  renewed none name cfg = new name (peer_from_config cfg) (dns_host_from_config is_ip_address cfg)
  renewed (some s) name cfg = record s {
    configured_peer = peer_from_config cfg;
    dns_host = dns_host_from_config is_ip_address cfg;
    learned_peer =
        if peer_beq s.configured_peer (peer_from_config cfg) then s.learned_peer else none;
    learned_at = if peer_beq s.configured_peer (peer_from_config cfg) then s.learned_at else 0;
  }

  refreshed-renewed :
      (old : Option ObpBridgeSession) (name : String) (cfg : Option SysCfg)
      → refreshed is_ip_address old name cfg ≡ renewed old name cfg
  unfolding forget_learned_peer
  refreshed-renewed none name cfg = refl
  refreshed-renewed (some s) name cfg =
      elim (Bool-cases (peer_beq s.configured_peer (peer_from_config cfg))) [
        | inl same ↦
            ground (arith, same, (peer_beq_iff s.configured_peer (peer_from_config cfg)).0 same)
        | inr other ↦ ground (arith, other)
      ]

  abbrev pub after_sync :
      Option (Option SysCfg) → String → Option ObpBridgeSession → Option ObpBridgeSession
  after_sync none name old = none
  after_sync (some cfg) name old = if is_live cfg then some (renewed old name cfg) else none

  -- A reload leaves a session for exactly the enabled OPENBRIDGE blocks; a new one is made from its
  -- block, and one that was there keeps all it knows but its DNS name, which is read again, and but
  -- its learned peer where the configured peer is another than before. It is assumed that no system
  -- has two blocks.
  pub get-sync :
      (systems : Systems) (store : MeshSessionStore) (name : String)
      → Dict.Distinct systems
      → Dict.get name (sync is_ip_address systems store)
        ≡ after_sync (Dict.get name systems) name (Dict.get name store)
  unfolding sync
  get-sync systems store name h =
      let (live, store') = sync_loop is_ip_address systems [] store in
      get-prune_loop store' live store' name
      ∙ at_name (Dict.get name systems) (live-sync_loop is_ip_address systems [] store name h)
          (get-sync_loop is_ip_address systems [] store name h)
    where
      at_name :
          {listed : Bool} {now : Option ObpBridgeSession} (cfg : Option (Option SysCfg))
          → listed ≡ block_live cfg
          → now ≡ after_loop is_ip_address cfg name (Dict.get name store)
          → (if listed then now else if is_some now then none else now)
            ≡ after_sync cfg name (Dict.get name store)
      at_name none l e = ground arith
      at_name (some c) l e = ground (arith, refreshed-renewed (Dict.get name store) name c)
