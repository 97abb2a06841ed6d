-- ===== src/Subscription/Store.antt =====
-- src/adn_server/infrastructure/subscription_store.py: `InMemorySubscriptionStore`. A subscription is
-- held under its id; the lists of objects in the indexes are lists of ids, and what they hold is
-- looked up in `items`. A leg that a caller changes in place and hands to `upsert` is the new value.
pub mod Counts
pub mod Agrees
pub mod Unindexed
pub mod Indexed
pub mod Sound
pub mod Writes
pub mod Removal
pub mod History
pub mod Exact
pub mod Reads
pub mod Lookup
pub mod Tests
use adn_dmr_peer_server.Prelude.{
  ℕ, ◌+◌, ◌-◌, ◌≡◌, Bool, true, false, not, ◌&&◌, Option, none, some, or_else, is_some, List, [],
  ◌∷◌, ◌++◌, String, ltb, leb, any, if◌then◌else◌, ◌==◌, nat_eq, bytes_eq, string_eq, id_eq, leg_eq,
  map,
}
use adn_dmr_peer_server.Prelude.Dict
use adn_dmr_peer_server.Prelude.Dict.{Dict, list_at, set_or_delete}
use adn_dmr_peer_server.Subscription.{
  Subscription, SubscriptionId, SubscriptionPhase, AudioChannel, Text, subscription_id, is_active,
  table_key,
}

-- A system, a slot and a target talkgroup.
abbrev pub IndexKey : Type 0
IndexKey = String × ℕ × ℕ

pub record SubscriptionStore : Type 0 where
  pub items : Dict SubscriptionId Subscription
  pub by_system : Dict String (List SubscriptionId)
  pub by_table : Dict Text (List SubscriptionId)
  pub source_tables : Dict IndexKey (List Text)
  pub active_target_counts : Dict IndexKey ℕ
  pub indexed : Dict SubscriptionId (Text × Option IndexKey)
  pub revision : ℕ

abbrev pub empty_store : ℕ → SubscriptionStore
empty_store revision = record {
  items = [];
  by_system = [];
  by_table = [];
  source_tables = [];
  active_target_counts = [];
  indexed = [];
  revision = revision;
}

-- `_index_key`
abbrev pub index_key : Subscription → IndexKey
index_key sub = (sub.system, sub.channel.slot, sub.target_tgid)

-- What a leg is indexed under.
abbrev pub index_of : Subscription → Text × Option IndexKey
index_of sub = (table_key sub, if is_active sub then some (index_key sub) else none)

abbrev pub count_at : Option ℕ → ℕ
count_at none = 0
count_at (some n) = n

-- `list.remove`, of nothing where the id is missing
unfoldable pub remove_first : SubscriptionId → List SubscriptionId → List SubscriptionId
remove_first id [] = []
remove_first id (j ∷ ids) = let rest = remove_first id ids in if j == id then ids else j ∷ rest

-- `set.add` and `set.discard`
unfoldable pub add_text : Text → List Text → List Text
add_text t ts = if any (λ u. u == t) ts then ts else t ∷ ts

unfoldable pub discard : Text → List Text → List Text
discard t [] = []
discard t (u ∷ ts) = let rest = discard t ts in if u == t then rest else u ∷ rest

-- A key of a dictionary of a system's legs, which keeps its place.
abbrev pub with_id : SubscriptionId → List SubscriptionId → List SubscriptionId
with_id id ids = if any (λ j. j == id) ids then ids else ids ++ id ∷ []

abbrev pub index_active : Text → Option IndexKey → SubscriptionStore → SubscriptionStore
index_active t none store = store
index_active t (some key) store = record store {
  source_tables =
      Dict.put key (add_text t (list_at (Dict.get key store.source_tables))) store.source_tables;
  active_target_counts =
      Dict.put key (count_at (Dict.get key store.active_target_counts) + 1)
        store.active_target_counts;
}

-- `_index`
unfoldable pub index : Subscription → SubscriptionStore → SubscriptionStore
unfolding add_text
index sub store =
    let (t, key) = index_of sub in
    index_active t key (record store {
      by_table =
          Dict.put t (list_at (Dict.get t store.by_table) ++ subscription_id sub ∷ [])
            store.by_table;
      indexed = Dict.put (subscription_id sub) (t, key) store.indexed;
    })

-- The legs of a table without the id; nothing is done where there are none.
abbrev pub unindex_table :
    SubscriptionId
    → Text
    → Option (List SubscriptionId)
    → Dict Text (List SubscriptionId)
    → Dict Text (List SubscriptionId)
unindex_table id t none by_table = by_table
unindex_table id t (some []) by_table = by_table
unindex_table id t (some (j ∷ ids)) by_table =
    let left = remove_first id (j ∷ ids) in
    set_or_delete left (Dict.put t left by_table) (Dict.pop t by_table)

abbrev pub unindex_source :
    Text → IndexKey → Option (List Text) → Dict IndexKey (List Text) → Dict IndexKey (List Text)
unindex_source t key none tables = tables
unindex_source t key (some keys) tables =
    let left = discard t keys in set_or_delete left (Dict.put key left tables) (Dict.pop key tables)

-- `count <= 0` after taking one away
abbrev pub unindex_count : IndexKey → ℕ → Dict IndexKey ℕ → Dict IndexKey ℕ
unindex_count key n counts = if leb n 1 then Dict.pop key counts else Dict.put key (n - 1) counts

abbrev pub unindex_active : Text → Option IndexKey → SubscriptionStore → SubscriptionStore
unindex_active t none store = store
unindex_active t (some key) store = record store {
  source_tables = unindex_source t key (Dict.get key store.source_tables) store.source_tables;
  active_target_counts =
      unindex_count key (count_at (Dict.get key store.active_target_counts))
        store.active_target_counts;
}

abbrev pub unindexed :
    SubscriptionId → SubscriptionStore → Option (Text × Option IndexKey) → SubscriptionStore
unindexed id store none = store
unindexed id store (some (t, key)) = unindex_active t key (record store {
  by_table = unindex_table id t (Dict.get t store.by_table) store.by_table;
  indexed = Dict.pop id store.indexed;
})

-- `_unindex`
unfoldable pub unindex : SubscriptionId → SubscriptionStore → SubscriptionStore
unfolding remove_first discard
unindex id store = unindexed id store (Dict.get id store.indexed)

-- The leg under its id and its system.
abbrev pub held : Subscription → SubscriptionStore → SubscriptionStore
held sub store = record store {
  items = Dict.put (subscription_id sub) sub store.items;
  by_system =
      Dict.put sub.system
        (with_id (subscription_id sub) (list_at (Dict.get sub.system store.by_system)))
        store.by_system;
}

abbrev pub unindex_old :
    Option Subscription → SubscriptionId → SubscriptionStore → SubscriptionStore
unindex_old none id store = store
unindex_old (some old) id store = unindex id store

abbrev pub revised : SubscriptionStore → SubscriptionStore
revised store = record store { revision = store.revision + 1 }

unfoldable pub upsert : Subscription → SubscriptionStore → SubscriptionStore
unfolding index unindex
upsert sub store =
    let id = subscription_id sub in
    revised (index sub (held sub (unindex_old (Dict.get id store.items) id store)))

abbrev pub without_system_at :
    SubscriptionId
    → String
    → Option (List SubscriptionId)
    → Dict String (List SubscriptionId)
    → Dict String (List SubscriptionId)
without_system_at id name none by_system = by_system
without_system_at id name (some ids) by_system =
    let left = remove_first id ids in
    set_or_delete left (Dict.put name left by_system) (Dict.pop name by_system)

abbrev pub without_system : SubscriptionId → Subscription → SubscriptionStore → SubscriptionStore
without_system id old store = record store {
  by_system = without_system_at id old.system (Dict.get old.system store.by_system) store.by_system;
}

abbrev pub removed :
    SubscriptionId → SubscriptionStore → Option Subscription → Bool × SubscriptionStore
removed id store none = (false, store)
removed id store (some old) = (
  true,
  revised (
      unindex (subscription_id old)
        (without_system id old (record store { items = Dict.pop id store.items }))),
)

unfoldable pub remove : SubscriptionId → SubscriptionStore → Bool × SubscriptionStore
unfolding unindex remove_first
remove id store = removed id store (Dict.get id store.items)

unfoldable pub clear : SubscriptionStore → SubscriptionStore
clear store = empty_store (store.revision + 1)

unfoldable pub hold_all : List Subscription → SubscriptionStore → SubscriptionStore
unfolding index
hold_all [] store = store
hold_all (sub ∷ subs) store = hold_all subs (index sub (held sub store))

unfoldable pub replace_all : List Subscription → SubscriptionStore → SubscriptionStore
unfolding clear hold_all
replace_all subs store = revised (hold_all subs (clear store))
