-- ===== src/Subscription/Store/Agrees.antt =====
-- The indexes of src/adn_server/infrastructure/subscription_store.py agree with the held legs.
use adn_dmr_peer_server.Prelude.{
  ℕ, ◌≤◌, ◌≡◌, true, false, any, Bool, ◌&&◌, Option, none, some, List, if◌then◌else◌, ◌==◌,
  bytes_eq, string_eq, id_eq, leg_eq, arith,
}
use adn_dmr_peer_server.Prelude.Dict
use adn_dmr_peer_server.Prelude.Dict.{Dict, list_at, set_or_delete}
use adn_dmr_peer_server.Subscription.{Subscription, SubscriptionId, Text, is_active, table_key}
use adn_dmr_peer_server.Subscription.Store.{
  IndexKey, SubscriptionStore, index_key, index_of, count_at,
}
use adn_dmr_peer_server.Subscription.Store.Counts.{one, one_of, count, places}

abbrev pub Items : Type 0
Items = Dict SubscriptionId Subscription

abbrev pub indexes : Option Subscription → Option (Text × Option IndexKey)
indexes none = none
indexes (some sub) = some (index_of sub)

abbrev pub is_in_table : Text → Subscription → Bool
is_in_table t sub = table_key sub == t

abbrev pub is_active_at : IndexKey → Subscription → Bool
is_active_at key sub = is_active sub && index_key sub == key

abbrev pub is_source : IndexKey → Text → Subscription → Bool
is_source key t sub = is_active_at key sub && is_in_table t sub

abbrev pub has_text : Text → List Text → Bool
has_text t ts = any (λ u. u == t) ts

-- The indexes say what the legs are: under what each is indexed, that a table lists each of its legs
-- once and no other, how many active legs a target has, and that a table named as a target's source
-- has an active leg of it.
pub record Agrees (items : Items) (store : SubscriptionStore) : Type 0 where
  pub indexed_as : (id : SubscriptionId) → Dict.get id store.indexed ≡ indexes (Dict.get id items)
  pub places_as :
      (t : Text) (id : SubscriptionId)
      → places id (list_at (Dict.get t store.by_table)) ≡ one_of (is_in_table t) (Dict.get id items)
  pub counts_as :
      (key : IndexKey)
      → count_at (Dict.get key store.active_target_counts) ≡ count (is_active_at key) items
  pub sources_as :
      (key : IndexKey) (t : Text)
      → has_text t (list_at (Dict.get key store.source_tables)) ≡ true
      → 1 ≤ count (λ sub. is_source key t sub) items

-- How an index key counts at a key.
abbrev pub hit : Option IndexKey → IndexKey → ℕ
hit none k = 0
hit (some key) k = if key == k then 1 else 0

pub hit-index_of :
    (sub : Subscription) (k : IndexKey) → hit (index_of sub).1 k ≡ one (is_active_at k sub)
hit-index_of sub k = ground arith

-- Whether a leg indexed under a key and a table is a source of the target from the table.
abbrev pub feeds : Option IndexKey → Text → IndexKey → Text → Bool
feeds none u k t = false
feeds (some key) u k t = key == k && u == t

pub feeds-index_of :
    (sub : Subscription) (k : IndexKey) (t : Text)
    → feeds (index_of sub).1 (table_key sub) k t ≡ is_source k t sub
feeds-index_of sub k t = ground arith
