-- ===== src/Subscription/Store/Indexed.antt =====
-- `_index` of src/adn_server/infrastructure/subscription_store.py keeps the indexes in agreement.
use adn_dmr_peer_server.Prelude.{
  ◌+◌, ◌≡◌, ◌||◌, ap, Bool-cases, inl, inr, Option, none, some, List, [], ◌∷◌, ◌++◌, if◌then◌else◌,
  ◌==◌, bytes_eq, list_beq_iff, string_eq, id_eq, id_beq_iff, leg_eq, leg_beq_iff, arith,
}
use adn_dmr_peer_server.Prelude.Dict
use adn_dmr_peer_server.Prelude.Dict.{Dict, list_at, set_or_delete}
use adn_dmr_peer_server.Subscription.{
  Subscription, SubscriptionId, Text, subscription_id, table_key,
}
use adn_dmr_peer_server.Subscription.Store.{
  IndexKey, SubscriptionStore, index_of, count_at, index, index_active, add_text,
}
use adn_dmr_peer_server.Subscription.Store.Counts.{one_of, count-put, places-append, places_single}
use adn_dmr_peer_server.Subscription.Store.Agrees.{
  Items, is_active_at, is_source, has_text, Agrees, hit, hit-index_of, feeds, feeds-index_of,
}

has_text-add_text :
    (u t : Text) (ts : List Text) → has_text t (add_text u ts) ≡ (u == t || has_text t ts)
unfolding add_text
has_text-add_text u t ts = elim (Bool-cases (u == t)) [
  | inl same ↦ ground (arith, same, ap (λ v. has_text v ts) ((list_beq_iff u t).0 same))
  | inr other ↦ ground (arith, other)
]

-- `_index`, by the key that the leg is indexed under.
module _ (sub : Subscription) (t : Text) (store : SubscriptionStore) where
  abbrev listed : SubscriptionStore
  listed = record store {
    by_table =
        Dict.put t (list_at (Dict.get t store.by_table) ++ subscription_id sub ∷ []) store.by_table;
    indexed = Dict.put (subscription_id sub) (index_of sub) store.indexed;
  }

  get-index_indexed :
      (key : Option IndexKey) (j : SubscriptionId)
      → Dict.get j (index_active t key listed).indexed
        ≡ (if subscription_id sub == j then some (index_of sub) else Dict.get j store.indexed)
  get-index_indexed none j = Dict.get-put _ j _ store.indexed
  get-index_indexed (some key) j = Dict.get-put _ j _ store.indexed

  get-index_by_table :
      (key : Option IndexKey) (u : Text)
      → Dict.get u (index_active t key listed).by_table ≡ (
          if t == u
          then some (list_at (Dict.get t store.by_table) ++ subscription_id sub ∷ [])
          else Dict.get u store.by_table)
  get-index_by_table none u = Dict.get-put t u _ store.by_table
  get-index_by_table (some key) u = Dict.get-put t u _ store.by_table

  get-index_counts :
      (key : Option IndexKey) (k : IndexKey)
      → count_at (Dict.get k (index_active t key listed).active_target_counts)
        ≡ count_at (Dict.get k store.active_target_counts) + hit key k
  get-index_counts none k = omega arith
  get-index_counts (some key) k = ground (
    arith,
    Dict.get-put key k (count_at (Dict.get key store.active_target_counts) + 1)
        store.active_target_counts,
    leg_beq_iff key k,
  )

  pub has_text-index :
      (key : Option IndexKey) (k : IndexKey) (u : Text)
      → has_text u (list_at (Dict.get k (index_active t key listed).source_tables))
        ≡ (has_text u (list_at (Dict.get k store.source_tables)) || feeds key t k u)
  has_text-index none k u = ground arith
  has_text-index (some key) k u = ground (
    arith,
    Dict.get-put key k (add_text t (list_at (Dict.get key store.source_tables)))
        store.source_tables,
    has_text-add_text t u (list_at (Dict.get key store.source_tables)),
    leg_beq_iff key k,
  )

pub index-Agrees :
    (items : Items) (store : SubscriptionStore) (sub : Subscription)
    → Dict.get (subscription_id sub) items ≡ none
    → Dict.Distinct items
    → Agrees items store
    → Agrees (Dict.put (subscription_id sub) sub items) (index sub store)
unfolding index
index-Agrees items store sub e h a = record {
  indexed_as = λ j. ground (
    arith,
    get-index_indexed sub (table_key sub) store (index_of sub).1 j,
    a.indexed_as j,
    Dict.get-put (subscription_id sub) j sub items,
  );
  places_as = λ t j. ground (
    arith,
    get-index_by_table sub (table_key sub) store (index_of sub).1 t,
    places-append j (list_at (Dict.get t store.by_table)) (subscription_id sub ∷ []),
    places_single (subscription_id sub) j,
    a.places_as t j,
    Dict.get-put (subscription_id sub) j sub items,
    id_beq_iff (subscription_id sub) j,
    list_beq_iff (table_key sub) t,
    e,
  );
  counts_as = λ k. omega (
    arith,
    get-index_counts sub (table_key sub) store (index_of sub).1 k,
    hit-index_of sub k,
    a.counts_as k,
    count-put (is_active_at k) (subscription_id sub) sub items h,
    ap (one_of (is_active_at k)) e,
  );
  sources_as = λ k t h'. ground (
    arith,
    h',
    has_text-index sub (table_key sub) store (index_of sub).1 k t,
    feeds-index_of sub k t,
    a.sources_as k t,
    count-put (is_source k t) (subscription_id sub) sub items h,
    ap (one_of (is_source k t)) e,
  );
}
