-- ===== src/Subscription/Store/Unindexed.antt =====
-- `_unindex` of src/adn_server/infrastructure/subscription_store.py keeps the indexes in agreement.
use mathlib.Core.Path.{subst⁻¹}
use adn_dmr_peer_server.Prelude.{
  ℕ, ◌-◌, ◌≡◌, not, refl, ap, ◌∙◌, ◌&&◌, Option, none, some, List, [], ◌∷◌, if◌then◌else◌, ◌==◌,
  bytes_eq, list_beq_iff, string_eq, id_eq, id_beq_iff, leg_eq, leg_beq_iff, arith,
}
use adn_dmr_peer_server.Prelude.Dict
use adn_dmr_peer_server.Prelude.Dict.{Dict, list_at, set_or_delete}
use adn_dmr_peer_server.Subscription.{Subscription, SubscriptionId, Text, table_key}
use adn_dmr_peer_server.Subscription.Store.{
  IndexKey, SubscriptionStore, index_of, count_at, remove_first, unindex_table, unindex_count,
  unindexed, unindex_source, discard,
}
use adn_dmr_peer_server.Subscription.Store.Counts.{one_of, count-pop, places-remove_first}
use adn_dmr_peer_server.Subscription.Store.Agrees.{
  Items, indexes, is_active_at, is_source, has_text, Agrees, hit, hit-index_of, feeds,
  feeds-index_of,
}

get-unindex_table :
    (id : SubscriptionId) (t u : Text) (by_table : Dict Text (List SubscriptionId))
    → list_at (Dict.get u (unindex_table id t (Dict.get t by_table) by_table)) ≡ (
        if t == u
        then remove_first id (list_at (Dict.get u by_table))
        else list_at (Dict.get u by_table))
unfolding remove_first
get-unindex_table id t u by_table = go (Dict.get t by_table) refl
  where
    go :
        (legs : Option (List SubscriptionId))
        → Dict.get t by_table ≡ legs
        → list_at (Dict.get u (unindex_table id t legs by_table)) ≡ (
            if t == u
            then remove_first id (list_at (Dict.get u by_table))
            else list_at (Dict.get u by_table))
    go none e = ground (arith, e, list_beq_iff t u)
    go (some []) e = ground (arith, e, list_beq_iff t u)
    go (some (j ∷ ids)) e =
        Dict.get-set_or_delete t u (remove_first id (j ∷ ids)) by_table
        ∙ ground (arith, e, list_beq_iff t u)

get-unindex_count :
    (key k : IndexKey) (counts : Dict IndexKey ℕ)
    → count_at (Dict.get k (unindex_count key (count_at (Dict.get key counts)) counts))
      ≡ count_at (Dict.get k counts) - (if key == k then 1 else 0)
get-unindex_count key k counts = ground (
  arith,
  Dict.get-pop key k counts,
  Dict.get-put key k (count_at (Dict.get key counts) - 1) counts,
  leg_beq_iff key k,
)

has_text-discard :
    (u t : Text) (ts : List Text) → has_text t (discard u ts) ≡ (has_text t ts && not (u == t))
unfolding discard
has_text-discard u t [] = refl
has_text-discard u t (v ∷ ts) =
    ground (arith, has_text-discard u t ts, list_beq_iff v u, list_beq_iff v t, list_beq_iff u t)

get-unindex_source :
    (u : Text) (key k : IndexKey) (tables : Dict IndexKey (List Text))
    → list_at (Dict.get k (unindex_source u key (Dict.get key tables) tables))
      ≡ (if key == k then discard u (list_at (Dict.get k tables)) else list_at (Dict.get k tables))
unfolding discard
get-unindex_source u key k tables = go (Dict.get key tables) refl
  where
    go :
        (o : Option (List Text))
        → Dict.get key tables ≡ o
        → list_at (Dict.get k (unindex_source u key o tables)) ≡ (
            if key == k
            then discard u (list_at (Dict.get k tables))
            else list_at (Dict.get k tables))
    go none e = ground (arith, e, leg_beq_iff key k)
    go (some ts) e =
        Dict.get-set_or_delete key k (discard u ts) tables ∙ ground (arith, e, leg_beq_iff key k)

module _ (id : SubscriptionId) (t : Text) (store : SubscriptionStore) where
  pub has_text-unindexed :
      (key : Option IndexKey) (k : IndexKey) (u : Text)
      → has_text u (list_at (Dict.get k (unindexed id store (some (t, key))).source_tables))
        ≡ (has_text u (list_at (Dict.get k store.source_tables)) && not (feeds key t k u))
  has_text-unindexed none k u = ground arith
  has_text-unindexed (some key) k u =
      ap (has_text u) (get-unindex_source t key k store.source_tables)
      ∙ ground (arith, has_text-discard t u (list_at (Dict.get k store.source_tables)))

  get-unindexed_indexed :
      (key : Option IndexKey) (j : SubscriptionId)
      → Dict.get j (unindexed id store (some (t, key))).indexed
        ≡ (if id == j then none else Dict.get j store.indexed)
  get-unindexed_indexed none j = Dict.get-pop id j store.indexed
  get-unindexed_indexed (some key) j = Dict.get-pop id j store.indexed

  get-unindexed_by_table :
      (key : Option IndexKey) (u : Text)
      → list_at (Dict.get u (unindexed id store (some (t, key))).by_table) ≡ (
          if t == u
          then remove_first id (list_at (Dict.get u store.by_table))
          else list_at (Dict.get u store.by_table))
  get-unindexed_by_table none u = get-unindex_table id t u store.by_table
  get-unindexed_by_table (some key) u = get-unindex_table id t u store.by_table

  get-unindexed_counts :
      (key : Option IndexKey) (k : IndexKey)
      → count_at (Dict.get k (unindexed id store (some (t, key))).active_target_counts)
        ≡ count_at (Dict.get k store.active_target_counts) - hit key k
  get-unindexed_counts none k = omega arith
  get-unindexed_counts (some key) k = get-unindex_count key k store.active_target_counts

-- What is left after a leg is taken out of the indexes, for the legs without it.
pub unindexed-Agrees :
    (items : Items) (store : SubscriptionStore) (id : SubscriptionId) (old : Option Subscription)
    → Dict.get id items ≡ old
    → Dict.Distinct items
    → Agrees items store
    → Agrees (Dict.pop id items) (unindexed id store (indexes old))
unindexed-Agrees items store id none e h a =
    subst⁻¹ (λ d. Agrees d store) (Dict.pop-missing id items e) a
unindexed-Agrees items store id (some old) e h a = record {
  indexed_as = λ j. ground (
    arith,
    get-unindexed_indexed id (table_key old) store (index_of old).1 j,
    a.indexed_as j,
    Dict.get-pop id j items,
  );
  places_as = λ t j. ground (
    arith,
    get-unindexed_by_table id (table_key old) store (index_of old).1 t,
    places-remove_first id j (list_at (Dict.get t store.by_table)),
    a.places_as t j,
    Dict.get-pop id j items,
    id_beq_iff id j,
    e,
  );
  counts_as = λ k. omega (
    arith,
    get-unindexed_counts id (table_key old) store (index_of old).1 k,
    hit-index_of old k,
    a.counts_as k,
    count-pop (is_active_at k) id items h,
    ap (one_of (is_active_at k)) e,
  );
  sources_as = λ k t h'. ground (
    arith,
    h',
    has_text-unindexed id (table_key old) store (index_of old).1 k t,
    feeds-index_of old k t,
    a.sources_as k t,
    count-pop (is_source k t) id items h,
    ap (one_of (is_source k t)) e,
  );
}
