-- ===== src/Subscription/ObpSource/Sources.antt =====
-- What a write of a leg does to the sources and the counts of the store of
-- src/adn_server/infrastructure/subscription_store.py.
use adn_dmr_peer_server.Prelude.{
  ℕ, ◌+◌, ◌≤◌, ◌≡◌, refl, ap, ◌∙◌, Bool, true, false, ◌||◌, none, List, [], ◌∷◌, ltb, ◌==◌, nat_eq,
  bytes_eq, list_beq_iff, string_eq, id_eq, leg_eq, leg_beq_iff, map, arith,
}
use adn_dmr_peer_server.Prelude.Dict
use adn_dmr_peer_server.Prelude.Dict.{list_at}
use adn_dmr_peer_server.Prelude.Decimal.{str}
use adn_dmr_peer_server.Subscription.{
  Subscription, Text, is_active, table_key, subscription_id, str_text, is_reflector,
}
use adn_dmr_peer_server.Subscription.Store.{
  SubscriptionStore, upsert, index_of, index_key, index, held, unindex_old,
}
use adn_dmr_peer_server.Subscription.Store.Counts.{one, one_of, count, count-put}
use adn_dmr_peer_server.Subscription.Store.Agrees.{Items, is_in_table, has_text, feeds-index_of}
use adn_dmr_peer_server.Subscription.Store.Indexed.{has_text-index}
use adn_dmr_peer_server.Subscription.Store.Writes.{items-upsert}
use adn_dmr_peer_server.Subscription.Store.Sound.{IsSound}
use adn_dmr_peer_server.Subscription.Store.Reads.{
  snapshot, values, has_table, any-values, reads-scan,
}
use adn_dmr_peer_server.Subscription.Router.{sorted, insert_text}
use adn_dmr_peer_server.Subscription.ObpSource.{first_of}

pub has_text-insert_text :
    (t u : Text) (us : List Text) → has_text t (insert_text u us) ≡ (u == t || has_text t us)
unfolding insert_text
has_text-insert_text t u [] = refl
has_text-insert_text t u (v ∷ us) = ground (arith, has_text-insert_text t u us)

pub has_text-sorted : (t : Text) (ts : List Text) → has_text t (sorted ts) ≡ has_text t ts
unfolding sorted
has_text-sorted t [] = refl
has_text-sorted t (u ∷ ts) =
    has_text-insert_text t u (sorted ts) ∙ ap (λ b. u == t || b) (has_text-sorted t ts)

-- An active leg that is written is a source of its target from its table.
pub source-upsert :
    (sub : Subscription) (store : SubscriptionStore)
    → is_active sub ≡ true
    → has_text (table_key sub) (list_at (Dict.get (index_key sub) (upsert sub store).source_tables))
      ≡ true
unfolding upsert index
source-upsert sub store a =
    let k = index_key sub in
    let before =
      held sub
        (unindex_old (Dict.get (subscription_id sub) store.items) (subscription_id sub) store) in
    has_text-index sub (table_key sub) before (index_of sub).1 k (table_key sub)
    ∙ ground (
      arith,
      a,
      feeds-index_of sub k (table_key sub),
      leg_beq_iff k k,
      list_beq_iff (table_key sub) (table_key sub),
    )

-- A leg whose id is new changes how many legs pass a test by itself alone.
pub count-upsert :
    (p : Subscription → Bool) (sub : Subscription) (store : SubscriptionStore)
    → IsSound store
    → count p (upsert sub store).items + one_of p (Dict.get (subscription_id sub) store.items)
      ≡ count p store.items + one (p sub)
count-upsert p sub store v =
    rw (items-upsert sub store) (count-put p (subscription_id sub) sub store.items v.distinct)

pub has_table-count :
    (t : Text) (store : SubscriptionStore)
    → IsSound store
    → has_table t store ≡ ltb 0 (count (is_in_table t) store.items)
unfolding snapshot
has_table-count t store v = (reads-scan store v).0 t ∙ any-values (is_in_table t) store.items

-- The key of a talkgroup's own table is no reflector's.
pub is_reflector-str_text : (n : ℕ) → is_reflector (str_text n) ≡ false
unfolding str_text
is_reflector-str_text n = go (str n)
  where
    go : (ds : List ℕ) → is_reflector (map (λ d. 48 + d) ds) ≡ false
    go [] = refl
    go (d ∷ ds) = ground arith

pub first_of-none :
    (p : Subscription → Bool) (items : Items) → count p items ≡ 0 → first_of p (values items) ≡ none
unfolding first_of values count
first_of-none p [] h = refl
first_of-none p ((id, sub) ∷ d) h = ground (arith, h, first_of-none p d)

-- A test that passes wherever another does counts no fewer.
pub count_mono :
    (p q : Subscription → Bool) (items : Items)
    → ((s : Subscription) → one (p s) ≤ one (q s))
    → count p items ≤ count q items
unfolding count
count_mono p q [] f = omega arith
count_mono p q ((id, sub) ∷ d) f = omega (arith, f sub, count_mono p q d f)
