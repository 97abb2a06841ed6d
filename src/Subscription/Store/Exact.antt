-- ===== src/Subscription/Store/Exact.antt =====
-- When the sources in the store of src/adn_server/infrastructure/subscription_store.py lack none.
pub mod Writes
use mathlib.Core.Path.{subst}
use adn_dmr_peer_server.Prelude.{
  ℕ, ◌+◌, ◌≡◌, ◌⊎◌, refl, ap, sym, ◌∙◌, Bool, true, false, not, ◌&&◌, ◌||◌, Option, none, some,
  List, [], ◌∷◌, All, ◌==◌, nat_eq, string_eq, bytes_eq, id_eq, leg_eq, id_beq_iff, leg_beq_iff,
  list_beq_iff, inl, inr, Option-cases, Bool-cases, arith,
}
use adn_dmr_peer_server.Prelude.Dict
use adn_dmr_peer_server.Prelude.Dict.{list_at}
use adn_dmr_peer_server.Subscription.{
  Subscription, SubscriptionId, Text, subscription_id, is_active, table_key,
}
use adn_dmr_peer_server.Subscription.Store.{
  IndexKey, SubscriptionStore, index_key, index_of, index, unindex, unindexed, without_system, held,
  unindex_old, upsert, remove, revised, empty_store, clear, hold_all, replace_all,
}
use adn_dmr_peer_server.Subscription.Store.Agrees.{
  Items, has_text, is_source, feeds-index_of, indexes,
}
use adn_dmr_peer_server.Subscription.Store.Unindexed.{has_text-unindexed}
use adn_dmr_peer_server.Subscription.Store.Indexed.{has_text-index}
use adn_dmr_peer_server.Subscription.Store.Sound.{IsSound}
use adn_dmr_peer_server.Subscription.Store.Writes.{items-upsert, items-remove, upsert-IsSound}
use adn_dmr_peer_server.Subscription.Store.Removal.{remove-IsSound}
use adn_dmr_peer_server.Subscription.Store.History.{
  Write, upserts, removes, clears, replaces, write, write-IsSound, all_distinct, is_keyed, AreNew,
  get-hold, hold-IsSound, empty-IsSound,
}

-- The leg's target is the talkgroup of its channel.
abbrev pub IsDirect : Subscription → Type 0
IsDirect sub = sub.target_tgid ≡ sub.channel.tgid

-- Whether the table is named as a source of the target.
abbrev pub names : IndexKey → Text → SubscriptionStore → Bool
names k t store = has_text t (list_at (Dict.get k store.source_tables))

-- The store is sound, its legs are direct, and the table of each active leg is named as a source of
-- the leg's target.
pub record IsExact (store : SubscriptionStore) : Type 0 where
  pub sound : IsSound store
  pub direct :
      (id : SubscriptionId) (sub : Subscription) → Dict.get id store.items ≡ some sub → IsDirect sub
  pub named :
      (id : SubscriptionId) (sub : Subscription)
      → Dict.get id store.items ≡ some sub
      → is_active sub ≡ true
      → names (index_key sub) (table_key sub) store ≡ true

-- Whether a leg that is taken out of the index takes the table with it.
abbrev pub takes : Option Subscription → IndexKey → Text → Bool
takes none k t = false
takes (some old) k t = is_source k t old

pub names-unindex_old :
    (id : SubscriptionId) (k : IndexKey) (t : Text) (store : SubscriptionStore)
    → IsSound store
    → names k t (unindex_old (Dict.get id store.items) id store)
      ≡ (names k t store && not (takes (Dict.get id store.items) k t))
unfolding unindex
names-unindex_old id k t store v = by_old (Dict.get id store.items) refl
  where
    by_old :
        (o : Option Subscription)
        → Dict.get id store.items ≡ o
        → names k t (unindex_old o id store) ≡ (names k t store && not (takes o k t))
    by_old none e = ground arith
    by_old (some old) e =
        ap (λ i. names k t (unindexed id store i)) (v.agrees.indexed_as id ∙ ap indexes e)
        ∙ has_text-unindexed id (table_key old) store (index_of old).1 k t
        ∙ ap (λ b. names k t store && not b) (feeds-index_of old k t)

pub names-upsert :
    (sub : Subscription) (k : IndexKey) (t : Text) (store : SubscriptionStore)
    → IsSound store
    → names k t (upsert sub store) ≡ (
        (names k t store && not (takes (Dict.get (subscription_id sub) store.items) k t))
        || is_source k t sub)
unfolding upsert index
names-upsert sub k t store v =
    let id = subscription_id sub in
    let before = held sub (unindex_old (Dict.get id store.items) id store) in
    has_text-index sub (table_key sub) before (index_of sub).1 k t
    ∙ ground (arith, names-unindex_old id k t store v, feeds-index_of sub k t)

-- Direct legs with different ids are sources of different targets.
other_source :
    (s old : Subscription) (t : Text)
    → IsDirect s
    → IsDirect old
    → (subscription_id old == subscription_id s) ≡ false
    → is_source (index_key s) t old ≡ false
other_source s old t d e apart = ground (
  arith,
  d,
  e,
  apart,
  leg_beq_iff (index_key old) (index_key s),
  id_beq_iff (subscription_id old) (subscription_id s),
)

pub untaken :
    (o : Option Subscription) (s : Subscription) (id : SubscriptionId) (t : Text)
    → ((old : Subscription) → o ≡ some old → IsDirect old × (subscription_id old ≡ id))
    → IsDirect s
    → (id == subscription_id s) ≡ false
    → takes o (index_key s) t ≡ false
untaken none s id t f d apart = refl
untaken (some old) s id t f d apart =
    let (e, same) = f old refl in
    other_source s old t d e (ap (λ i. i == subscription_id s) same ∙ apart)
