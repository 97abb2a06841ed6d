-- ===== src/Subscription/Store/Sound.antt =====
-- When the store of src/adn_server/infrastructure/subscription_store.py is sound.
use mathlib.Core.Path.{subst, subst⁻¹}
use adn_dmr_peer_server.Prelude.{
  ◌≤◌, ◌≡◌, refl, ap, ◌∙◌, Bool, Option, none, some, String, ◌==◌, string_eq, id_eq, inl, inr,
  Option-cases,
}
use adn_dmr_peer_server.Prelude.Dict
use adn_dmr_peer_server.Prelude.Dict.{Dict, list_at}
use adn_dmr_peer_server.Subscription.{Subscription, SubscriptionId, Text, subscription_id}
use adn_dmr_peer_server.Subscription.Store.{
  SubscriptionStore, IndexKey, index_active, unindex, unindexed, held, unindex_old, revised,
}
use adn_dmr_peer_server.Subscription.Store.Counts.{one_of, count, places}
use adn_dmr_peer_server.Subscription.Store.Agrees.{Items, Agrees, indexes}
use adn_dmr_peer_server.Subscription.Store.Unindexed.{unindexed-Agrees}

-- What the fields outside the indexes are after an index is written.
pub index_active-items :
    (t : Text) (key : Option IndexKey) (store : SubscriptionStore)
    → ((index_active t key store).items ≡ store.items)
      × ((index_active t key store).by_system ≡ store.by_system)
index_active-items t none store = (refl, refl)
index_active-items t (some key) store = (refl, refl)

pub unindexed-items :
    (id : SubscriptionId) (store : SubscriptionStore) (o : Option (Text × Option IndexKey))
    → ((unindexed id store o).items ≡ store.items)
      × ((unindexed id store o).by_system ≡ store.by_system)
unindexed-items id store none = (refl, refl)
unindexed-items id store (some (t, none)) = (refl, refl)
unindexed-items id store (some (t, some key)) = (refl, refl)

pub unindex_old-items :
    (old : Option Subscription) (id : SubscriptionId) (store : SubscriptionStore)
    → ((unindex_old old id store).items ≡ store.items)
      × ((unindex_old old id store).by_system ≡ store.by_system)
unfolding unindex
unindex_old-items none id store = (refl, refl)
unindex_old-items (some old) id store = unindexed-items id store (Dict.get id store.indexed)

pub Agrees-same :
    (d items : Items) (store : SubscriptionStore)
    → ((id : SubscriptionId) → Dict.get id d ≡ Dict.get id items)
    → ((p : Subscription → Bool) → count p d ≡ count p items)
    → Agrees d store
    → Agrees items store
Agrees-same d items store f g a = record {
  indexed_as = λ id. a.indexed_as id ∙ ap indexes (f id);
  places_as = λ t id. a.places_as t id ∙ ap (one_of _) (f id);
  counts_as = λ key. a.counts_as key ∙ g _;
  sources_as = λ key t h. subst (λ n. 1 ≤ n) (g _) (a.sources_as key t h);
}

pub unindex_old-Agrees :
    (items : Items) (store : SubscriptionStore) (id : SubscriptionId)
    → Dict.Distinct items
    → Agrees items store
    → Agrees (Dict.pop id items) (unindex_old (Dict.get id items) id store)
unfolding unindex
unindex_old-Agrees items store id h a = elim (Option-cases (Dict.get id items)) [
  | inl e ↦ rw e (subst⁻¹ (λ d. Agrees d store) (Dict.pop-missing id items e) a)
  | inr (old, e) ↦ rw e (
      subst⁻¹ (λ o. Agrees (Dict.pop id items) (unindexed id store o))
        (a.indexed_as id ∙ ap indexes e) (unindexed-Agrees items store id (some old) e h a))
]

abbrev pub is_of : String → Subscription → Bool
is_of name sub = sub.system == name

-- Every leg is held under its own id, its indexes agree with it, and it is listed, once, with the
-- legs of its system and with no others.
pub record IsSound (store : SubscriptionStore) : Type 0 where
  pub distinct : Dict.Distinct store.items
  pub keyed :
      (id : SubscriptionId) (sub : Subscription)
      → Dict.get id store.items ≡ some sub
      → subscription_id sub ≡ id
  pub agrees : Agrees store.items store
  pub systems_as :
      (name : String) (id : SubscriptionId)
      → places id (list_at (Dict.get name store.by_system))
        ≡ one_of (is_of name) (Dict.get id store.items)

pub held-Agrees :
    (items : Items) (sub : Subscription) (store : SubscriptionStore)
    → Agrees items store
    → Agrees items (held sub store)
held-Agrees items sub store a = record {
  indexed_as = a.indexed_as;
  places_as = a.places_as;
  counts_as = a.counts_as;
  sources_as = a.sources_as;
}

pub revised-Agrees :
    (items : Items) (store : SubscriptionStore) → Agrees items store → Agrees items (revised store)
revised-Agrees items store a = record {
  indexed_as = a.indexed_as;
  places_as = a.places_as;
  counts_as = a.counts_as;
  sources_as = a.sources_as;
}
