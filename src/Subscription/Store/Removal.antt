-- ===== src/Subscription/Store/Removal.antt =====
-- `remove` of src/adn_server/infrastructure/subscription_store.py keeps the store sound.
use mathlib.Core.Path.{subst, subst⁻¹}
use adn_dmr_peer_server.Prelude.{
  ◌≡◌, refl, ap, sym, ◌∙◌, Option, none, some, List, String, if◌then◌else◌, ◌==◌, string_eq, id_eq,
  id_beq_iff, eq_iff, inl, inr, Option-cases, arith,
}
use adn_dmr_peer_server.Prelude.Dict
use adn_dmr_peer_server.Prelude.Dict.{Dict, list_at, set_or_delete}
use adn_dmr_peer_server.Subscription.{Subscription, SubscriptionId, subscription_id}
use adn_dmr_peer_server.Subscription.Store.{
  without_system_at, SubscriptionStore, remove_first, unindex, unindex_old, without_system, remove,
  revised,
}
use adn_dmr_peer_server.Subscription.Store.Counts.{one_of, places, places-remove_first}
use adn_dmr_peer_server.Subscription.Store.Agrees.{Agrees, Items}
use adn_dmr_peer_server.Subscription.Store.Sound.{
  IsSound, is_of, unindexed-items, unindex_old-Agrees, revised-Agrees,
}

get-without_system :
    (id : SubscriptionId) (old : Subscription) (store : SubscriptionStore) (name : String)
    → list_at (Dict.get name (without_system id old store).by_system) ≡ (
        if old.system == name
        then remove_first id (list_at (Dict.get name store.by_system))
        else list_at (Dict.get name store.by_system))
unfolding remove_first
get-without_system id old store name = go (Dict.get old.system store.by_system) refl
  where
    go :
        (o : Option (List SubscriptionId))
        → Dict.get old.system store.by_system ≡ o
        → list_at (Dict.get name (without_system_at id old.system o store.by_system)) ≡ (
            if old.system == name
            then remove_first id (list_at (Dict.get name store.by_system))
            else list_at (Dict.get name store.by_system))
    go none e = ground (arith, e, eq_iff old.system name)
    go (some ids) e =
        Dict.get-set_or_delete old.system name (remove_first id ids) store.by_system
        ∙ ground (arith, e, eq_iff old.system name)

keyed-pop :
    (id j : SubscriptionId) (s : Subscription) (items : Items)
    → ((i : SubscriptionId) (t : Subscription) → Dict.get i items ≡ some t → subscription_id t ≡ i)
    → Dict.get j (Dict.pop id items) ≡ some s
    → subscription_id s ≡ j
keyed-pop id j s items k e = ground (arith, k j s, Dict.get-pop id j items)

module _ (id : SubscriptionId) (old : Subscription) (store : SubscriptionStore) where
  -- The store before its indexes are changed.
  abbrev popped : SubscriptionStore
  popped = without_system id old (record store { items = Dict.pop id store.items })

  popped-Agrees :
      Dict.get id store.items ≡ some old
      → IsSound store
      → Agrees (Dict.pop id store.items) (unindex id popped)
  popped-Agrees e v =
      subst (λ o. Agrees (Dict.pop id store.items) (unindex_old o id popped)) e
        (unindex_old-Agrees store.items popped id v.distinct (record {
          indexed_as = v.agrees.indexed_as;
          places_as = v.agrees.places_as;
          counts_as = v.agrees.counts_as;
          sources_as = v.agrees.sources_as;
        }))

  systems-pop :
      Dict.get id store.items ≡ some old
      → IsSound store
      → (name : String) (j : SubscriptionId)
      → places j (list_at (Dict.get name popped.by_system))
        ≡ one_of (is_of name) (Dict.get j (Dict.pop id store.items))
  systems-pop e v name j = ground (
    arith,
    get-without_system id old (record store { items = Dict.pop id store.items }) name,
    places-remove_first id j (list_at (Dict.get name store.by_system)),
    v.systems_as name j,
    Dict.get-pop id j store.items,
    id_beq_iff id j,
    eq_iff old.system name,
    e,
  )

  unindexed-IsSound :
      Dict.get id store.items ≡ some old → IsSound store → IsSound (revised (unindex id popped))
  unfolding unindex
  unindexed-IsSound e v =
      let fields = unindexed-items id popped (Dict.get id store.indexed) in
      record {
        distinct =
            subst⁻¹ (λ (d : Items). Dict.Distinct d) fields.0
              (Dict.pop-Distinct id store.items v.distinct);
        keyed =
            subst⁻¹
              (λ (d : Items).
                (j : SubscriptionId) (s : Subscription)
                → Dict.get j d ≡ some s
                → subscription_id s ≡ j)
              fields.0 (λ j s. keyed-pop id j s store.items v.keyed);
        agrees =
            subst⁻¹ (λ (d : Items). Agrees d (revised (unindex id popped))) fields.0
              (revised-Agrees _ _ (popped-Agrees e v));
        systems_as = λ name j.
            ap (λ (d : Dict String (List SubscriptionId)). places j (list_at (Dict.get name d)))
              fields.1
            ∙ systems-pop e v name j
            ∙ ap (λ (d : Items). one_of (is_of name) (Dict.get j d)) (sym fields.0);
      }

  removed-IsSound :
      Dict.get id store.items ≡ some old
      → IsSound store
      → IsSound (revised (unindex (subscription_id old) popped))
  removed-IsSound e v =
      subst⁻¹ (λ i. IsSound (revised (unindex i popped))) (v.keyed id old e) (unindexed-IsSound e v)

-- `remove` keeps the store sound.
pub remove-IsSound :
    (id : SubscriptionId) (store : SubscriptionStore) → IsSound store → IsSound (remove id store).1
unfolding remove
remove-IsSound id store v = elim (Option-cases (Dict.get id store.items)) [
  | inl e ↦ rw e v
  | inr (old, e) ↦ rw e (removed-IsSound id old store e v)
]
