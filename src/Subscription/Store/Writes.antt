-- ===== src/Subscription/Store/Writes.antt =====
-- `upsert` of src/adn_server/infrastructure/subscription_store.py keeps the store sound.
use mathlib.Core.Path.{subst⁻¹}
use adn_dmr_peer_server.Prelude.{
  ◌≤◌, ◌≡◌, refl, ap, sym, ◌∙◌, Bool, true, false, none, some, List, [], ◌∷◌, String, any,
  if◌then◌else◌, ◌==◌, string_eq, id_eq, id_beq_iff, eq_iff, inl, inr, Option-cases, arith,
}
use adn_dmr_peer_server.Prelude.Dict
use adn_dmr_peer_server.Prelude.Dict.{Dict, list_at}
use adn_dmr_peer_server.Subscription.{Subscription, SubscriptionId, subscription_id}
use adn_dmr_peer_server.Subscription.Store.{
  SubscriptionStore, with_id, index, index_of, unindex, held, unindex_old, upsert, remove,
}
use adn_dmr_peer_server.Subscription.Store.Counts.{
  one_of, count, count-pop, count-put, places, places-append, places_single,
}
use adn_dmr_peer_server.Subscription.Store.Agrees.{Items, Agrees}
use adn_dmr_peer_server.Subscription.Store.Indexed.{index-Agrees}
use adn_dmr_peer_server.Subscription.Store.Sound.{
  index_active-items, unindexed-items, unindex_old-items, Agrees-same, unindex_old-Agrees, is_of,
  IsSound, held-Agrees, revised-Agrees,
}

-- `upsert` writes the leg under its id.
pub items-upsert :
    (sub : Subscription) (store : SubscriptionStore)
    → (upsert sub store).items ≡ Dict.put (subscription_id sub) sub store.items
unfolding upsert index
items-upsert sub store =
    let id = subscription_id sub in
    (index_active-items (index_of sub).0 (index_of sub).1 _).0
    ∙ ap (Dict.put id sub) (unindex_old-items (Dict.get id store.items) id store).0

by_system-upsert :
    (sub : Subscription) (store : SubscriptionStore)
    → (upsert sub store).by_system
      ≡ Dict.put sub.system
          (with_id (subscription_id sub) (list_at (Dict.get sub.system store.by_system)))
          store.by_system
unfolding upsert index
by_system-upsert sub store =
    let id = subscription_id sub in
    (index_active-items (index_of sub).0 (index_of sub).1 _).1
    ∙ ap
        (λ (d : Dict String (List SubscriptionId)).
          Dict.put sub.system (with_id id (list_at (Dict.get sub.system d))) d)
        (unindex_old-items (Dict.get id store.items) id store).1

pub items-remove :
    (id : SubscriptionId) (store : SubscriptionStore)
    → (remove id store).1.items ≡ Dict.pop id store.items
unfolding remove unindex
items-remove id store = elim (Option-cases (Dict.get id store.items)) [
  | inl e ↦ rw e (sym (Dict.pop-missing id store.items e))
  | inr (old, e) ↦ rw e (unindexed-items (subscription_id old) _ _).0
]

get-put-pop :
    (id j : SubscriptionId) (sub : Subscription) (items : Items)
    → Dict.get j (Dict.put id sub (Dict.pop id items)) ≡ Dict.get j (Dict.put id sub items)
get-put-pop id j sub items = ground (
  arith,
  Dict.get-put id j sub (Dict.pop id items),
  Dict.get-pop id j items,
  Dict.get-put id j sub items,
)

pub get-pop_self : (id : SubscriptionId) (items : Items) → Dict.get id (Dict.pop id items) ≡ none
get-pop_self id items = ground (arith, Dict.get-pop id id items, id_beq_iff id id)

pub count-put-pop :
    (p : Subscription → Bool) (id : SubscriptionId) (sub : Subscription) (items : Items)
    → Dict.Distinct items
    → count p (Dict.put id sub (Dict.pop id items)) ≡ count p (Dict.put id sub items)
count-put-pop p id sub items h = omega (
  arith,
  count-put p id sub (Dict.pop id items) (Dict.pop-Distinct id items h),
  ap (one_of p) (get-pop_self id items),
  count-pop p id items h,
  count-put p id sub items h,
)

upsert-Agrees :
    (sub : Subscription) (store : SubscriptionStore)
    → IsSound store
    → Agrees (Dict.put (subscription_id sub) sub store.items) (upsert sub store)
unfolding upsert
upsert-Agrees sub store v =
    let id = subscription_id sub in
    let before = unindex_old (Dict.get id store.items) id store in
    revised-Agrees _ _ (
      Agrees-same (Dict.put id sub (Dict.pop id store.items)) (Dict.put id sub store.items)
        (index sub (held sub before)) (λ j. get-put-pop id j sub store.items)
        (λ p. count-put-pop p id sub store.items v.distinct)
        (index-Agrees (Dict.pop id store.items) (held sub before) sub (get-pop_self id store.items)
          (Dict.pop-Distinct id store.items v.distinct)
          (held-Agrees (Dict.pop id store.items) sub before
            (unindex_old-Agrees store.items store id v.distinct v.agrees))))

pub put-keyed :
    (sub : Subscription) (items : Items)
    → ((id : SubscriptionId) (s : Subscription)
        → Dict.get id items ≡ some s
        → subscription_id s ≡ id)
    → (id : SubscriptionId) (s : Subscription)
    → Dict.get id (Dict.put (subscription_id sub) sub items) ≡ some s
    → subscription_id s ≡ id
put-keyed sub items k id s e = ground (
  arith,
  k id s,
  Dict.get-put (subscription_id sub) id sub items,
  id_beq_iff (subscription_id sub) id,
)

pub places-any :
    (id : SubscriptionId) (ids : List SubscriptionId)
    → any (λ j. j == id) ids ≡ false
    → places id ids ≡ 0
unfolding places
places-any id [] h = refl
places-any id (j ∷ ids) h = ground (arith, places-any id ids)

pub places-any-true :
    (id : SubscriptionId) (ids : List SubscriptionId)
    → any (λ j. j == id) ids ≡ true
    → 1 ≤ places id ids
unfolding places
places-any-true id [] h = cc
places-any-true id (j ∷ ids) h = ground (arith, places-any-true id ids)

pub places-with_id :
    (id j : SubscriptionId) (ids : List SubscriptionId)
    → places j (with_id id ids)
      ≡ (if id == j then (if any (λ k. k == id) ids then places j ids else 1) else places j ids)
places-with_id id j ids =
    ground
      (arith, places-any id ids, places-append j ids (id ∷ []), places_single id j, id_beq_iff id j)

pub same_system :
    (sub old : Subscription) (store : SubscriptionStore) (id : SubscriptionId)
    → IsSound store
    → Dict.get id store.items ≡ some old
    → subscription_id sub ≡ id
    → old.system ≡ sub.system
same_system sub old store id v e h = ap (λ (i : SubscriptionId). i.2) (v.keyed id old e ∙ sym h)

systems-put :
    (sub : Subscription) (store : SubscriptionStore) (name : String) (id : SubscriptionId)
    → IsSound store
    → places id (
        list_at (
          Dict.get name (
            Dict.put sub.system
              (with_id (subscription_id sub) (list_at (Dict.get sub.system store.by_system)))
              store.by_system)))
      ≡ one_of (is_of name) (Dict.get id (Dict.put (subscription_id sub) sub store.items))
systems-put sub store name id v =
    let key = subscription_id sub in
    let ids = list_at (Dict.get sub.system store.by_system) in
    let written = Dict.get-put sub.system name (with_id key ids) store.by_system in
    let item = Dict.get-put key id sub store.items in
    elim (Option-cases (Dict.get id store.items)) [
      | inl e ↦ ground (
        arith,
        written,
        item,
        e,
        places-with_id key id ids,
        places-any-true key ids,
        v.systems_as sub.system id,
        v.systems_as name id,
        id_beq_iff key id,
        eq_iff sub.system name,
      )
      | inr (old, e) ↦ ground (
        arith,
        written,
        item,
        e,
        places-with_id key id ids,
        places-any-true key ids,
        v.systems_as sub.system id,
        v.systems_as name id,
        id_beq_iff key id,
        eq_iff sub.system name,
        eq_iff old.system name,
        eq_iff old.system sub.system,
        same_system sub old store id v e,
      )
    ]

pub upsert-IsSound :
    (sub : Subscription) (store : SubscriptionStore) → IsSound store → IsSound (upsert sub store)
upsert-IsSound sub store v =
    let items = items-upsert sub store in
    record {
      distinct =
          subst⁻¹ (λ (d : Items). Dict.Distinct d) items
            (Dict.put-Distinct (subscription_id sub) sub store.items v.distinct);
      keyed =
          subst⁻¹
            (λ (d : Items).
              (id : SubscriptionId) (s : Subscription)
              → Dict.get id d ≡ some s
              → subscription_id s ≡ id)
            items (put-keyed sub store.items v.keyed);
      agrees = subst⁻¹ (λ d. Agrees d (upsert sub store)) items (upsert-Agrees sub store v);
      systems_as = λ name id.
          ap (λ (d : Dict String (List SubscriptionId)). places id (list_at (Dict.get name d)))
            (by_system-upsert sub store)
          ∙ systems-put sub store name id v
          ∙ ap (λ (d : Items). one_of (is_of name) (Dict.get id d)) (sym items);
    }
