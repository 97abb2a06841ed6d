-- ===== src/Subscription/Store/Counts.antt =====
-- Counting the entries of a dictionary and the places of an id in a list.
use adn_dmr_peer_server.Prelude.{
  ℕ, ◌+◌, ◌-◌, ◌≡◌, refl, ap, ◌∙◌, Bool, true, false, Option, none, some, List, [], ◌∷◌, ◌++◌,
  if◌then◌else◌, ◌==◌, id_eq, id_beq_iff, inl, inr, Bool-cases, arith,
}
use adn_dmr_peer_server.Prelude.Dict
use adn_dmr_peer_server.Prelude.Dict.{Dict}
use adn_dmr_peer_server.Subscription.{Subscription, SubscriptionId}
use adn_dmr_peer_server.Subscription.Store.{remove_first}

abbrev pub one : Bool → ℕ
one true = 1
one false = 0

abbrev pub one_of : (Subscription → Bool) → Option Subscription → ℕ
one_of p none = 0
one_of p (some sub) = one (p sub)

-- How many held legs satisfy the test.
unfoldable pub count : (Subscription → Bool) → Dict SubscriptionId Subscription → ℕ
count p [] = 0
count p ((id, sub) ∷ d) = one (p sub) + count p d

pub count-pop :
    (p : Subscription → Bool) (id : SubscriptionId) (d : Dict SubscriptionId Subscription)
    → Dict.Distinct d
    → count p (Dict.pop id d) + one_of p (Dict.get id d) ≡ count p d
unfolding count Dict.pop Dict.get
count-pop p id [] h = refl
count-pop p id ((j, sub) ∷ d) (fresh, h) = elim (Bool-cases (j == id)) [
  | inl same ↦
      let e = (id_beq_iff j id).0 same in
      rw same (ap (λ t. count p t + one (p sub)) (Dict.pop-missing id d (rw e at fresh)) ∙ swap)
  | inr other ↦ rw other (omega (arith, count-pop p id d h))
]
  where
    swap : count p d + one (p sub) ≡ one (p sub) + count p d
    swap = omega arith

pub count-put :
    (p : Subscription → Bool) (id : SubscriptionId) (sub : Subscription)
    (d : Dict SubscriptionId Subscription)
    → Dict.Distinct d
    → count p (Dict.put id sub d) + one_of p (Dict.get id d) ≡ count p d + one (p sub)
unfolding count Dict.put Dict.get
count-put p id sub [] h = omega arith
count-put p id sub ((j, old) ∷ d) (fresh, h) = elim (Bool-cases (j == id)) [
  | inl same ↦ rw same (omega arith)
  | inr other ↦ rw other (omega (arith, count-put p id sub d h))
]

-- How often an id stands in a list.
unfoldable pub places : SubscriptionId → List SubscriptionId → ℕ
places id [] = 0
places id (j ∷ ids) = one (j == id) + places id ids

pub places_single : (id j : SubscriptionId) → places j (id ∷ []) ≡ one (id == j)
unfolding places
places_single id j = omega arith

pub places-append :
    (id : SubscriptionId) (xs ys : List SubscriptionId)
    → places id (xs ++ ys) ≡ places id xs + places id ys
unfolding places
places-append id [] ys = omega arith
places-append id (x ∷ xs) ys = omega (arith, places-append id xs ys)

pub places-remove_first :
    (id j : SubscriptionId) (ids : List SubscriptionId)
    → places j (remove_first id ids) ≡ places j ids - (if id == j then 1 else 0)
unfolding places remove_first
places-remove_first id j [] = ground arith
places-remove_first id j (k ∷ ids) =
    ground (arith, places-remove_first id j ids, id_beq_iff k id, id_beq_iff k j, id_beq_iff id j)
