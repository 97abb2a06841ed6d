-- ===== src/Subscription/Store/Lookup.antt =====
-- What the lists of ids in src/adn_server/infrastructure/subscription_store.py stand for.
use adn_dmr_peer_server.Prelude.{
  ◌≤◌, ◌≡◌, ap, sym, ◌∙◌, Bool, true, ◌&&◌, some, List, [], ◌∷◌, String, any, All, ◌==◌, nat_eq,
  bytes_eq, string_eq, id_eq, id_beq_iff, leg_eq, inl, inr, Bool-cases, Option-cases, arith, none,
  is_some, ltb,
}
use adn_dmr_peer_server.Prelude.Dict
use adn_dmr_peer_server.Prelude.Dict.{list_at}
use adn_dmr_peer_server.Subscription.{Subscription, SubscriptionId, subscription_id}
use adn_dmr_peer_server.Subscription.Store.{SubscriptionStore}
use adn_dmr_peer_server.Subscription.Store.Counts.{count, places, one_of}
use adn_dmr_peer_server.Subscription.Store.Agrees.{Items}
use adn_dmr_peer_server.Subscription.Store.Sound.{IsSound, is_of}
use adn_dmr_peer_server.Subscription.Store.Reads.{looked_up, list_by_system}

-- A counted leg is held.
pub counted-held :
    (p : Subscription → Bool) (items : Items)
    → Dict.Distinct items
    → 1 ≤ count p items
    → (id : SubscriptionId) × (sub : Subscription) × (Dict.get id items ≡ some sub) × (p sub ≡ true)
unfolding count Dict.get
counted-held p [] h c = absurd (omega arith)
counted-held p ((j, sub) ∷ d) (fresh, h) c = elim (Bool-cases (p sub)) [
  | inl passes ↦ (j, sub, ground (arith, id_beq_iff j j), passes)
  | inr fails ↦
      let (id, s, e, q) = counted-held p d h (ground (arith, c, fails)) in
      (id, s, ground (arith, e, fresh, id_beq_iff j id), q)
]

pub looked_up-All :
    (P : Subscription → Type 0) (ids : List SubscriptionId) (items : Items)
    → ((id : SubscriptionId) (sub : Subscription)
        → 1 ≤ places id ids
        → Dict.get id items ≡ some sub
        → P sub)
    → All P (looked_up ids items)
unfolding looked_up places
looked_up-All P [] items f = tt
looked_up-All P (j ∷ ids) items f =
    let rest = looked_up-All P ids items (λ id sub h e. f id sub (omega (arith, h)) e) in
    elim (Option-cases (Dict.get j items)) [
      | inl e ↦ rw e rest
      | inr (sub, e) ↦ rw e (f j sub (ground (arith, id_beq_iff j j)) e, rest)
    ]

abbrev pub has_id : SubscriptionId → List Subscription → Bool
has_id id subs = any (λ s. subscription_id s == id) subs

has_id-looked_up :
    (id : SubscriptionId) (ids : List SubscriptionId) (items : Items)
    → ((i : SubscriptionId) (s : Subscription) → Dict.get i items ≡ some s → subscription_id s ≡ i)
    → has_id id (looked_up ids items) ≡ (ltb 0 (places id ids) && is_some (Dict.get id items))
unfolding looked_up places
has_id-looked_up id [] items k = ground arith
has_id-looked_up id (j ∷ ids) items k = elim (Option-cases (Dict.get j items)) [
  | inl missing ↦
      let moved : (j ≡ id → Dict.get id items ≡ none) =
        λ h. sym (ap (λ i. Dict.get i items) h) ∙ missing in
      ground (arith, missing, has_id-looked_up id ids items k, id_beq_iff j id, moved)
  | inr (sub, found) ↦
      let moved : (j ≡ id → Dict.get id items ≡ some sub) =
        λ h. sym (ap (λ i. Dict.get i items) h) ∙ found in
      ground (
        arith,
        found,
        has_id-looked_up id ids items k,
        ap (λ i. i == id) (k j sub found),
        id_beq_iff j id,
        moved,
      )
]

-- A system's legs are the held ones of the system.
pub list_by_system-All :
    (name : String) (store : SubscriptionStore)
    → IsSound store
    → All (λ s. Dict.get (subscription_id s) store.items ≡ some s) (list_by_system name store)
unfolding list_by_system
list_by_system-All name store v =
    looked_up-All (λ s. Dict.get (subscription_id s) store.items ≡ some s)
      (list_at (Dict.get name store.by_system)) store.items (λ id sub h e. rw (v.keyed id sub e) e)

pub has_id-list_by_system :
    (id : SubscriptionId) (name : String) (store : SubscriptionStore)
    → IsSound store
    → has_id id (list_by_system name store) ≡ ltb 0 (one_of (is_of name) (Dict.get id store.items))
unfolding list_by_system
has_id-list_by_system id name store v =
    has_id-looked_up id (list_at (Dict.get name store.by_system)) store.items v.keyed
    ∙ elim (Option-cases (Dict.get id store.items)) [
      | inl missing ↦ ground (arith, missing, v.systems_as name id)
      | inr (sub, found) ↦ ground (arith, found, v.systems_as name id)
    ]
