-- ===== src/Subscription/Inband/Updates.antt =====
-- A loop that changes the legs of a system, as in
-- src/adn_server/application/subscription/in_band_signalling_ops.py and subscription_reset_ops.py.
use adn_dmr_peer_server.Prelude.{
  ◌≡◌, refl, ap, sym, ◌∙◌, Bool, false, ◌||◌, Option, none, some, List, [], ◌∷◌, String, All,
  if◌then◌else◌, ◌==◌, string_eq, id_eq, id_beq_iff, inl, inr, Option-cases, arith,
}
use adn_dmr_peer_server.Prelude.Dict
use adn_dmr_peer_server.Subscription.{Subscription, SubscriptionId, subscription_id}
use adn_dmr_peer_server.Subscription.Store.{SubscriptionStore}
use adn_dmr_peer_server.Subscription.Store.Agrees.{Items}
use adn_dmr_peer_server.Subscription.Store.Writes.{items-upsert, upsert-IsSound}
use adn_dmr_peer_server.Subscription.Store.Sound.{IsSound}
use adn_dmr_peer_server.Subscription.Store.Reads.{list_by_system}
use adn_dmr_peer_server.Subscription.Store.Lookup.{
  has_id, list_by_system-All, has_id-list_by_system,
}
use adn_dmr_peer_server.Subscription.Inband.Signal.{update_legs, upserted}

abbrev pub or_same : Subscription → Option Subscription → Subscription
or_same sub none = sub
or_same sub (some next) = next

module _ (f : Subscription → Option Subscription)
    (keeps : (s : Subscription) → subscription_id (or_same s (f s)) ≡ subscription_id s) where
  abbrev updated_of : Option Subscription → Option Subscription
  updated_of none = none
  updated_of (some sub) = some (or_same sub (f sub))

  abbrev Done : Items → (SubscriptionId → Bool) → SubscriptionStore → Type 0
  Done items seen store =
      (id : SubscriptionId)
      → Dict.get id store.items
        ≡ (if seen id then updated_of (Dict.get id items) else Dict.get id items)

  updated_here :
      (items : Items) (sub : Subscription) (o : Option Subscription) (id : SubscriptionId)
      → Dict.get (subscription_id sub) items ≡ some sub
      → f sub ≡ o
      → subscription_id sub ≡ id
      → (Dict.get id items ≡ some sub) × (updated_of (Dict.get id items) ≡ some (or_same sub o))
  updated_here items sub o id h e q =
      let g = ap (λ i. Dict.get i items) (sym q) ∙ h in
      (g, ap updated_of g ∙ ap (λ p. some (or_same sub p)) e)

  upserted-Done :
      (items : Items) (sub : Subscription) (seen : SubscriptionId → Bool)
      (store : SubscriptionStore) (o : Option Subscription)
      → Dict.get (subscription_id sub) items ≡ some sub
      → f sub ≡ o
      → Done items seen store
      → Done items (λ id. subscription_id sub == id || seen id) (upserted o store)
  upserted-Done items sub seen store none h e d id =
      ground (arith, d id, id_beq_iff (subscription_id sub) id, updated_here items sub none id h e)
  upserted-Done items sub seen store (some next) h e d id =
      ap (Dict.get id) (items-upsert next store)
      ∙ Dict.get-put (subscription_id next) id next store.items
      ∙ ground (
        arith,
        d id,
        id_beq_iff (subscription_id sub) id,
        ap (λ i. i == id) (ap (λ p. subscription_id (or_same sub p)) (sym e) ∙ keeps sub),
        updated_here items sub (some next) id h e,
      )

  update_legs-Done :
      (items : Items) (subs : List Subscription) (seen : SubscriptionId → Bool)
      (store : SubscriptionStore)
      → All (λ s. Dict.get (subscription_id s) items ≡ some s) subs
      → Done items seen store
      → Done items (λ id. has_id id subs || seen id) (update_legs f subs store)
  unfolding update_legs
  update_legs-Done items [] seen store hs d = d
  update_legs-Done items (sub ∷ subs) seen store (h, hs) d = λ id.
      update_legs-Done items subs (λ id. subscription_id sub == id || seen id)
        (upserted (f sub) store) hs (upserted-Done items sub seen store (f sub) h refl d) id
      ∙ ground arith

  -- The legs of the system are updated and the others are left alone.
  abbrev pub of_system : String → Option Subscription → Option Subscription
  of_system name none = none
  of_system name (some sub) = some (if sub.system == name then or_same sub (f sub) else sub)

  pub get-update_legs :
      (id : SubscriptionId) (name : String) (store : SubscriptionStore)
      → IsSound store
      → Dict.get id (update_legs f (list_by_system name store) store).items
        ≡ of_system name (Dict.get id store.items)
  get-update_legs id name store v =
      update_legs-Done store.items (list_by_system name store) (λ i. false) store
        (list_by_system-All name store v) (λ i. refl) id
      ∙ elim (Option-cases (Dict.get id store.items)) [
        | inl missing ↦ ground (arith, has_id-list_by_system id name store v, missing)
        | inr (sub, found) ↦ ground (arith, has_id-list_by_system id name store v, found)
      ]

pub update_legs-IsSound :
    (f : Subscription → Option Subscription) (subs : List Subscription) (store : SubscriptionStore)
    → IsSound store
    → IsSound (update_legs f subs store)
unfolding update_legs
update_legs-IsSound f [] store v = v
update_legs-IsSound f (sub ∷ subs) store v =
    update_legs-IsSound f subs (upserted (f sub) store) (upserted-IsSound (f sub) v)
  where
    upserted-IsSound : (o : Option Subscription) → IsSound store → IsSound (upserted o store)
    upserted-IsSound none v = v
    upserted-IsSound (some next) v = upsert-IsSound next store v
