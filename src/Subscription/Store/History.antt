-- ===== src/Subscription/Store/History.antt =====
-- Whatever is written to src/adn_server/infrastructure/subscription_store.py, in any order, it stays
-- sound.
use mathlib.Core.Path.{subst}
use adn_dmr_peer_server.Prelude.{
  ℕ, ◌≡◌, refl, ◌∙◌, Bool, true, not, ◌&&◌, none, some, List, [], ◌∷◌, any, All, ◌==◌,
  if◌then◌else◌, id_eq, id_beq_iff, arith,
}
use adn_dmr_peer_server.Prelude.Dict
use adn_dmr_peer_server.Subscription.{Subscription, SubscriptionId, subscription_id}
use adn_dmr_peer_server.Subscription.Store.{
  SubscriptionStore, empty_store, index_of, index, held, unindex_old, upsert, remove, revised,
  clear, hold_all, replace_all,
}
use adn_dmr_peer_server.Subscription.Store.Counts.{count, places}
use adn_dmr_peer_server.Subscription.Store.Writes.{upsert-IsSound}
use adn_dmr_peer_server.Subscription.Store.Sound.{IsSound, index_active-items}
use adn_dmr_peer_server.Subscription.Store.Removal.{remove-IsSound}

-- A write of the store.
pub data Write : Type 0 where
  upserts : Subscription → Write
  removes : SubscriptionId → Write
  clears : Write
  replaces : List Subscription → Write

unfoldable pub write : Write → SubscriptionStore → SubscriptionStore
unfolding upsert remove clear replace_all
write (upserts sub) store = upsert sub store
write (removes id) store = (remove id store).1
write clears store = clear store
write (replaces subs) store = replace_all subs store

unfoldable pub writes : List Write → SubscriptionStore → SubscriptionStore
unfolding write
writes [] store = store
writes (w ∷ ws) store = writes ws (write w store)

-- No two of the legs have one id.
unfoldable pub all_distinct : List Subscription → Bool
all_distinct [] = true
all_distinct (sub ∷ subs) =
    not (any (λ s. subscription_id s == subscription_id sub) subs) && all_distinct subs

abbrev pub is_keyed : Write → Bool
is_keyed (upserts sub) = true
is_keyed (removes id) = true
is_keyed clears = true
is_keyed (replaces subs) = all_distinct subs

pub empty-IsSound : (revision : ℕ) → IsSound (empty_store revision)
unfolding places count Dict.get
empty-IsSound revision = record {
  distinct = tt;
  keyed = λ id sub e. cc e;
  agrees = record {
    indexed_as = λ id. refl;
    places_as = λ t id. refl;
    counts_as = λ key. refl;
    sources_as = λ key t h. cc h;
  };
  systems_as = λ name id. refl;
}

-- Nothing of what is sound is said of the revision.
unrevised-IsSound : (store : SubscriptionStore) → IsSound (revised store) → IsSound store
unrevised-IsSound store v = record {
  distinct = v.distinct;
  keyed = v.keyed;
  agrees = record {
    indexed_as = v.agrees.indexed_as;
    places_as = v.agrees.places_as;
    counts_as = v.agrees.counts_as;
    sources_as = v.agrees.sources_as;
  };
  systems_as = v.systems_as;
}

pub revised-IsSound : (store : SubscriptionStore) → IsSound store → IsSound (revised store)
revised-IsSound store v = record {
  distinct = v.distinct;
  keyed = v.keyed;
  agrees = record {
    indexed_as = v.agrees.indexed_as;
    places_as = v.agrees.places_as;
    counts_as = v.agrees.counts_as;
    sources_as = v.agrees.sources_as;
  };
  systems_as = v.systems_as;
}

-- A leg whose id is new is held as `upsert` holds it.
pub hold-IsSound :
    (sub : Subscription) (store : SubscriptionStore)
    → Dict.get (subscription_id sub) store.items ≡ none
    → IsSound store
    → IsSound (index sub (held sub store))
unfolding upsert
hold-IsSound sub store e v = unrevised-IsSound _ (
    subst
      (λ o. IsSound (revised (index sub (held sub (unindex_old o (subscription_id sub) store))))) e
      (upsert-IsSound sub store v))

-- The legs' ids are new to the store.
abbrev pub AreNew : List Subscription → SubscriptionStore → Type 0
AreNew subs store =
    (id : SubscriptionId)
    → any (λ s. subscription_id s == id) subs ≡ true
    → Dict.get id store.items ≡ none

pub get-hold :
    (sub : Subscription) (store : SubscriptionStore) (id : SubscriptionId)
    → Dict.get id (index sub (held sub store)).items
      ≡ (if subscription_id sub == id then some sub else Dict.get id store.items)
unfolding index
get-hold sub store id =
    rw (index_active-items (index_of sub).0 (index_of sub).1 _).0
      (Dict.get-put (subscription_id sub) id sub store.items)

hold_all-IsSound :
    (subs : List Subscription) (store : SubscriptionStore)
    → all_distinct subs ≡ true
    → AreNew subs store
    → IsSound store
    → IsSound (hold_all subs store)
unfolding hold_all all_distinct
hold_all-IsSound [] store d new v = v
hold_all-IsSound (sub ∷ subs) store d new v =
    hold_all-IsSound subs (index sub (held sub store)) (ground (arith, d))
      (λ id h.
        get-hold sub store id ∙ ground (arith, d, h, new id, id_beq_iff (subscription_id sub) id))
      (hold-IsSound sub store
        (new (subscription_id sub)
          (ground (arith, id_beq_iff (subscription_id sub) (subscription_id sub))))
        v)

pub write-IsSound :
    (w : Write) (store : SubscriptionStore)
    → is_keyed w ≡ true
    → IsSound store
    → IsSound (write w store)
unfolding write replace_all clear Dict.get
write-IsSound (upserts sub) store k v = upsert-IsSound sub store v
write-IsSound (removes id) store k v = remove-IsSound id store v
write-IsSound clears store k v = empty-IsSound _
write-IsSound (replaces subs) store k v =
    revised-IsSound _ (hold_all-IsSound subs _ k (λ id h. refl) (empty-IsSound _))

writes_from :
    (ws : List Write) (store : SubscriptionStore)
    → All (λ w. is_keyed w ≡ true) ws
    → IsSound store
    → IsSound (writes ws store)
unfolding writes
writes_from [] store k v = v
writes_from (w ∷ ws) store (k, ks) v = writes_from ws (write w store) ks (write-IsSound w store k v)

-- After any sequence of writes to an empty store, where no `replace_all` is given two legs of one id,
-- every leg is held under its own id, each table and each system lists exactly the legs it has, each
-- once, a target's count is the number of its active legs, and what each leg was indexed under is what
-- it would be indexed under now.
pub writes-IsSound :
    (ws : List Write) → All (λ w. is_keyed w ≡ true) ws → IsSound (writes ws (empty_store 0))
writes-IsSound ws k = writes_from ws (empty_store 0) k (empty-IsSound 0)
