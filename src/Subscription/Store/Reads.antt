-- ===== src/Subscription/Store/Reads.antt =====
-- The reads of src/adn_server/infrastructure/subscription_store.py: the indexed ones answer what a
-- scan of every held leg would.
use adn_dmr_peer_server.Prelude.{
  ℕ, ◌+◌, ◌≤◌, ◌≡◌, refl, ap, sym, ◌∙◌, Bool, true, false, ◌&&◌, Option, none, some, List, [], ◌∷◌,
  String, any, filter, ltb, ◌==◌, nat_eq, bytes_eq, string_eq, id_eq, id_beq_iff, leg_eq, arith,
}
use adn_dmr_peer_server.Prelude.Dict
use adn_dmr_peer_server.Prelude.Dict.{Dict, list_at}
use adn_dmr_peer_server.Subscription.{
  Subscription, SubscriptionId, SubscriptionPhase, AudioChannel, Text, is_active, same_phase,
}
use adn_dmr_peer_server.Subscription.Store.{SubscriptionStore, count_at}
use adn_dmr_peer_server.Subscription.Store.Counts.{one, one_of, count, count-pop, places}
use adn_dmr_peer_server.Subscription.Store.Agrees.{Items, is_in_table, is_active_at}
use adn_dmr_peer_server.Subscription.Store.Sound.{IsSound, is_of}

abbrev pub get : SubscriptionId → SubscriptionStore → Option Subscription
get id store = Dict.get id store.items

unfoldable pub values : Items → List Subscription
values [] = []
values ((id, sub) ∷ d) = sub ∷ values d

unfoldable pub snapshot : SubscriptionStore → List Subscription
unfolding values
snapshot store = values store.items

unfoldable pub list_by_channel : AudioChannel → SubscriptionStore → List Subscription
unfolding snapshot
list_by_channel channel store =
    filter (λ sub. sub.channel.tgid == channel.tgid && sub.channel.slot == channel.slot)
      (snapshot store)

unfoldable pub list_active : SubscriptionStore → List Subscription
unfolding snapshot
list_active store = filter is_active (snapshot store)

unfoldable pub list_by_phase : SubscriptionPhase → SubscriptionStore → List Subscription
unfolding snapshot
list_by_phase phase store = filter (λ sub. same_phase sub.state.phase phase) (snapshot store)

-- The objects that a list of ids stands for.
abbrev found : Option Subscription → List Subscription → List Subscription
found none subs = subs
found (some sub) subs = sub ∷ subs

unfoldable pub looked_up : List SubscriptionId → Items → List Subscription
looked_up [] items = []
looked_up (id ∷ ids) items = found (Dict.get id items) (looked_up ids items)

unfoldable pub list_by_system : String → SubscriptionStore → List Subscription
unfolding looked_up
list_by_system name store = looked_up (list_at (Dict.get name store.by_system)) store.items

unfoldable pub legs_in_table : Text → SubscriptionStore → List Subscription
unfolding looked_up
legs_in_table t store = looked_up (list_at (Dict.get t store.by_table)) store.items

abbrev is_filled : List SubscriptionId → Bool
is_filled [] = false
is_filled (id ∷ ids) = true

unfoldable pub has_table : Text → SubscriptionStore → Bool
has_table t store = is_filled (list_at (Dict.get t store.by_table))

unfoldable pub has_active_target_leg : String → ℕ → ℕ → SubscriptionStore → Bool
has_active_target_leg system slot tgid store =
    ltb 0 (count_at (Dict.get (system, slot, tgid) store.active_target_counts))

-- How many legs of a list pass a test.
unfoldable pub number : (Subscription → Bool) → List Subscription → ℕ
number p [] = 0
number p (sub ∷ subs) = one (p sub) + number p subs

number-values : (p : Subscription → Bool) (items : Items) → number p (values items) ≡ count p items
unfolding number values count
number-values p [] = refl
number-values p ((id, sub) ∷ d) = omega (arith, number-values p d)

pub any-values :
    (p : Subscription → Bool) (items : Items) → any p (values items) ≡ ltb 0 (count p items)
unfolding values count
any-values p [] = refl
any-values p ((id, sub) ∷ d) = ground (arith, any-values p d)

-- A held leg that passes is counted.
counted :
    (p : Subscription → Bool) (id : SubscriptionId) (items : Items)
    → one_of p (Dict.get id items) ≤ count p items
unfolding count Dict.get
counted p id [] = omega arith
counted p id ((j, sub) ∷ d) = ground (arith, counted p id d)

-- Where no id's leg passes a test, none is counted by a stronger one.
none_counted :
    (p r : Subscription → Bool) (items : Items)
    → Dict.Distinct items
    → ((s : Subscription) → one (r s) ≤ one (p s))
    → ((id : SubscriptionId) → one_of p (Dict.get id items) ≡ 0)
    → count r items ≡ 0
unfolding count Dict.get
none_counted p r [] h g f = refl
none_counted p r ((j, sub) ∷ d) (fresh, h) g f = ground (
  arith,
  f j,
  g sub,
  id_beq_iff j j,
  none_counted p r d h g (λ id. ground (arith, f id, fresh, id_beq_iff j id)),
)

looked_up-pop :
    (id : SubscriptionId) (ids : List SubscriptionId) (items : Items)
    → places id ids ≡ 0
    → looked_up ids (Dict.pop id items) ≡ looked_up ids items
unfolding looked_up places
looked_up-pop id [] items h = refl
looked_up-pop id (j ∷ ids) items h =
    ground (arith, h, looked_up-pop id ids items, Dict.get-pop id j items, id_beq_iff id j)

number-found :
    (q : Subscription → Bool) (o : Option Subscription) (subs : List Subscription)
    → number q (found o subs) ≡ one_of q o + number q subs
unfolding number
number-found q none subs = omega arith
number-found q (some sub) subs = refl

one_of-both :
    (p q : Subscription → Bool) (o : Option Subscription)
    → 1 ≤ one_of p o
    → one_of (λ s. p s && q s) o ≡ one_of q o
one_of-both p q none h = refl
one_of-both p q (some sub) h = ground arith

one_of_bound : (p : Subscription → Bool) (o : Option Subscription) → one_of p o ≤ 1
one_of_bound p none = omega arith
one_of_bound p (some sub) = ground arith

-- A list with each passing leg's id once stands for the passing legs.
number-looked_up :
    (p q : Subscription → Bool) (ids : List SubscriptionId) (items : Items)
    → Dict.Distinct items
    → ((id : SubscriptionId) → places id ids ≡ one_of p (Dict.get id items))
    → number q (looked_up ids items) ≡ count (λ s. p s && q s) items
unfolding number looked_up places
number-looked_up p q [] items h f =
    sym (none_counted p (λ s. p s && q s) items h (λ s. ground arith) (λ id. sym (f id)))
number-looked_up p q (j ∷ ids) items h f =
    let rest = Dict.pop j items in
    let here = Dict.get j items in
    let once = f j in
    number-found q here (looked_up ids items)
    ∙ ap (λ n. one_of q here + n)
        (ap (number q) (
            sym (
              looked_up-pop j ids items (ground (arith, f j, id_beq_iff j j, one_of_bound p here))))
          ∙ number-looked_up p q ids rest (Dict.pop-Distinct j items h) (λ id. ground (
            arith,
            f id,
            Dict.get-pop j id items,
            one_of_bound p (Dict.get id items),
            id_beq_iff j id,
          )))
    ∙ omega (
      arith,
      count-pop (λ s. p s && q s) j items h,
      one_of-both p q here (ground (arith, f j, id_beq_iff j j)),
    )

has_table-count :
    (t : Text) (ids : List SubscriptionId) (items : Items)
    → Dict.Distinct items
    → ((id : SubscriptionId) → places id ids ≡ one_of (is_in_table t) (Dict.get id items))
    → is_filled ids ≡ ltb 0 (count (is_in_table t) items)
unfolding places
has_table-count t [] items h f = ground (
  arith,
  none_counted (is_in_table t) (is_in_table t) items h (λ s. omega arith) (λ id. sym (f id)),
)
has_table-count t (j ∷ ids) items h f =
    ground (arith, f j, id_beq_iff j j, counted (is_in_table t) j items)

-- The indexed reads answer what a scan of the held legs does: whether a table has a leg, whether a
-- target has an active one, and which legs a table and a system have, by how many pass any test.
abbrev pub AreScans : SubscriptionStore → Type 0
AreScans store =
    ((t : Text) → has_table t store ≡ any (is_in_table t) (snapshot store))
    × ((system : String) (slot tgid : ℕ)
        → has_active_target_leg system slot tgid store
          ≡ any (is_active_at (system, slot, tgid)) (snapshot store))
    × ((t : Text) (q : Subscription → Bool)
        → number q (legs_in_table t store) ≡ number (λ s. is_in_table t s && q s) (snapshot store))
    × ((name : String) (q : Subscription → Bool)
        → number q (list_by_system name store) ≡ number (λ s. is_of name s && q s) (snapshot store))

-- In a sound store the indexed reads say what a scan of the held legs says: whether a table has a leg,
-- whether a target has an active one, and, by how many pass any test, which legs a table and a system
-- have.
pub reads-scan : (store : SubscriptionStore) → IsSound store → AreScans store
unfolding has_table has_active_target_leg legs_in_table list_by_system snapshot
reads-scan store v = (
  λ t.
      has_table-count t (list_at (Dict.get t store.by_table)) store.items v.distinct
        (v.agrees.places_as t)
      ∙ sym (any-values (is_in_table t) store.items),
  λ system slot tgid.
      ap (ltb 0) (v.agrees.counts_as (system, slot, tgid))
      ∙ sym (any-values (is_active_at (system, slot, tgid)) store.items),
  λ t q.
      number-looked_up (is_in_table t) q _ store.items v.distinct (v.agrees.places_as t)
      ∙ sym (number-values _ store.items),
  λ name q.
      number-looked_up (is_of name) q _ store.items v.distinct (v.systems_as name)
      ∙ sym (number-values _ store.items),
)
