-- ===== src/Subscription/Store/Exact/Writes.antt =====
-- What the writes of src/adn_server/infrastructure/subscription_store.py do to an exact store.
use mathlib.Core.Path.{subst}
use adn_dmr_peer_server.Prelude.{
  ℕ, ◌+◌, ◌≡◌, ◌⊎◌, refl, ap, sym, ◌∙◌, true, false, not, ◌&&◌, none, some, List, [], ◌∷◌, All,
  ◌==◌, nat_eq, string_eq, bytes_eq, id_eq, leg_eq, id_beq_iff, leg_beq_iff, list_beq_iff, inl, inr,
  Option-cases, Bool-cases, arith,
}
use adn_dmr_peer_server.Prelude.Dict
use adn_dmr_peer_server.Prelude.Dict.{list_at}
use adn_dmr_peer_server.Subscription.{
  Subscription, SubscriptionId, Text, subscription_id, is_active, table_key,
}
use adn_dmr_peer_server.Subscription.Store.{
  IndexKey, SubscriptionStore, index_key, index_of, index, unindex, unindexed, without_system, held,
  unindex_old, upsert, remove, revised, empty_store, clear, hold_all, replace_all,
}
use adn_dmr_peer_server.Subscription.Store.Agrees.{Items, is_source, feeds-index_of, indexes}
use adn_dmr_peer_server.Subscription.Store.Unindexed.{has_text-unindexed}
use adn_dmr_peer_server.Subscription.Store.Sound.{IsSound}
use adn_dmr_peer_server.Subscription.Store.Writes.{items-upsert, items-remove, upsert-IsSound}
use adn_dmr_peer_server.Subscription.Store.Removal.{remove-IsSound}
use adn_dmr_peer_server.Subscription.Store.History.{
  Write, upserts, removes, clears, replaces, write, write-IsSound, all_distinct, is_keyed, AreNew,
  get-hold, hold-IsSound, empty-IsSound,
}
use adn_dmr_peer_server.Subscription.Store.Exact.{
  IsDirect, names, IsExact, takes, untaken, names-upsert,
}

held_legs :
    (store : SubscriptionStore) (id : SubscriptionId)
    → IsExact store
    → (old : Subscription) → Dict.get id store.items ≡ some old
    → IsDirect old × (subscription_id old ≡ id)
held_legs store id v old e = (v.direct id old e, v.sound.keyed id old e)

-- What a leg named before still is after another is taken out.
still_named :
    (store : SubscriptionStore) (id j : SubscriptionId) (s : Subscription)
    → IsExact store
    → Dict.get j store.items ≡ some s
    → (id == j) ≡ false
    → is_active s ≡ true
    → (names (index_key s) (table_key s) store
        && not (takes (Dict.get id store.items) (index_key s) (table_key s)))
      ≡ true
still_named store id j s v e apart a = ground (
  arith,
  v.named j s e a,
  untaken (Dict.get id store.items) s id (table_key s) (held_legs store id v) (v.direct j s e)
      (ap (λ i. id == i) (v.sound.keyed j s e) ∙ apart),
)

source_self :
    (sub : Subscription)
    → is_active sub ≡ true
    → is_source (index_key sub) (table_key sub) sub ≡ true
source_self sub a = ground (
  arith,
  a,
  leg_beq_iff (index_key sub) (index_key sub),
  list_beq_iff (table_key sub) (table_key sub),
)

-- A leg that is held after a write is the written one or was held before.
after_upsert :
    (sub s : Subscription) (store : SubscriptionStore) (j : SubscriptionId)
    → Dict.get j (upsert sub store).items ≡ some s
    → (sub ≡ s) ⊎ ((subscription_id sub == j) ≡ false) × (Dict.get j store.items ≡ some s)
after_upsert sub s store j e =
    let got =
      sym (
        ap (λ (d : Items). Dict.get j d) (items-upsert sub store)
        ∙ Dict.get-put (subscription_id sub) j sub store.items)
      ∙ e in
    elim (Bool-cases (subscription_id sub == j)) [
      | inl same ↦ inl (cc (rw same at got))
      | inr other ↦ inr (other, rw other at got)
    ]

pub upsert-IsExact :
    (sub : Subscription) (store : SubscriptionStore)
    → IsDirect sub
    → IsExact store
    → IsExact (upsert sub store)
upsert-IsExact sub store d v = record {
  sound = upsert-IsSound sub store v.sound;
  direct = λ j s e. elim (after_upsert sub s store j e) [
    | inl same ↦ subst IsDirect same d
    | inr (apart, was) ↦ v.direct j s was
  ];
  named = λ j s e a.
      names-upsert sub (index_key s) (table_key s) store v.sound
      ∙ elim (after_upsert sub s store j e) [
        | inl same ↦
            let own =
              subst
                (λ (x : Subscription).
                  is_active x ≡ true → is_source (index_key x) (table_key x) sub ≡ true)
                same (source_self sub) a in
            ground (arith, own)
        | inr (apart, was) ↦
            ground (arith, still_named store (subscription_id sub) j s v was apart a)
      ];
}

names-remove :
    (id : SubscriptionId) (k : IndexKey) (t : Text) (store : SubscriptionStore)
    → IsSound store
    → names k t (remove id store).1 ≡ (names k t store && not (takes (Dict.get id store.items) k t))
unfolding remove unindex
names-remove id k t store v = elim (Option-cases (Dict.get id store.items)) [
  | inl e ↦ rw e (ground arith)
  | inr (old, e) ↦ rw e (
      let popped = without_system id old (record store { items = Dict.pop id store.items }) in
      ap (λ i. names k t (unindex i popped)) (v.keyed id old e)
      ∙ ap (λ o. names k t (unindexed id popped o)) (v.agrees.indexed_as id ∙ ap indexes e)
      ∙ has_text-unindexed id (table_key old) popped (index_of old).1 k t
      ∙ ap (λ b. names k t store && not b) (feeds-index_of old k t))
]

pub remove-IsExact :
    (id : SubscriptionId) (store : SubscriptionStore) → IsExact store → IsExact (remove id store).1
remove-IsExact id store v = record {
  sound = remove-IsSound id store v.sound;
  direct = λ j s e. v.direct j s (after_remove j s e).1;
  named = λ j s e a.
      let (apart, was) = after_remove j s e in
      names-remove id (index_key s) (table_key s) store v.sound
      ∙ still_named store id j s v was apart a;
}
  where
    after_remove :
        (j : SubscriptionId) (s : Subscription)
        → Dict.get j (remove id store).1.items ≡ some s
        → ((id == j) ≡ false) × (Dict.get j store.items ≡ some s)
    after_remove j s e =
        let got =
          sym (
            ap (λ (d : Items). Dict.get j d) (items-remove id store)
            ∙ Dict.get-pop id j store.items)
          ∙ e in
        elim (Bool-cases (id == j)) [
          | inl same ↦ cc (rw same at got)
          | inr other ↦ (other, rw other at got)
        ]

pub empty-IsExact : (revision : ℕ) → IsExact (empty_store revision)
unfolding Dict.get
empty-IsExact revision = record {
  sound = empty-IsSound revision;
  direct = λ id sub e. cc e;
  named = λ id sub e a. cc e;
}

-- A leg whose id is new is held as `upsert` holds it.
hold-IsExact :
    (sub : Subscription) (store : SubscriptionStore)
    → Dict.get (subscription_id sub) store.items ≡ none
    → IsDirect sub
    → IsExact store
    → IsExact (index sub (held sub store))
unfolding upsert
hold-IsExact sub store e d v =
    let w : IsExact (revised (index sub (held sub store))) =
      subst
        (λ o. IsExact (revised (index sub (held sub (unindex_old o (subscription_id sub) store)))))
        e (upsert-IsExact sub store d v) in
    record { sound = hold-IsSound sub store e v.sound; direct = w.direct; named = w.named }

hold_all-IsExact :
    (subs : List Subscription) (store : SubscriptionStore)
    → all_distinct subs ≡ true
    → All IsDirect subs
    → AreNew subs store
    → IsExact store
    → IsExact (hold_all subs store)
unfolding hold_all all_distinct
hold_all-IsExact [] store d ds new v = v
hold_all-IsExact (sub ∷ subs) store k (d, ds) new v =
    hold_all-IsExact subs (index sub (held sub store)) (ground (arith, k)) ds
      (λ id h.
        get-hold sub store id ∙ ground (arith, k, h, new id, id_beq_iff (subscription_id sub) id))
      (hold-IsExact sub store
        (new (subscription_id sub)
          (ground (arith, id_beq_iff (subscription_id sub) (subscription_id sub))))
        d v)

-- The legs that a write is given are direct.
abbrev pub WritesDirect : Write → Type 0
WritesDirect (upserts sub) = IsDirect sub
WritesDirect (removes id) = Unit
WritesDirect clears = Unit
WritesDirect (replaces subs) = All IsDirect subs

pub write-IsExact :
    (w : Write) (store : SubscriptionStore)
    → is_keyed w ≡ true
    → WritesDirect w
    → IsExact store
    → IsExact (write w store)
unfolding write replace_all clear Dict.get
write-IsExact (upserts sub) store k d v = upsert-IsExact sub store d v
write-IsExact (removes id) store k d v = remove-IsExact id store v
write-IsExact clears store k d v = empty-IsExact _
write-IsExact (replaces subs) store k d v =
    let w : IsExact (hold_all subs (empty_store (store.revision + 1))) =
      hold_all-IsExact subs _ k d (λ id h. refl) (empty-IsExact _) in
    record {
      sound = write-IsSound (replaces subs) store k v.sound;
      direct = w.direct;
      named = w.named;
    }
