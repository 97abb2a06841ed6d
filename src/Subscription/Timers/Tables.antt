-- ===== src/Subscription/Timers/Tables.antt =====
-- The legs of a store by their tables, and their removal: the loops of
-- src/adn_server/application/subscription/rule_timer_ops.py.
use mathlib.Core.List.{append_assoc, append-nil}
use adn_dmr_peer_server.Prelude.{
  ◌≡◌, refl, ap, sym, ◌∙◌, Bool, none, some, List, [], ◌∷◌, ◌++◌, any, All, filter, if◌then◌else◌,
  ◌==◌, bytes_eq, list_beq_iff, string_eq, id_eq, id_beq_iff, arith, Bool-cases, inl, inr, true,
  false, Option,
}
use adn_dmr_peer_server.Prelude.Dict
use adn_dmr_peer_server.Prelude.Dict.{Dict, list_at}
use adn_dmr_peer_server.Subscription.{
  Subscription, SubscriptionId, Text, subscription_id, table_key,
}
use adn_dmr_peer_server.Subscription.Store.{SubscriptionStore, remove}
use adn_dmr_peer_server.Subscription.Store.Agrees.{Items, is_in_table, has_text}
use adn_dmr_peer_server.Subscription.Store.Writes.{items-remove}
use adn_dmr_peer_server.Subscription.Timers.{grouped, remove_legs, remove_tables}
use adn_dmr_peer_server.Subscription.Store.Reads.{values}
use adn_dmr_peer_server.Subscription.Store.Lookup.{has_id}

-- The tables' legs.
pub grouped-filter :
    (t : Text) (subs : List Subscription) (tables : Dict Text (List Subscription))
    → list_at (Dict.get t (grouped subs tables))
      ≡ list_at (Dict.get t tables) ++ filter (is_in_table t) subs
unfolding grouped
grouped-filter t [] tables = sym (append-nil (list_at (Dict.get t tables)))
grouped-filter t (sub ∷ subs) tables =
    let k = table_key sub in
    let rest = filter (is_in_table t) subs in
    grouped-filter t subs _
    ∙ ap (λ o. list_at o ++ rest)
        (Dict.get-put k t (list_at (Dict.get k tables) ++ sub ∷ []) tables)
    ∙ elim (Bool-cases (k == t)) [
      | inl same ↦ rw same (
          append_assoc (list_at (Dict.get k tables)) (sub ∷ []) rest
          ∙ ap (λ u. list_at (Dict.get u tables) ++ sub ∷ rest) ((list_beq_iff k t).0 same))
      | inr other ↦ rw other refl
    ]

pub grouped-Distinct :
    (subs : List Subscription) (tables : Dict Text (List Subscription))
    → Dict.Distinct tables
    → Dict.Distinct (grouped subs tables)
unfolding grouped
grouped-Distinct [] tables h = h
grouped-Distinct (sub ∷ subs) tables h = grouped-Distinct subs _ (Dict.put-Distinct _ _ tables h)

-- The legs that are removed.
pub get-remove_legs :
    (id : SubscriptionId) (subs : List Subscription) (store : SubscriptionStore)
    → Dict.get id (remove_legs subs store).items
      ≡ (if has_id id subs then none else Dict.get id store.items)
unfolding remove_legs
get-remove_legs id [] store = ground arith
get-remove_legs id (sub ∷ subs) store =
    get-remove_legs id subs (remove (subscription_id sub) store).1
    ∙ ground (
      arith,
      ap (Dict.get id) (items-remove (subscription_id sub) store),
      Dict.get-pop (subscription_id sub) id store.items,
    )

pub get-remove_tables :
    (id : SubscriptionId) (ts : List Text) (tables : Dict Text (List Subscription))
    (store : SubscriptionStore)
    → Dict.get id (remove_tables ts tables store).items ≡ (
        if any (λ t. has_id id (list_at (Dict.get t tables))) ts
        then none
        else Dict.get id store.items)
unfolding remove_tables
get-remove_tables id [] tables store = ground arith
get-remove_tables id (t ∷ ts) tables store =
    get-remove_tables id ts tables (remove_legs (list_at (Dict.get t tables)) store)
    ∙ ground (arith, get-remove_legs id (list_at (Dict.get t tables)) store)

-- Facts of every element of a list.
module _ {ℓ κ μ} {A : Type ℓ} (P : A → Type κ) (Q : A → Type μ) where
  pub All-map : ((x : A) → P x → Q x) → (xs : List A) → All P xs → All Q xs
  All-map f [] ps = tt
  All-map f (x ∷ xs) (p, ps) = (f x p, All-map f xs ps)

All-filter :
    (P : Subscription → Type 0) (p : Subscription → Bool) (subs : List Subscription)
    → All P subs
    → All (λ s. P s × (p s ≡ true)) (filter p subs)
All-filter P p [] ps = tt
All-filter P p (s ∷ subs) (q, qs) = elim (Bool-cases (p s)) [
  | inl passes ↦ rw passes ((q, passes), All-filter P p subs qs)
  | inr fails ↦ rw fails (All-filter P p subs qs)
]

-- A table is what is found under its key.
tables-get :
    (tables : Dict Text (List Subscription))
    → Dict.Distinct tables
    → All (λ p. Dict.get p.0 tables ≡ some p.1) tables
unfolding Dict.get
tables-get [] h = tt
tables-get ((t, subs) ∷ tables) (fresh, h) = (
  ground (arith, list_beq_iff t t),
  All-map (λ p. Dict.get p.0 tables ≡ some p.1) (λ p. Dict.get p.0 ((t, subs) ∷ tables) ≡ some p.1)
      (λ p e. ground (arith, e, fresh, list_beq_iff t p.0, ap (λ k. Dict.get k tables))) tables
      (tables-get tables h),
)

-- A held leg is under its id.
pub held-values :
    (P : Subscription → Type 0) (items : Items)
    → Dict.Distinct items
    → ((id : SubscriptionId) (s : Subscription) → Dict.get id items ≡ some s → P s)
    → All P (values items)
unfolding values Dict.get
held-values P [] h f = tt
held-values P ((id, sub) ∷ d) (fresh, h) f = (
  f id sub (ground (arith, id_beq_iff id id)),
  held-values P d h
      (λ i s e. f i s (ground (arith, e, fresh, id_beq_iff id i, ap (λ k. Dict.get k d)))),
)

-- The legs of each table were held, in that table.
pub grouped-All :
    (items : Items)
    → Dict.Distinct items
    → ((id : SubscriptionId) (s : Subscription)
        → Dict.get id items ≡ some s
        → subscription_id s ≡ id)
    → All
        (λ p. All (λ s. (Dict.get (subscription_id s) items ≡ some s) × (table_key s ≡ p.0)) p.1)
        (grouped (values items) [])
unfolding Dict.get values
grouped-All items h k =
    let tables = grouped (values items) [] in
    All-map (λ (p : Text × List Subscription). Dict.get p.0 tables ≡ some p.1)
      (λ (p : Text × List Subscription).
        All (λ s. (Dict.get (subscription_id s) items ≡ some s) × (table_key s ≡ p.0)) p.1)
      (λ p e. rw (sym (ap list_at e) ∙ grouped-filter p.0 (values items) []) (
        All-map (λ s. (Dict.get (subscription_id s) items ≡ some s) × (is_in_table p.0 s ≡ true))
          (λ s. (Dict.get (subscription_id s) items ≡ some s) × (table_key s ≡ p.0))
          (λ s q. (q.0, (list_beq_iff (table_key s) p.0).0 q.1))
          (filter (is_in_table p.0) (values items))
          (All-filter (λ s. Dict.get (subscription_id s) items ≡ some s) (is_in_table p.0)
            (values items)
            (held-values (λ s. Dict.get (subscription_id s) items ≡ some s) items h
              (λ id s e. rw (k id s e) e)))))
      tables (tables-get tables (grouped-Distinct (values items) [] tt))

-- Which table a held leg is listed in.
abbrev pub is_its : Text → Option Subscription → Bool
is_its t none = false
is_its t (some sub) = table_key sub == t

has_id-filter :
    (id : SubscriptionId) (t : Text) (items : Items)
    → Dict.Distinct items
    → ((i : SubscriptionId) (s : Subscription) → Dict.get i items ≡ some s → subscription_id s ≡ i)
    → has_id id (filter (is_in_table t) (values items)) ≡ is_its t (Dict.get id items)
unfolding values Dict.get
has_id-filter id t [] h k = refl
has_id-filter id t ((j, sub) ∷ d) (fresh, h) k =
    let own = k j sub (ground (arith, id_beq_iff j j)) in
    let rest =
      has_id-filter id t d h
        (λ i s e. k i s (ground (arith, e, fresh, id_beq_iff j i, ap (λ q. Dict.get q d)))) in
    elim (Bool-cases (j == id)) [
      | inl same ↦ ground (
        arith,
        same,
        rest,
        ap (λ i. i == id) own,
        ap (λ q. is_its t (Dict.get q d)) ((id_beq_iff j id).0 same),
        ap (is_its t) fresh,
      )
      | inr other ↦ ground (arith, other, rest, ap (λ i. i == id) own)
    ]

pub has_id-grouped :
    (id : SubscriptionId) (t : Text) (items : Items)
    → Dict.Distinct items
    → ((i : SubscriptionId) (s : Subscription) → Dict.get i items ≡ some s → subscription_id s ≡ i)
    → has_id id (list_at (Dict.get t (grouped (values items) []))) ≡ is_its t (Dict.get id items)
unfolding Dict.get
has_id-grouped id t items h k =
    ap (has_id id) (grouped-filter t (values items) []) ∙ has_id-filter id t items h k

pub any-has_id :
    (id : SubscriptionId) (t : Text) (ts : List Text) (tables : Dict Text (List Subscription))
    → ((u : Text) → has_id id (list_at (Dict.get u tables)) ≡ (t == u))
    → any (λ u. has_id id (list_at (Dict.get u tables))) ts ≡ has_text t ts
any-has_id id t [] tables f = refl
any-has_id id t (u ∷ ts) tables f =
    ground (arith, f u, any-has_id id t ts tables f, list_beq_iff t u, list_beq_iff u t)

pub listed-get :
    (id : SubscriptionId) (t : Text) (tables : Dict Text (List Subscription))
    → has_id id (list_at (Dict.get t tables)) ≡ true
    → any (λ (p : Text × List Subscription). has_id id p.1) tables ≡ true
unfolding Dict.get
listed-get id t [] h = cc
listed-get id t ((u, subs) ∷ tables) h = elim (Bool-cases (u == t)) [
  | inl same ↦ ground (arith, same, h)
  | inr other ↦ ground (arith, other, listed-get id t tables (rw other at h))
]
