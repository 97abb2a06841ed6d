-- ===== src/Subscription/Timers/Loops.antt =====
-- The loops of `apply_rule_timer_store`, src/adn_server/application/subscription/rule_timer_ops.py.
use mathlib.Core.List.{append_assoc, append-nil}
use adn_dmr_peer_server.Prelude.{
  ℕ, ◌≡◌, refl, ap, sym, ◌∙◌, Bool, false, not, ◌||◌, Option, none, some, List, [], ◌∷◌, ◌++◌,
  String, any, All, if◌then◌else◌, ◌==◌, bytes_eq, list_beq_iff, string_eq, id_eq, id_beq_iff,
  arith, Bool-cases, inl, inr,
}
use adn_dmr_peer_server.Prelude.Dict
use adn_dmr_peer_server.Prelude.Dict.{Dict, list_at}
use adn_dmr_peer_server.Subscription.{
  Subscription, SubscriptionId, SubscriptionPhase, Text, subscription_id, table_key, with_phase,
}
use adn_dmr_peer_server.Subscription.Store.{SubscriptionStore}
use adn_dmr_peer_server.Subscription.Store.Agrees.{Items, has_text}
use adn_dmr_peer_server.Subscription.Store.Writes.{items-upsert}
use adn_dmr_peer_server.Subscription.Timers.{
  SystemBlock, Ticked, given, leg_verdict, rule_timer_legs, rule_timer_tables,
}
use adn_dmr_peer_server.Subscription.Store.Lookup.{has_id}

module _ (systems_cfg : Dict String SystemBlock) (now : ℕ) where
  -- The leg with the phase that it is given.
  abbrev pub phased : Option SubscriptionPhase → Subscription → Subscription
  phased none sub = sub
  phased (some phase) sub = with_phase phase sub

  abbrev pub advanced : Subscription → Subscription
  advanced sub = phased (leg_verdict systems_cfg now (table_key sub) sub).1 sub

  abbrev pub is_used : Subscription → Bool
  is_used sub = (leg_verdict systems_cfg now (table_key sub) sub).0

  abbrev pub advanced_of : Option Subscription → Option Subscription
  advanced_of none = none
  advanced_of (some sub) = some (advanced sub)

  module _ (items : Items) where
    -- The legs that were seen are advanced and the others are what they were.
    abbrev pub Done : (SubscriptionId → Bool) → SubscriptionStore → Type 0
    Done seen store =
        (id : SubscriptionId)
        → Dict.get id store.items
          ≡ (if seen id then advanced_of (Dict.get id items) else Dict.get id items)

    -- A leg of the table that was held.
    abbrev pub IsEntry : Text → Subscription → Type 0
    IsEntry t sub = (Dict.get (subscription_id sub) items ≡ some sub) × (table_key sub ≡ t)

    advanced_here :
        (sub : Subscription) (o : Option SubscriptionPhase) (id : SubscriptionId)
        → Dict.get (subscription_id sub) items ≡ some sub
        → (leg_verdict systems_cfg now (table_key sub) sub).1 ≡ o
        → subscription_id sub ≡ id
        → (Dict.get id items ≡ some sub) × (advanced_of (Dict.get id items) ≡ some (phased o sub))
    advanced_here sub o id h e q =
        let g = ap (λ i. Dict.get i items) (sym q) ∙ h in
        (g, ap advanced_of g ∙ ap (λ p. some (phased p sub)) e)

    given-Done :
        (sub : Subscription) (seen : SubscriptionId → Bool) (ticked : Ticked)
        (o : Option SubscriptionPhase)
        → Dict.get (subscription_id sub) items ≡ some sub
        → (leg_verdict systems_cfg now (table_key sub) sub).1 ≡ o
        → Done seen ticked.store
        → (t : Text)
        → Done (λ id. subscription_id sub == id || seen id) (given t sub o ticked).store
    given-Done sub seen ticked none h e d t id =
        ground (arith, d id, id_beq_iff (subscription_id sub) id, advanced_here sub none id h e)
    given-Done sub seen ticked (some phase) h e d t id =
        ap (Dict.get id) (items-upsert (with_phase phase sub) ticked.store)
        ∙ Dict.get-put (subscription_id sub) id (with_phase phase sub) ticked.store.items
        ∙ ground (
          arith,
          d id,
          id_beq_iff (subscription_id sub) id,
          advanced_here sub (some phase) id h e,
        )

    legs-Done :
        (t : Text) (subs : List Subscription) (used : Bool) (seen : SubscriptionId → Bool)
        (ticked : Ticked)
        → All (IsEntry t) subs
        → Done seen ticked.store
        → (Done
            (λ id. has_id id subs || seen id)
            (rule_timer_legs systems_cfg now t subs used ticked).1.store)
          × ((rule_timer_legs systems_cfg now t subs used ticked).0 ≡ (used || any is_used subs))
    unfolding rule_timer_legs
    legs-Done t [] used seen ticked hs d = (d, ground arith)
    legs-Done t (sub ∷ subs) used seen ticked ((h, k), hs) d =
        let o = (leg_verdict systems_cfg now t sub).1 in
        let (after, flag) =
          legs-Done t subs (used || (leg_verdict systems_cfg now t sub).0)
            (λ id. subscription_id sub == id || seen id) (given t sub o ticked) hs
            (given-Done sub seen ticked o h (ap (λ u. (leg_verdict systems_cfg now u sub).1) k) d
              t) in
        (
          λ id. after id ∙ ground arith,
          flag ∙ ground (arith, ap (λ u. (leg_verdict systems_cfg now u sub).0) k),
        )

    -- The tables without a leg that uses them.
    unfoldable pub idle_tables : Dict Text (List Subscription) → List Text
    idle_tables [] = []
    idle_tables ((t, subs) ∷ tables) =
        let rest = idle_tables tables in if any is_used subs then rest else t ∷ rest

    abbrev pub listed : SubscriptionId → Dict Text (List Subscription) → Bool
    listed id tables = any (λ p. has_id id p.1) tables

    pub tables-Done :
        (tables : Dict Text (List Subscription)) (unused : List Text) (seen : SubscriptionId → Bool)
        (ticked : Ticked)
        → All (λ p. All (IsEntry p.0) p.1) tables
        → Done seen ticked.store
        → (Done
            (λ id. listed id tables || seen id)
            (rule_timer_tables systems_cfg now tables unused ticked).1.store)
          × ((rule_timer_tables systems_cfg now tables unused ticked).0
              ≡ unused ++ idle_tables tables)
    unfolding rule_timer_tables idle_tables
    tables-Done [] unused seen ticked hs d = (d, sym (append-nil unused))
    tables-Done ((t, subs) ∷ tables) unused seen ticked (h, hs) d =
        let (here, flag) = legs-Done t subs false seen ticked h d in
        let (after, names) =
          tables-Done tables
            (if (rule_timer_legs systems_cfg now t subs false ticked).0
              then unused
              else unused ++ t ∷ [])
            (λ id. has_id id subs || seen id)
            (rule_timer_legs systems_cfg now t subs false ticked).1 hs here in
        (
          λ id. after id ∙ ground arith,
          names
              ∙ rw flag (elim (Bool-cases (any is_used subs)) [
                | inl busy ↦ rw busy refl
                | inr free ↦ rw free (append_assoc unused (t ∷ []) (idle_tables tables))
              ]),
        )

    -- A table is idle if none of its legs uses it.
    pub has_text-idle_tables :
        (t : Text) (tables : Dict Text (List Subscription)) (subs : List Subscription)
        → Dict.Distinct tables
        → Dict.get t tables ≡ some subs
        → has_text t (idle_tables tables) ≡ not (any is_used subs)
    unfolding idle_tables Dict.get
    has_text-idle_tables t [] subs h e = cc
    has_text-idle_tables t ((u, legs) ∷ tables) subs (fresh, h) e = elim (Bool-cases (u == t)) [
      | inl same ↦ ground (
        arith,
        same,
        e,
        ap (λ v. has_text v (idle_tables tables)) ((list_beq_iff u t).0 same),
        missing u tables fresh,
      )
      | inr other ↦ ground (arith, other, has_text-idle_tables t tables subs h (rw other at e))
    ]
      where
        missing :
            (u : Text) (tables : Dict Text (List Subscription))
            → Dict.get u tables ≡ none
            → has_text u (idle_tables tables) ≡ false
        missing u [] h = refl
        missing u ((v, legs) ∷ tables) h = ground (arith, h, missing u tables)
