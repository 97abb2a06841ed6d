-- ===== src/Subscription/Timers/Tick.antt =====
-- What a tick of `apply_rule_timer_store`, src/adn_server/application/subscription/rule_timer_ops.py,
-- makes of each leg.
use adn_dmr_peer_server.Prelude.{
  ℕ, ◌≡◌, refl, ap, sym, ◌∙◌, false, not, ◌||◌, Option, none, some, List, [], String, any, filter,
  if◌then◌else◌, ◌==◌, bytes_eq, list_beq_iff, string_eq, id_eq, arith, inl, inr, Option-cases,
}
use adn_dmr_peer_server.Prelude.Dict
use adn_dmr_peer_server.Prelude.Dict.{Dict, list_at}
use adn_dmr_peer_server.Subscription.{Subscription, SubscriptionId, Text, table_key}
use adn_dmr_peer_server.Subscription.Store.{SubscriptionStore}
use adn_dmr_peer_server.Subscription.Store.Agrees.{is_in_table}
use adn_dmr_peer_server.Subscription.Store.Sound.{IsSound}
use adn_dmr_peer_server.Subscription.Timers.{
  SystemBlock, Ticked, rule_timer_tables, grouped, remove_tables, apply_rule_timer,
}
use adn_dmr_peer_server.Subscription.Timers.Tables.{
  grouped-filter, grouped-Distinct, get-remove_tables, grouped-All, has_id-grouped, any-has_id,
  listed-get, is_its,
}
use adn_dmr_peer_server.Subscription.Store.Reads.{values, snapshot}
use adn_dmr_peer_server.Subscription.Timers.Loops.{
  advanced, is_used, advanced_of, idle_tables, listed, tables-Done, has_text-idle_tables,
}
use adn_dmr_peer_server.Subscription.Store.Lookup.{has_id}

module _ (systems_cfg : Dict String SystemBlock) (now : ℕ) where
  -- What a tick makes of a leg, by the legs of its table.
  abbrev pub ticked_leg : SubscriptionStore → Option Subscription → Option Subscription
  ticked_leg store none = none
  ticked_leg store (some sub) =
      if any (is_used systems_cfg now) (filter (is_in_table (table_key sub)) (snapshot store))
      then some (advanced systems_cfg now sub)
      else none

module _ (systems_cfg : Dict String SystemBlock) (now : ℕ) (id : SubscriptionId)
    (store : SubscriptionStore) (v : IsSound store) where
  abbrev tables : Dict Text (List Subscription)
  tables = grouped (values store.items) []

  abbrev looped : List Text × Ticked
  looped = rule_timer_tables systems_cfg now tables [] (record { store = store; deactivated = [] })

  advanced_at : Dict.get id looped.1.store.items ≡ (
      if listed systems_cfg now store.items id tables || false
      then advanced_of systems_cfg now (Dict.get id store.items)
      else Dict.get id store.items)
  advanced_at =
      (tables-Done systems_cfg now store.items tables [] (λ i. false)
          (record { store = store; deactivated = [] }) (grouped-All store.items v.distinct v.keyed)
          (λ i. refl)).0
        id

  unused_as : looped.0 ≡ idle_tables systems_cfg now store.items tables
  unused_as =
      (tables-Done systems_cfg now store.items tables [] (λ i. false)
        (record { store = store; deactivated = [] }) (grouped-All store.items v.distinct v.keyed)
        (λ i. refl)).1

  in_table_as :
      (sub : Subscription)
      → Dict.get id store.items ≡ some sub
      → (u : Text) → has_id id (list_at (Dict.get u tables)) ≡ (table_key sub == u)
  in_table_as sub e u = has_id-grouped id u store.items v.distinct v.keyed ∙ ap (is_its u) e

  removed_as :
      (sub : Subscription)
      → Dict.get id store.items ≡ some sub
      → any (λ u. has_id id (list_at (Dict.get u tables))) looped.0
        ≡ not (
            any
              (is_used systems_cfg now)
              (filter (is_in_table (table_key sub)) (values store.items)))
  unfolding values Dict.get
  removed_as sub e =
      let t = table_key sub in
      let f = in_table_as sub e in
      let legs = grouped-filter t (values store.items) [] in
      ap (any (λ u. has_id id (list_at (Dict.get u tables)))) unused_as
      ∙ any-has_id id t (idle_tables systems_cfg now store.items tables) tables f
      ∙ elim (Option-cases (Dict.get t tables)) [
        | inl missing ↦ absurd (ground (arith, f t, missing, list_beq_iff t t))
        | inr (subs, found) ↦
            has_text-idle_tables systems_cfg now store.items t tables subs
              (grouped-Distinct (values store.items) [] tt) found
            ∙ ap (λ xs. not (any (is_used systems_cfg now) xs)) (sym (ap list_at found) ∙ legs)
      ]

  ticked_some :
      (sub : Subscription)
      → Dict.get id store.items ≡ some sub
      → Dict.get id (remove_tables looped.0 tables looped.1.store).items
        ≡ ticked_leg systems_cfg now store (some sub)
  unfolding snapshot
  ticked_some sub e =
      get-remove_tables id looped.0 tables looped.1.store
      ∙ ground (
        arith,
        removed_as sub e,
        advanced_at,
        listed-get id (table_key sub) tables (
            in_table_as sub e (table_key sub)
            ∙ (list_beq_iff (table_key sub) (table_key sub)).1 refl),
        e,
        ap (advanced_of systems_cfg now) e,
      )

  ticked_none :
      Dict.get id store.items ≡ none
      → Dict.get id (remove_tables looped.0 tables looped.1.store).items ≡ none
  ticked_none e =
      get-remove_tables id looped.0 tables looped.1.store
      ∙ ground (arith, advanced_at, e, ap (advanced_of systems_cfg now) e)

-- A tick of the rule timer keeps a leg of a sound store exactly if some leg of its table uses the
-- table, and it then has the phase that the verdict on the leg gives it, if any, and is else unchanged;
-- no leg is added. (The verdict is on the leg's type, phase, timer and system alone, so the order in
-- which the legs and the tables are visited does not matter.)
pub get-apply_rule_timer :
    (systems_cfg : Dict String SystemBlock) (now : ℕ) (id : SubscriptionId)
    (store : SubscriptionStore)
    → IsSound store
    → Dict.get id (apply_rule_timer store systems_cfg now).store.items
      ≡ ticked_leg systems_cfg now store (Dict.get id store.items)
unfolding apply_rule_timer snapshot
get-apply_rule_timer systems_cfg now id store v = elim (Option-cases (Dict.get id store.items)) [
  | inl e ↦ ticked_none systems_cfg now id store v e ∙ sym (ap (ticked_leg systems_cfg now store) e)
  | inr (sub, e) ↦
      ticked_some systems_cfg now id store v sub e ∙ sym (ap (ticked_leg systems_cfg now store) e)
]
