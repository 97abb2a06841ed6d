-- ===== src/Subscription/Operations/Kept.antt =====
-- Predicates of the store under the operations of src/adn_server/application/subscription.
use mathlib.Core.Path.{subst, subst⁻¹}
use adn_dmr_peer_server.Prelude.{
  ℕ, ◌≡◌, Bool, true, false, ◌&&◌, Option, none, some, List, [], ◌∷◌, String, All, if◌then◌else◌,
  ◌==◌, id_eq, string_eq, nat_eq, bytes_eq, arith, refl, ap, inl, inr, Bool-cases,
}
use adn_dmr_peer_server.Prelude.Dict
use adn_dmr_peer_server.Prelude.Dict.{Dict, list_at}
use adn_dmr_peer_server.Wire.{Bytes}
use adn_dmr_peer_server.Subscription.{
  Subscription, SubscriptionId, SubscriptionPhase, Text, subscription_id, with_phase, active, hash,
  is_active, legacy_to_type,
}
use adn_dmr_peer_server.Subscription.Store.{SubscriptionStore, upsert, remove}
use adn_dmr_peer_server.Subscription.Store.Sound.{IsSound}
use adn_dmr_peer_server.Subscription.Store.History.{Write, write}
use adn_dmr_peer_server.Subscription.Store.Reads.{snapshot, list_by_system, has_table, values}
use adn_dmr_peer_server.Subscription.Timers.{
  SystemBlock, Ticked, given, leg_verdict, rule_timer_legs, rule_timer_tables, grouped, remove_legs,
  remove_tables, apply_rule_timer, is_trimmed, trim_tables, apply_stat_trimmer,
}
use adn_dmr_peer_server.Subscription.ObpSource.{
  patch, ensure_in_table, ensure_obp_source_for_tg, first_of, is_obp_source, obp_source,
}
use adn_dmr_peer_server.Subscription.Inband.Signal.{
  apply_in_band_signalling, Signalled, store_of, update_legs, upserted,
}
use adn_dmr_peer_server.Subscription.Inband.Updates.{or_same}
use adn_dmr_peer_server.Subscription.Reset.{
  ResetBlock, restored, restore_slot, restore_prohibited_static_legs, is_skipped, service_leg,
  is_none, deactivate_system_legs, deactivated_leg,
}
use adn_dmr_peer_server.Subscription.Operations.{
  Operation, writes, ticks, trims, ensures, signals, deactivates, restores, operate, is_allowed,
}
use adn_dmr_peer_server.Subscription.Inband.{master_block_or, vterm, in_band_leg}
use adn_dmr_peer_server.Subscription.Inband.Refusals.{signal_legs-readable}
use adn_dmr_peer_server.Subscription.Store.Lookup.{list_by_system-All}
use adn_dmr_peer_server.Subscription.Timers.Tables.{All-map, held-values, grouped-All}
use adn_dmr_peer_server.Subscription.Inband.Disconnect.{restated-in_band_leg}

-- A predicate of stores that holds after every removal, and after every write of a leg that is such as
-- the legs are; a leg is told by its channel and its target, and any leg whose target is the talkgroup
-- of its channel is one.
pub record Kept (P : SubscriptionStore → Type 0) (Q : Subscription → Type 0) : Type 0 where
  pub upsert_keeps :
      (sub : Subscription) (store : SubscriptionStore) → Q sub → P store → P (upsert sub store)
  pub remove_keeps :
      (id : SubscriptionId) (store : SubscriptionStore) → P store → P (remove id store).1
  pub held :
      (store : SubscriptionStore)
      → P store
      → (id : SubscriptionId) (sub : Subscription) → Dict.get id store.items ≡ some sub
      → Q sub
  pub same :
      (s t : Subscription) → t.channel ≡ s.channel → t.target_tgid ≡ s.target_tgid → Q s → Q t
  pub own : (s : Subscription) → s.target_tgid ≡ s.channel.tgid → Q s
  pub sound : (store : SubscriptionStore) → P store → IsSound store

first_of-Q :
    (Q : Subscription → Type 0) (p : Subscription → Bool) (subs : List Subscription)
    (found : Subscription)
    → All Q subs
    → first_of p subs ≡ some found
    → Q found
unfolding first_of
first_of-Q Q p [] found qs e = cc e
first_of-Q Q p (sub ∷ subs) found (q, qs) e = elim (Bool-cases (p sub)) [
  | inl here ↦ subst Q (cc (rw here at e)) q
  | inr later ↦ first_of-Q Q p subs found qs (rw later at e)
]

All-list_at :
    (Q : Subscription → Type 0) (t : Text) (tables : Dict Text (List Subscription))
    → All (λ p. All Q p.1) tables
    → All Q (list_at (Dict.get t tables))
unfolding Dict.get
All-list_at Q t [] qs = tt
All-list_at Q t ((u, subs) ∷ tables) (q, qs) = elim (Bool-cases (u == t)) [
  | inl here ↦ rw here q
  | inr later ↦ rw later (All-list_at Q t tables qs)
]

module _ (P : SubscriptionStore → Type 0) (Q : Subscription → Type 0) (k : Kept P Q) where
  if_keeps : (b : Bool) (s t : SubscriptionStore) → P s → P t → P (if b then s else t)
  if_keeps true s t v w = v
  if_keeps false s t v w = w

  snapshot-Q : (store : SubscriptionStore) → P store → All Q (snapshot store)
  unfolding snapshot
  snapshot-Q store v = held-values Q store.items (k.sound store v).distinct (k.held store v)

  grouped-Q :
      (store : SubscriptionStore) → P store → All (λ p. All Q p.1) (grouped (snapshot store) [])
  unfolding snapshot
  grouped-Q store v =
      All-map _ (λ p. All Q p.1)
        (λ p. All-map _ Q (λ s h. k.held store v (subscription_id s) s h.0) p.1)
        (grouped (values store.items) [])
        (grouped-All store.items (k.sound store v).distinct (k.sound store v).keyed)

  list_by_system-Q :
      (name : String) (store : SubscriptionStore) → P store → All Q (list_by_system name store)
  list_by_system-Q name store v =
      All-map _ Q (λ s h. k.held store v (subscription_id s) s h) (list_by_system name store)
        (list_by_system-All name store (k.sound store v))

  remove_legs_keeps :
      (subs : List Subscription) (store : SubscriptionStore) → P store → P (remove_legs subs store)
  unfolding remove_legs
  remove_legs_keeps [] store v = v
  remove_legs_keeps (sub ∷ subs) store v =
      remove_legs_keeps subs _ (k.remove_keeps (subscription_id sub) store v)

  remove_tables_keeps :
      (ts : List Text) (tables : Dict Text (List Subscription)) (store : SubscriptionStore)
      → P store
      → P (remove_tables ts tables store)
  unfolding remove_tables
  remove_tables_keeps [] tables store v = v
  remove_tables_keeps (t ∷ ts) tables store v =
      remove_tables_keeps ts tables _ (remove_legs_keeps (list_at (Dict.get t tables)) store v)

  given_keeps :
      (t : Text) (sub : Subscription) (o : Option SubscriptionPhase) (ticked : Ticked)
      → Q sub
      → P ticked.store
      → P (given t sub o ticked).store
  given_keeps t sub none ticked q v = v
  given_keeps t sub (some phase) ticked q v =
      k.upsert_keeps (with_phase phase sub) ticked.store
        (k.same sub (with_phase phase sub) refl refl q) v

  module _ (systems_cfg : Dict String SystemBlock) (now : ℕ) where
    rule_timer_legs_keeps :
        (t : Text) (subs : List Subscription) (used : Bool) (ticked : Ticked)
        → All Q subs
        → P ticked.store
        → P (rule_timer_legs systems_cfg now t subs used ticked).1.store
    unfolding rule_timer_legs
    rule_timer_legs_keeps t [] used ticked qs v = v
    rule_timer_legs_keeps t (sub ∷ subs) used ticked (q, qs) v =
        rule_timer_legs_keeps t subs _ _ qs
          (given_keeps t sub (leg_verdict systems_cfg now t sub).1 ticked q v)

    rule_timer_tables_keeps :
        (tables : Dict Text (List Subscription)) (unused : List Text) (ticked : Ticked)
        → All (λ p. All Q p.1) tables
        → P ticked.store
        → P (rule_timer_tables systems_cfg now tables unused ticked).1.store
    unfolding rule_timer_tables
    rule_timer_tables_keeps [] unused ticked qs v = v
    rule_timer_tables_keeps ((t, subs) ∷ tables) unused ticked (q, qs) v =
        rule_timer_tables_keeps tables _ _ qs (rule_timer_legs_keeps t subs false ticked q v)

  trim_tables_keeps :
      (tables : Dict Text (List Subscription)) (store : SubscriptionStore)
      → P store
      → P (trim_tables tables store)
  unfolding trim_tables
  trim_tables_keeps [] store v = v
  trim_tables_keeps ((t, subs) ∷ tables) store v =
      trim_tables_keeps tables _
        (if_keeps (is_trimmed subs) _ store (remove_legs_keeps subs store v) v)

  patch_keeps :
      (o : Option Subscription) (sub : Subscription) (store : SubscriptionStore)
      → ((found : Subscription) → o ≡ some found → Q found)
      → Q sub
      → P store
      → P (patch o sub store)
  patch_keeps none sub store f q v = k.upsert_keeps sub store q v
  patch_keeps (some found) sub store f q v = if_keeps (is_active found) store _ v (
      k.upsert_keeps (with_phase active found) store
        (k.same found (with_phase active found) refl refl (f found refl)) v)

  pub ensure_in_table_keeps :
      (name : String) (dst_id_b : Bytes) (dst_int now : ℕ) (key : Text) (store : SubscriptionStore)
      → P store
      → P (ensure_in_table name dst_id_b dst_int now key store)
  unfolding ensure_in_table
  ensure_in_table_keeps name dst_id_b dst_int now key store v =
      if_keeps (has_table key store) _ store
        (patch_keeps (first_of (is_obp_source name key dst_id_b dst_int) (snapshot store))
          (obp_source name key dst_int now) store
          (λ found e. first_of-Q Q _ (snapshot store) found (snapshot-Q store v) e)
          (k.own (obp_source name key dst_int now) refl) v)
        v

  upserted_keeps :
      (o : Option Subscription) (sub : Subscription) (store : SubscriptionStore)
      → Q (or_same sub o)
      → P store
      → P (upserted o store)
  upserted_keeps none sub store q v = v
  upserted_keeps (some next) sub store q v = k.upsert_keeps next store q v

  pub update_legs_keeps :
      (f : Subscription → Option Subscription) (subs : List Subscription)
      (store : SubscriptionStore)
      → ((s : Subscription) → Q s → Q (or_same s (f s)))
      → All Q subs
      → P store
      → P (update_legs f subs store)
  unfolding update_legs
  update_legs_keeps f [] store g qs v = v
  update_legs_keeps f (sub ∷ subs) store g (q, qs) v =
      update_legs_keeps f subs _ g qs (upserted_keeps (f sub) sub store (g sub q) v)

  restored_keeps :
      (o : Option Subscription) (id : SubscriptionId) (leg : Subscription)
      (store : SubscriptionStore)
      → Q leg
      → P store
      → P (restored o id leg store)
  restored_keeps none id leg store q v = k.upsert_keeps leg store q v
  restored_keeps (some existing) id leg store q v =
      if_keeps (is_active existing && is_none (legacy_to_type existing)) store _ v
        (k.upsert_keeps leg _ q (k.remove_keeps id store v))

  module _ {Acl : Type 0} (acl_check : Bytes → Acl → Bool) where
    restore_slot_keeps :
        (name : String) (block : ResetBlock Acl) (now slot : ℕ) (acl : Acl) (tgs : List ℕ)
        (store : SubscriptionStore)
        → P store
        → P (restore_slot acl_check name block now slot acl tgs store)
    unfolding restore_slot
    restore_slot_keeps name block now slot acl [] store v = v
    restore_slot_keeps name block now slot acl (tg ∷ tgs) store v =
        restore_slot_keeps name block now slot acl tgs _ (
          if_keeps (is_skipped acl_check block acl tg) store _ v (
            restored_keeps (Dict.get (tg, slot, name) store.items) (tg, slot, name)
              (service_leg name slot tg now) store (k.own (service_leg name slot tg now) refl) v))

    -- What is left to show of an operation is that its writes, where it is a list of writes, keep it.
    pub operate_keeps :
        (o : Operation Acl) (store : SubscriptionStore)
        → is_allowed o ≡ true
        → ((w : Write) → o ≡ writes w → P (write w store))
        → P store
        → P (operate acl_check o store)
    unfolding operate apply_rule_timer apply_stat_trimmer ensure_obp_source_for_tg
        apply_in_band_signalling restore_prohibited_static_legs deactivate_system_legs
        deactivated_leg
    operate_keeps (writes w) store a h v = h w refl
    operate_keeps (ticks systems_cfg now) store a h v =
        let tables = grouped (snapshot store) [] in
        let start : Ticked = record { store = store; deactivated = [] } in
        let looped = rule_timer_tables systems_cfg now tables [] start in
        remove_tables_keeps looped.0 tables looped.1.store
          (rule_timer_tables_keeps systems_cfg now tables [] start (grouped-Q store v) v)
    operate_keeps trims store a h v = trim_tables_keeps (grouped (snapshot store) []) store v
    operate_keeps (ensures name key dst_id_b dst_int now) store a h v =
        ensure_in_table_keeps name dst_id_b dst_int now (hash ∷ key) _
          (ensure_in_table_keeps name dst_id_b dst_int now key store v)
    operate_keeps (signals name slot dst_id pkt_time systems_cfg) store a h v =
        let block = master_block_or (Dict.get name systems_cfg) in
        let call = vterm slot dst_id pkt_time in
        let done =
          signal_legs-readable block call (list_by_system name store) store (ground (arith, a))
            (ground (arith, a)) in
        let frame = λ (s : Subscription). restated-in_band_leg block call s s.state in
        subst⁻¹ (λ (r : Signalled). P (store_of r)) done
          (update_legs_keeps (in_band_leg block call) (list_by_system name store) store
            (λ s q.
              k.same s (or_same s (in_band_leg block call s))
                (ap (λ (l : Subscription). l.channel) (frame s))
                (ap (λ (l : Subscription). l.target_tgid) (frame s)) q)
            (list_by_system-Q name store v) v)
    operate_keeps (deactivates name now) store a h v =
        update_legs_keeps (λ sub. some (deactivated_leg now sub)) (list_by_system name store) store
          (λ s q. k.same s (deactivated_leg now s) refl refl q) (list_by_system-Q name store v) v
    operate_keeps (restores name block now) store a h v =
        if_keeps (block.mode == "MASTER" && block.enabled) _ store
          (restore_slot_keeps name block now 2 block.tg2_acl block.ts2_static _
            (restore_slot_keeps name block now 1 block.tg1_acl block.ts1_static store v))
          v
