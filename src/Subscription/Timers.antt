-- ===== src/Subscription/Timers.antt =====
-- The loops that run on the whole store: `apply_rule_timer_store` of
-- src/adn_server/application/subscription/rule_timer_ops.py, with `is_special_tg` of
-- src/adn_server/application/routing/helpers.py, and `apply_stat_trimmer_store` of
-- src/adn_server/application/subscription/stat_trimmer_ops.py. Of a system's block only SINGLE_MODE and
-- MODE are read. The calls of `on_relay_deactivated` are a list of the systems that it is called with.
-- `int(text)` is that of texts of digits.
pub mod Tables
pub mod Loops
pub mod Tick
pub mod Expiry
mod Tests
use adn_dmr_peer_server.Prelude.{
  ℕ, ◌-◌, Bool, true, false, not, ◌&&◌, ◌||◌, Option, none, some, List, [], ◌∷◌, ◌++◌, String, any,
  filter, ltb, leb, if◌then◌else◌, ◌==◌, nat_eq, bytes_eq, string_eq, id_eq, map,
}
use adn_dmr_peer_server.Prelude.Dict
use adn_dmr_peer_server.Prelude.Dict.{Dict, list_at}
use adn_dmr_peer_server.Prelude.Decimal.{int}
use adn_dmr_peer_server.Subscription.{
  Subscription, Text, SubscriptionPhase, idle, active, is_active, table_key, subscription_id,
  is_reflector, ToType, type_none, type_stat, type_off, type_on, legacy_to_type, with_phase,
  hangtime, int_text,
}
use adn_dmr_peer_server.Subscription.Store.{SubscriptionStore, upsert, remove}
use adn_dmr_peer_server.Subscription.Store.Reads.{snapshot}

pub record SystemBlock : Type 0 where
  pub single_mode : Bool
  pub mode : String

abbrev no_block : SystemBlock
no_block = record { single_mode = false; mode = "" }

abbrev block_or : Option SystemBlock → SystemBlock
block_or none = no_block
block_or (some block) = block

-- `systems_cfg.get(name, {})`
abbrev pub block_of : Dict String SystemBlock → String → SystemBlock
block_of systems_cfg name = block_or (Dict.get name systems_cfg)

abbrev in_special_range : Option ℕ → Bool
in_special_range none = false
in_special_range (some n) = leb 9990 n && leb n 9999

unfoldable pub is_special_tg : Text → Bool
unfolding int_text
is_special_tg t = not (is_reflector t) && in_special_range (int_text t)

abbrev or_zero : Option ℕ → ℕ
or_zero none = 0
or_zero (some n) = n

abbrev pub timer_of : Subscription → ℕ
timer_of sub = or_zero sub.state.timer_expires_at

abbrev pub is_stat : ToType → Bool
is_stat type_stat = true
is_stat type_none = false
is_stat type_off = false
is_stat type_on = false

-- Whether the timer of a leg in a table counts for nothing.
unfoldable pub is_infinite : SystemBlock → Text → Subscription → Bool
unfolding is_special_tg legacy_to_type
is_infinite block t sub =
    (not block.single_mode && (not (is_reflector t) && not (is_stat (legacy_to_type sub))))
    && (not (block.mode == "OPENBRIDGE") && not (is_special_tg t))

-- Whether the leg's table is in use, and the phase that it is given.
abbrev pub infinite_verdict : ToType → Bool → Bool × Option SubscriptionPhase
infinite_verdict type_on is_active = (is_active, none)
infinite_verdict type_off is_active = (true, if is_active then none else some active)
infinite_verdict type_none is_active = (false, none)
infinite_verdict type_stat is_active = (false, none)

abbrev pub timed_verdict : ToType → Bool → Bool → Bool → Bool × Option SubscriptionPhase
timed_verdict type_on is_active expired is_obp =
    (is_active, if is_active && expired then some idle else none)
timed_verdict type_off is_active expired is_obp =
    (true, if not is_active && expired then some active else none)
timed_verdict type_none is_active expired is_obp = (not is_obp || is_active, none)
timed_verdict type_stat is_active expired is_obp = (true, none)

unfoldable pub verdict : SystemBlock → ℕ → Text → Subscription → Bool × Option SubscriptionPhase
unfolding is_infinite legacy_to_type
verdict block now t sub =
    if is_infinite block t sub
    then infinite_verdict (legacy_to_type sub) (is_active sub)
    else timed_verdict (legacy_to_type sub) (is_active sub) (ltb (timer_of sub) now)
        (block.mode == "OPENBRIDGE")

-- The store and the systems whose reflector was deactivated.
pub record Ticked : Type 0 where
  pub store : SubscriptionStore
  pub deactivated : List String

abbrev pub notified : Text → String → SubscriptionPhase → List String → List String
notified t name idle names = if is_reflector t then names ++ name ∷ [] else names
notified t name active names = names
notified t name hangtime names = names

abbrev pub given : Text → Subscription → Option SubscriptionPhase → Ticked → Ticked
given t sub none ticked = ticked
given t sub (some phase) ticked = record {
  store = upsert (with_phase phase sub) ticked.store;
  deactivated = notified t sub.system phase ticked.deactivated;
}

module _ (systems_cfg : Dict String SystemBlock) (now : ℕ) where
  abbrev pub leg_verdict : Text → Subscription → Bool × Option SubscriptionPhase
  leg_verdict t sub = verdict (block_of systems_cfg sub.system) now t sub

  -- The legs of one table, with `bridge_used`.
  unfoldable pub rule_timer_legs : Text → List Subscription → Bool → Ticked → Bool × Ticked
  unfolding upsert
  rule_timer_legs t [] used ticked = (used, ticked)
  rule_timer_legs t (sub ∷ subs) used ticked =
      rule_timer_legs t subs (used || (leg_verdict t sub).0)
        (given t sub (leg_verdict t sub).1 ticked)

  -- The tables, with `remove_tables`.
  unfoldable pub rule_timer_tables :
      Dict Text (List Subscription) → List Text → Ticked → List Text × Ticked
  unfolding rule_timer_legs
  rule_timer_tables [] unused ticked = (unused, ticked)
  rule_timer_tables ((t, subs) ∷ tables) unused ticked =
      let (used, after) = rule_timer_legs t subs false ticked in
      rule_timer_tables tables (if used then unused else unused ++ t ∷ []) after

-- `by_table`
unfoldable pub grouped :
    List Subscription → Dict Text (List Subscription) → Dict Text (List Subscription)
unfolding table_key
grouped [] tables = tables
grouped (sub ∷ subs) tables =
    grouped subs
      (Dict.put (table_key sub) (list_at (Dict.get (table_key sub) tables) ++ sub ∷ []) tables)

unfoldable pub remove_legs : List Subscription → SubscriptionStore → SubscriptionStore
unfolding remove
remove_legs [] store = store
remove_legs (sub ∷ subs) store = remove_legs subs (remove (subscription_id sub) store).1

unfoldable pub remove_tables :
    List Text → Dict Text (List Subscription) → SubscriptionStore → SubscriptionStore
unfolding remove_legs
remove_tables [] tables store = store
remove_tables (t ∷ ts) tables store =
    remove_tables ts tables (remove_legs (list_at (Dict.get t tables)) store)

unfoldable pub apply_rule_timer : SubscriptionStore → Dict String SystemBlock → ℕ → Ticked
unfolding snapshot grouped rule_timer_tables remove_tables
apply_rule_timer store systems_cfg now =
    let tables = grouped (snapshot store) [] in
    let (unused, ticked) =
      rule_timer_tables systems_cfg now tables [] (record { store = store; deactivated = [] }) in
    record { store = remove_tables unused tables ticked.store; deactivated = ticked.deactivated }

-- Whether the trimmer removes a table with the legs.
unfoldable pub is_trimmed : List Subscription → Bool
unfolding legacy_to_type
is_trimmed subs =
    let in_use = λ (sub : Subscription). in_use_by (legacy_to_type sub) (is_active sub) in
    (any (λ sub. is_stat (legacy_to_type sub)) subs
      && not (any (λ sub. is_stat (legacy_to_type sub) && is_active sub) subs))
    && not (any in_use subs)
  where
    in_use_by : ToType → Bool → Bool
    in_use_by type_on is_active = is_active
    in_use_by type_off is_active = true
    in_use_by type_none is_active = false
    in_use_by type_stat is_active = false

unfoldable pub trim_tables : Dict Text (List Subscription) → SubscriptionStore → SubscriptionStore
unfolding is_trimmed remove_legs
trim_tables [] store = store
trim_tables ((t, subs) ∷ tables) store =
    trim_tables tables (if is_trimmed subs then remove_legs subs store else store)

unfoldable pub apply_stat_trimmer : SubscriptionStore → SubscriptionStore
unfolding snapshot grouped trim_tables
apply_stat_trimmer store = trim_tables (grouped (snapshot store) []) store
