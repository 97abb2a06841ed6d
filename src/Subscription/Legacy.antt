-- ===== src/Subscription/Legacy.antt =====
-- The rows of the legacy tables: src/adn_server/application/subscription/routing_table_export.py,
-- routing_table_import.py and store_sync.py. A row that is read has all the keys of one that is
-- written; its timeout is none where it is the empty text. `int(text)` is that of texts of digits.
pub mod RoundTrip
mod Tests
use adn_dmr_peer_server.Prelude.{
  ℕ, ◌+◌, ◌*◌, ◌-◌, Bool, true, false, ◌&&◌, Option, none, some, List, [], ◌∷◌, ◌++◌, String, leb,
  if◌then◌else◌, ◌==◌, nat_eq, bytes_eq, map,
}
use adn_dmr_peer_server.Prelude.Dict
use adn_dmr_peer_server.Prelude.Dict.{Dict, list_at}
use adn_dmr_peer_server.Prelude.Decimal.{int}
use adn_dmr_peer_server.Wire.{Bytes, bytes_3, int_id}
use adn_dmr_peer_server.Subscription.{
  Subscription, SubscriptionRole, ActivationPolicy, sink, passive_stat, echo, static, inband,
  openbridge_stat, idle, active, Text, is_active, is_reflector, table_key, ToType, type_none,
  type_stat, type_off, type_on, legacy_to_type, int_text,
}
use adn_dmr_peer_server.Subscription.Store.{SubscriptionStore, replace_all}
use adn_dmr_peer_server.Subscription.Store.Reads.{snapshot}
use adn_dmr_peer_server.Subscription.Inband.{raw, trigger_bytes_tuple}

pub record LegacyRow : Type 0 where
  pub system : String
  pub ts : ℕ
  pub tgid : Bytes
  pub active : Bool
  pub timeout : Option ℕ
  pub to_type : ToType
  pub on : List Bytes
  pub off : List Bytes
  pub reset : List Bytes
  pub timer : ℕ

-- 600 seconds
abbrev default_timeout_ns : ℕ
default_timeout_ns = 600 * 1000000000

abbrev number_or_default : Option ℕ → ℕ
number_or_default none = default_timeout_ns
number_or_default (some n) = n

-- `_legacy_timeout`
abbrev pub legacy_timeout : Option ℕ → ToType → Option ℕ
legacy_timeout seconds type_stat = none
legacy_timeout seconds type_none = some (number_or_default seconds)
legacy_timeout seconds type_off = some (number_or_default seconds)
legacy_timeout seconds type_on = some (number_or_default seconds)

abbrev pub on_or : List Bytes → Bytes → List Bytes
on_or [] channel_b = channel_b ∷ []
on_or (b ∷ bs) channel_b = b ∷ bs

-- `_legacy_on_off`
abbrev pub legacy_on_off : List Bytes → List Bytes → Bytes → ToType → List Bytes × List Bytes
legacy_on_off on off channel_b type_stat = ([], [])
legacy_on_off on off channel_b type_none = ([], [])
legacy_on_off on off channel_b type_off = (on_or on channel_b, off)
legacy_on_off on off channel_b type_on = (on_or on channel_b, off)

abbrev timeout_after : ℕ → Option ℕ → ℕ
timeout_after epoch none = epoch
timeout_after epoch (some seconds) = epoch + seconds

abbrev pub timer_or : Option ℕ → Option ℕ → ℕ → ℕ
timer_or (some at) timeout epoch = at
timer_or none timeout epoch = timeout_after epoch timeout

unfoldable pub subscription_to_legacy_row : Subscription → ℕ → LegacyRow
unfolding legacy_to_type bytes_3
subscription_to_legacy_row sub epoch =
    let to_type = legacy_to_type sub in
    let timeout = legacy_timeout sub.timeout_seconds to_type in
    let lists = legacy_on_off sub.triggers.on sub.triggers.off (bytes_3 sub.channel.tgid) to_type in
    record {
      system = sub.system;
      ts = sub.channel.slot;
      tgid = bytes_3 sub.target_tgid;
      active = is_active sub;
      timeout = timeout;
      to_type = to_type;
      on = lists.0;
      off = lists.1;
      reset = sub.triggers.reset;
      timer = timer_or sub.state.timer_expires_at timeout epoch;
    }

unfoldable pub export_rows :
    List Subscription → ℕ → Dict Text (List LegacyRow) → Dict Text (List LegacyRow)
unfolding subscription_to_legacy_row table_key
export_rows [] epoch bridges = bridges
export_rows (sub ∷ subs) epoch bridges = export_rows subs epoch (
    Dict.put (table_key sub)
      (list_at (Dict.get (table_key sub) bridges) ++ subscription_to_legacy_row sub epoch ∷ [])
      bridges)

unfoldable pub export_routing_table : SubscriptionStore → ℕ → Dict Text (List LegacyRow)
unfolding export_rows snapshot
export_routing_table store epoch = export_rows (snapshot store) epoch []

abbrev pub role_from_to_type : ToType → SubscriptionRole
role_from_to_type type_none = echo
role_from_to_type type_stat = passive_stat
role_from_to_type type_off = sink
role_from_to_type type_on = sink

abbrev pub policy_from_to_type : ToType → ActivationPolicy
policy_from_to_type type_stat = openbridge_stat
policy_from_to_type type_off = static
policy_from_to_type type_none = inband
policy_from_to_type type_on = inband

abbrev tgid_or : Option ℕ → ℕ → ℕ
tgid_or (some n) target = n
tgid_or none target = target

unfoldable pub subscription_from_row : Text → LegacyRow → Subscription
unfolding int_id int_text trigger_bytes_tuple
subscription_from_row key row =
    let target = int_id row.tgid in
    record {
      channel = record {
        tgid = if is_reflector key then target else tgid_or (int_text key) target;
        slot = if row.ts == 0 then 1 else row.ts;
      };
      system = row.system;
      target_tgid = target;
      role = role_from_to_type row.to_type;
      policy = policy_from_to_type row.to_type;
      state = record {
        phase = if row.active then active else idle;
        timer_expires_at = some row.timer;
      };
      relay_table_key = if is_reflector key then some key else none;
      timeout_seconds = row.timeout;
      triggers = record {
        on = trigger_bytes_tuple (map raw row.on);
        off = trigger_bytes_tuple (map raw row.off);
        reset = trigger_bytes_tuple (map raw row.reset);
      };
    }

unfoldable pub subscriptions_from_routing_table : Dict Text (List LegacyRow) → List Subscription
unfolding subscription_from_row
subscriptions_from_routing_table [] = []
subscriptions_from_routing_table ((key, rows) ∷ bridges) =
    map (subscription_from_row key) rows ++ subscriptions_from_routing_table bridges

unfoldable pub replace_store_from_routing_table :
    SubscriptionStore → Dict Text (List LegacyRow) → SubscriptionStore
unfolding subscriptions_from_routing_table replace_all
replace_store_from_routing_table store bridges =
    replace_all (subscriptions_from_routing_table bridges) store
