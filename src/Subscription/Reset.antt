-- ===== src/Subscription/Reset.antt =====
-- src/adn_server/application/subscription/subscription_reset_ops.py: the legs of a system are put to idle,
-- and the legs of service talkgroups are restored. Of a text of static talkgroups the numbers are read,
-- in their order; an access list is of any type, and `acl_check` is an argument, as in the source.
pub mod Silence
mod Tests
use adn_dmr_peer_server.Prelude.{
  ℕ, ◌+◌, ◌*◌, Bool, true, false, not, ◌&&◌, ◌||◌, Option, none, some, List, [], ◌∷◌, String, any,
  if◌then◌else◌, ◌==◌, nat_eq, string_eq, id_eq,
}
use adn_dmr_peer_server.Prelude.Dict
use adn_dmr_peer_server.Wire.{Bytes, bytes_3}
use adn_dmr_peer_server.Subscription.{
  Subscription, SubscriptionId, ToType, type_none, type_stat, type_off, type_on, idle, active, sink,
  echo, inband, is_active, legacy_to_type, no_triggers,
}
use adn_dmr_peer_server.Subscription.Store.{SubscriptionStore, upsert, remove}
use adn_dmr_peer_server.Subscription.Store.Reads.{list_by_system}
use adn_dmr_peer_server.Subscription.Inband.Signal.{update_legs}

-- 600 seconds
abbrev pub default_timeout_ns : ℕ
default_timeout_ns = 600 * 1000000000

-- A sixth of a minute
abbrev pub service_timeout_ns : ℕ
service_timeout_ns = 10 * 1000000000

abbrev pub timeout_or_default : Option ℕ → ℕ
timeout_or_default none = default_timeout_ns
timeout_or_default (some n) = n

unfoldable pub deactivated_leg : ℕ → Subscription → Subscription
deactivated_leg now sub = record sub {
  role = sink;
  policy = inband;
  state = record {
    phase = idle;
    timer_expires_at = some (now + timeout_or_default sub.timeout_seconds);
  };
  triggers = record { on = bytes_3 sub.target_tgid ∷ []; off = []; reset = [] };
}

unfoldable pub deactivate_system_legs : SubscriptionStore → String → ℕ → SubscriptionStore
unfolding update_legs list_by_system deactivated_leg
deactivate_system_legs store system_name now =
    update_legs (λ sub. some (deactivated_leg now sub)) (list_by_system system_name store) store

abbrev pub prohibited_static_tgs : List ℕ
prohibited_static_tgs =
    0 ∷ 1 ∷ 2 ∷ 3 ∷ 4 ∷ 5 ∷ 9 ∷ 9990 ∷ 9991 ∷ 9992 ∷ 9993 ∷ 9994 ∷ 9995 ∷ 9996 ∷ 9997 ∷ 9998 ∷ 9999
    ∷ []

pub record ResetBlock (Acl : Type 0) : Type 0 where
  pub mode : String
  pub enabled : Bool
  pub use_acl : Bool
  pub ts1_static : List ℕ
  pub ts2_static : List ℕ
  pub tg1_acl : Acl
  pub tg2_acl : Acl

abbrev pub service_leg : String → ℕ → ℕ → ℕ → Subscription
service_leg system_name slot tg now = record {
  channel = record { tgid = tg; slot = slot };
  system = system_name;
  target_tgid = tg;
  role = echo;
  policy = inband;
  state = record { phase = active; timer_expires_at = some (now + service_timeout_ns) };
  relay_table_key = none;
  timeout_seconds = some service_timeout_ns;
  triggers = no_triggers;
}

abbrev pub is_none : ToType → Bool
is_none type_none = true
is_none type_stat = false
is_none type_off = false
is_none type_on = false

-- The leg that is there; an active service leg stays.
abbrev pub restored :
    Option Subscription → SubscriptionId → Subscription → SubscriptionStore → SubscriptionStore
restored none id leg store = upsert leg store
restored (some existing) id leg store =
    if is_active existing && is_none (legacy_to_type existing)
    then store
    else upsert leg (remove id store).1

module _ {Acl : Type 0} (acl_check : Bytes → Acl → Bool) where
  -- No service talkgroup, or one that the access list refuses.
  abbrev pub is_skipped : ResetBlock Acl → Acl → ℕ → Bool
  is_skipped block acl tg =
      not (any (λ p. p == tg) prohibited_static_tgs)
      || block.use_acl && not (acl_check (bytes_3 tg) acl)

  -- One slot's talkgroups.
  unfoldable pub restore_slot :
      String → ResetBlock Acl → ℕ → ℕ → Acl → List ℕ → SubscriptionStore → SubscriptionStore
  unfolding upsert remove legacy_to_type bytes_3
  restore_slot system_name block now slot acl [] store = store
  restore_slot system_name block now slot acl (tg ∷ tgs) store =
      let leg = service_leg system_name slot tg now in
      restore_slot system_name block now slot acl tgs (
        if is_skipped block acl tg
        then store
        else restored (Dict.get (tg, slot, system_name) store.items) (tg, slot, system_name) leg
            store)

  unfoldable pub restore_prohibited_static_legs :
      SubscriptionStore → String → ResetBlock Acl → ℕ → SubscriptionStore
  unfolding restore_slot
  restore_prohibited_static_legs store system_name block now =
      if block.mode == "MASTER" && block.enabled
      then restore_slot system_name block now 2 block.tg2_acl block.ts2_static
          (restore_slot system_name block now 1 block.tg1_acl block.ts1_static store)
      else store
