-- ===== src/Subscription/ObpSource.antt =====
-- src/adn_server/application/subscription/obp_source_ops.py: a talkgroup's tables get an active leg of
-- the OBP that calls it.
pub mod Sources
pub mod Both
mod Tests
use adn_dmr_peer_server.Prelude.{
  ℕ, ◌+◌, ◌-◌, ◌≤◌, ◌≡◌, refl, ap, sym, ◌∙◌, Bool, true, false, not, ◌&&◌, ◌||◌, Option, none, some,
  List, [], ◌∷◌, ◌++◌, String, any, All, filter, if◌then◌else◌, ◌==◌, nat_eq, bytes_eq,
  list_beq_iff, string_eq, id_eq, id_beq_iff, leg_eq, arith,
}
use adn_dmr_peer_server.Prelude.Dict
use adn_dmr_peer_server.Wire.{Bytes, bytes_3, int_id}
use adn_dmr_peer_server.Subscription.{
  Subscription, Text, SubscriptionPhase, SubscriptionRole, ActivationPolicy, idle, active, echo,
  inband, is_active, table_key, subscription_id, str_text, hash, is_reflector, with_phase,
  no_triggers,
}
use adn_dmr_peer_server.Subscription.Store.{SubscriptionStore, upsert}
use adn_dmr_peer_server.Subscription.Store.Agrees.{has_text}
use adn_dmr_peer_server.Subscription.Store.Reads.{snapshot, has_table}
use adn_dmr_peer_server.Subscription.Router.{relay_tables_with_active_source}

-- `_tgid_match`, of a talkgroup's three bytes
abbrev pub tgid_match : Bytes → Bytes → ℕ → Bool
tgid_match entry_tgid dst_id_b dst_int = entry_tgid == dst_id_b || int_id entry_tgid == dst_int

-- The two tables of a talkgroup: its own and its reflector's.
abbrev pub both_keys : Text → List Text
both_keys relay_table_key = relay_table_key ∷ (hash ∷ relay_table_key) ∷ []

unfoldable pub obp_source_needs_ensure : SubscriptionStore → String → Text → ℕ → Bool
unfolding relay_tables_with_active_source has_table
obp_source_needs_ensure store system_name relay_table_key dst_int =
    let active_tables = relay_tables_with_active_source system_name 1 dst_int store in
    any (λ key. not (has_text key active_tables))
      (filter (λ key. has_table key store) (both_keys relay_table_key))

-- The leg of the OBP in the table with the key, by the four tests of the loop.
abbrev pub is_obp_source : String → Text → Bytes → ℕ → Subscription → Bool
is_obp_source system_name key dst_id_b dst_int sub =
    ((sub.system == system_name && table_key sub == key) && sub.channel.slot == 1)
    && tgid_match (bytes_3 sub.target_tgid) dst_id_b dst_int

unfoldable pub first_of : (Subscription → Bool) → List Subscription → Option Subscription
first_of p [] = none
first_of p (sub ∷ subs) = let rest = first_of p subs in if p sub then some sub else rest

abbrev pub obp_source : String → Text → ℕ → ℕ → Subscription
obp_source system_name key dst_int now = record {
  channel = record { tgid = dst_int; slot = 1 };
  system = system_name;
  target_tgid = dst_int;
  role = echo;
  policy = inband;
  state = record { phase = active; timer_expires_at = some now };
  relay_table_key = if is_reflector key then some key else none;
  timeout_seconds = none;
  triggers = no_triggers;
}

-- `patched`, by the leg that the loop stops at
abbrev pub patch : Option Subscription → Subscription → SubscriptionStore → SubscriptionStore
patch none sub store = upsert sub store
patch (some found) sub store =
    if is_active found then store else upsert (with_phase active found) store

unfoldable pub ensure_in_table :
    String → Bytes → ℕ → ℕ → Text → SubscriptionStore → SubscriptionStore
unfolding upsert has_table snapshot first_of
ensure_in_table system_name dst_id_b dst_int now key store =
    if has_table key store
    then patch (first_of (is_obp_source system_name key dst_id_b dst_int) (snapshot store))
        (obp_source system_name key dst_int now) store
    else store

unfoldable pub ensure_obp_source_for_tg :
    SubscriptionStore → String → Text → Bytes → ℕ → ℕ → SubscriptionStore
unfolding ensure_in_table
ensure_obp_source_for_tg store system_name relay_table_key dst_id_b dst_int now =
    ensure_in_table system_name dst_id_b dst_int now (hash ∷ relay_table_key)
      (ensure_in_table system_name dst_id_b dst_int now relay_table_key store)
