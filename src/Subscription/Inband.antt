-- ===== src/Subscription/Inband.antt =====
-- src/adn_server/application/subscription/in_band_signalling_ops.py: what the end of a transmission does
-- to the legs of its system, with src/adn_server/application/subscription/trigger_bytes.py. Of a
-- system's block MODE, SINGLE_MODE and the texts of TS1_STATIC and TS2_STATIC are read; a `ValueError`
-- of these leaves the leg at hand changed in place and not indexed again.
pub mod Signal
pub mod Updates
pub mod Refusals
pub mod Steps
pub mod Disconnect
mod Tests
use adn_dmr_peer_server.Prelude.{
  ℕ, ◌+◌, ◌-◌, Bool, true, false, not, ◌&&◌, ◌||◌, Option, none, some, or_else, is_some, List, [],
  ◌∷◌, ◌++◌, String, any, take, length, leb, if◌then◌else◌, ◌==◌, nat_eq, bytes_eq, string_eq, map,
}
use adn_dmr_peer_server.Prelude.Dict
use adn_dmr_peer_server.Prelude.Dict.{Dict}
use adn_dmr_peer_server.Wire.{Bytes, bytes_3, int_id}
use adn_dmr_peer_server.Subscription.{
  Subscription, Text, ActivationPolicy, user_activated, static, inband, openbridge_stat, idle,
  active, is_active, table_key, str_text, subscription_id, is_reflector, ToType, type_none,
  type_stat, type_off, type_on, legacy_to_type, with_phase, with_timer, SubscriptionId,
}
use adn_dmr_peer_server.Subscription.Store.{SubscriptionStore, upsert}
use adn_dmr_peer_server.Subscription.Store.Reads.{list_by_system}
use adn_dmr_peer_server.Subscription.StaticTexts.{Signed, static_tgs, is_signed}
use adn_dmr_peer_server.Subscription.Timers.{is_special_tg}

-- An item of a trigger list.
pub data TriggerItem : Type 0 where
  raw : Bytes → TriggerItem
  number : ℕ → TriggerItem

abbrev pub trigger_bytes : TriggerItem → Bytes
trigger_bytes (raw item) = if leb 3 (length item) then take 3 item else bytes_3 (int_id item)
trigger_bytes (number n) = bytes_3 n

unfoldable pub trigger_bytes_tuple : List TriggerItem → List Bytes
trigger_bytes_tuple items = map trigger_bytes items

unfoldable pub dst_in_triggers : Bytes → ℕ → List Bytes → Bool
dst_in_triggers dst_id_b dst_group triggers =
    any (λ item. item == dst_id_b) triggers || any (λ item. int_id item == dst_group) triggers

pub record MasterBlock : Type 0 where
  pub mode : String
  pub single_mode : Bool
  pub ts1_static : Text
  pub ts2_static : Text

abbrev pub master_block_or : Option MasterBlock → MasterBlock
master_block_or none = record { mode = ""; single_mode = false; ts1_static = []; ts2_static = [] }
master_block_or (some block) = block

-- The end of a transmission.
pub record Vterm : Type 0 where
  pub slot : ℕ
  pub dst_id_b : Bytes
  pub dst_group : ℕ
  pub pkt_time : ℕ

abbrev pub vterm : ℕ → Bytes → ℕ → Vterm
vterm slot dst_id pkt_time = record {
  slot = slot;
  dst_id_b = if leb 3 (length dst_id) then dst_id else bytes_3 (int_id dst_id);
  dst_group = int_id dst_id;
  pkt_time = pkt_time;
}

abbrev pub is_in : Vterm → List Bytes → Bool
is_in call triggers = dst_in_triggers call.dst_id_b call.dst_group triggers

abbrev pub tgid_bytes : Subscription → Bytes
tgid_bytes sub = bytes_3 sub.target_tgid

abbrev tgid_matches : Subscription → Vterm → Bool
tgid_matches sub call = tgid_bytes sub == call.dst_id_b || sub.target_tgid == call.dst_group

abbrev pub timeout_sec : Option ℕ → ℕ
timeout_sec none = 0
timeout_sec (some n) = n

abbrev pub is_static : ActivationPolicy → Bool
is_static static = true
is_static user_activated = false
is_static inband = false
is_static openbridge_stat = false

abbrev is_type_on : ToType → Bool
is_type_on type_on = true
is_type_on type_off = false
is_type_on type_none = false
is_type_on type_stat = false

abbrev pub is_type_off : ToType → Bool
is_type_off type_off = true
is_type_off type_on = false
is_type_off type_none = false
is_type_off type_stat = false

-- `TG 4000`
abbrev pub disconnect : Bytes
disconnect = 0 ∷ 15 ∷ 160 ∷ []

-- A leg and whether it was changed.
abbrev pub Changed : Type 0
Changed = Subscription × Bool

-- The steps on a leg, by its type `to_type` and whether it was active at first.
module _ (block : MasterBlock) (call : Vterm) (to_type : ToType) (was_active : Bool) where
  abbrev pub timed : Changed → Changed
  timed (sub, changed) = (with_timer (call.pkt_time + timeout_sec sub.timeout_seconds) sub, true)

  abbrev pub cancelled : Changed → Changed
  cancelled (sub, changed) = (with_timer call.pkt_time sub, true)

  -- [1]
  abbrev pub matched : Changed → Changed
  matched (sub, changed) =
      if (call.slot == sub.channel.slot && tgid_matches sub call)
        && ((is_type_on to_type && was_active || is_type_off to_type && not was_active)
            && not (timeout_sec sub.timeout_seconds == 0))
      then timed (sub, changed)
      else (sub, changed)

  -- [2], [3]
  abbrev pub switched_on : Changed → Changed
  switched_on (sub, changed) =
      if was_active
      then (sub, changed)
      else if is_type_off to_type
      then cancelled (with_phase active sub, true)
      else timed (with_phase active sub, true)

  -- [4]
  abbrev pub prolonged : Changed → Changed
  prolonged (sub, changed) =
      if (is_active sub && is_type_on to_type) && not (timeout_sec sub.timeout_seconds == 0)
      then timed (sub, changed)
      else (sub, changed)

  abbrev pub triggered_on : Changed → Changed
  triggered_on (sub, changed) =
      if call.slot == sub.channel.slot && is_in call sub.triggers.on
      then prolonged (switched_on (sub, changed))
      else (sub, changed)

  -- [5], [6]
  abbrev pub switched_off : Changed → Changed
  switched_off (sub, changed) =
      if is_active sub
      then if is_type_on to_type
        then cancelled (with_phase idle sub, true)
        else (with_phase idle sub, true)
      else (sub, changed)

  -- [7]
  abbrev pub rearmed : Changed → Changed
  rearmed (sub, changed) =
      if (not (is_active sub) && is_type_off to_type) && not (timeout_sec sub.timeout_seconds == 0)
      then timed (sub, changed)
      else (sub, changed)

  -- [8]
  abbrev pub cut_short : Changed → Changed
  cut_short (sub, changed) =
      if (is_active sub && is_type_on to_type) && is_in call sub.triggers.off
      then cancelled (sub, changed)
      else (sub, changed)

  -- Whether the transmission is to another talkgroup, switches the leg off or disconnects it.
  abbrev pub ends : Subscription → Bool
  ends sub =
      (is_in call sub.triggers.off || not (call.dst_id_b == tgid_bytes sub))
      || call.dst_id_b == disconnect

  -- A static leg stays when a service talkgroup's call ends.
  abbrev pub stays : Subscription → Bool
  stays sub =
      (is_static sub.policy && not (call.dst_id_b == tgid_bytes sub))
      && is_special_tg (str_text call.dst_group)

  abbrev pub single_mode_off : Changed → Changed
  single_mode_off (sub, changed) =
      if call.slot == sub.channel.slot && (ends sub || is_in call sub.triggers.reset)
      then cut_short (
          rearmed
            (if ends sub && not (stays sub) then switched_off (sub, changed) else (sub, changed)))
      else (sub, changed)

  abbrev pub is_listed : Option (List Signed) → Option Bool
  is_listed none = none
  is_listed (some tgs) = some (any (is_signed call.dst_group) tgs)

  -- `none` is a `ValueError`.
  abbrev pub is_static_tg : Option Bool
  is_static_tg =
      if not (length block.ts1_static == 0) && call.slot == 1
      then is_listed (static_tgs block.ts1_static)
      else if not (length block.ts2_static == 0) && call.slot == 2
      then is_listed (static_tgs block.ts2_static)
      else some false

  -- A leg for which `is_static_tg` is none does not come here, see `refused_leg`.
  abbrev pub is_forced : Subscription → Bool
  is_forced sub =
      (is_in call sub.triggers.off || call.dst_id_b == disconnect)
      || (not (call.dst_id_b == tgid_bytes sub)
          && (not (or_else is_static_tg false) && not (is_reflector (table_key sub))))

  abbrev pub forced_off : Changed → Changed
  forced_off (sub, changed) =
      if call.dst_id_b == disconnect && call.slot == sub.channel.slot
      then cut_short
          (rearmed (if is_forced sub then switched_off (sub, changed) else (sub, changed)))
      else (sub, changed)

  abbrev pub is_single_mode : Bool
  is_single_mode = block.mode == "MASTER" && block.single_mode

  unfoldable pub in_band_steps : Subscription → Changed
  unfolding dst_in_triggers is_special_tg str_text table_key static_tgs
  in_band_steps sub =
      let on = triggered_on (matched (sub, false)) in
      if is_single_mode then single_mode_off on else forced_off on

-- The legs of reflectors' tables are left alone but by talkgroup 9.
abbrev pub is_passed_over : Vterm → Subscription → Bool
is_passed_over call sub = is_reflector (table_key sub) && not (call.dst_group == 9)

-- What is left of a leg at which `int` raises: the steps before the branch of talkgroup 4000 are done.
unfoldable pub refused_leg : MasterBlock → Vterm → Subscription → Option Subscription
unfolding in_band_steps legacy_to_type table_key static_tgs dst_in_triggers
refused_leg block call sub =
    let to_type = legacy_to_type sub in
    let was_active = is_active sub in
    let on =
      triggered_on block call to_type was_active
        (matched block call to_type was_active (sub, false)) in
    if is_passed_over call sub
    then none
    else if (not (is_single_mode block call to_type was_active)
          && (call.dst_id_b == disconnect && call.slot == sub.channel.slot))
        && not (is_some (is_static_tg block call to_type was_active))
    then some on.0
    else none

-- The new leg, where there is one, of a leg at which nothing raises.
unfoldable pub in_band_leg : MasterBlock → Vterm → Subscription → Option Subscription
unfolding in_band_steps legacy_to_type table_key
in_band_leg block call sub =
    let (next, changed) = in_band_steps block call (legacy_to_type sub) (is_active sub) sub in
    if is_passed_over call sub then none else if changed then some next else none
