-- ===== src/Subscription/Inband/Tests.antt =====
-- A call of talkgroup 4000 on a store with a static and a user's leg.
use adn_dmr_peer_server.Prelude.{
  ◌≡◌, refl, true, false, none, List, [], ◌∷◌, id_eq, String, string_eq, some, nat_eq,
}
use adn_dmr_peer_server.Prelude.Dict
use adn_dmr_peer_server.Prelude.Dict.{Dict}
use adn_dmr_peer_server.Prelude.Decimal
use adn_dmr_peer_server.Wire.{bytes_3, int_id}
use adn_dmr_peer_server.Subscription.{
  Subscription, active, idle, table_key, str_text, legacy_to_type, with_phase, with_timer,
  is_active, int_text,
}
use adn_dmr_peer_server.Subscription.Store.{SubscriptionStore, empty_store}
use adn_dmr_peer_server.Subscription.Store.History.{
  Write, replaces, writes, writes-IsSound, all_distinct,
}
use adn_dmr_peer_server.Subscription.Store.Tests.{a_leg}
use adn_dmr_peer_server.Subscription.Timers.{is_special_tg}
use adn_dmr_peer_server.Subscription.Inband.{
  MasterBlock, dst_in_triggers, trigger_bytes_tuple, raw, number,
}
use adn_dmr_peer_server.Subscription.Inband.Signal.{apply_in_band_signalling}
use adn_dmr_peer_server.Subscription.Inband.Disconnect.{in_band-disconnect}
use adn_dmr_peer_server.Subscription.StaticTexts.{
  static_tgs, split_commas, int_items, int_item, strip_start, strip_end, digits_of,
}

abbrev two_legs : List Write
two_legs = replaces (a_leg "MASTER-A" 2 none active ∷ a_leg "MASTER-B" 2 none active ∷ []) ∷ []

abbrev a_store : SubscriptionStore
a_store = writes two_legs (empty_store 0)

abbrev systems_cfg : Dict String MasterBlock
systems_cfg =
    ("MASTER-A", record { mode = "MASTER"; single_mode = true; ts1_static = []; ts2_static = [] })
    ∷ []

abbrev left_leg : Subscription
left_leg = with_timer 50 (with_phase idle (a_leg "MASTER-A" 2 none active))

in_band-disconnect_example : is_active left_leg ≡ false
unfolding all_distinct apply_in_band_signalling dst_in_triggers is_special_tg legacy_to_type writes
    Dict.get Dict.put Dict.pop table_key str_text Decimal.str Decimal.int bytes_3 int_id
in_band-disconnect_example =
    in_band-disconnect systems_cfg 2 50 a_store (730, 2, "MASTER-A") left_leg
      (writes-IsSound two_legs (refl, tt)) refl refl refl refl

trigger_test :
    trigger_bytes_tuple (raw (0 ∷ 2 ∷ 218 ∷ []) ∷ number 730 ∷ [])
    ≡ (0 ∷ 2 ∷ 218 ∷ []) ∷ (0 ∷ 2 ∷ 218 ∷ []) ∷ []
unfolding trigger_bytes_tuple bytes_3
trigger_test = refl

-- TS2_STATIC is "91,xyz" and the system is not in single mode.
abbrev unreadable_cfg : Dict String MasterBlock
unreadable_cfg =
    (
      "MASTER-A",
      record {
        mode = "MASTER";
        single_mode = false;
        ts1_static = [];
        ts2_static = 57 ∷ 49 ∷ 44 ∷ 120 ∷ 121 ∷ 122 ∷ [];
      },
    )
    ∷ []

-- " +91, , 7_3 " are two talkgroups, "9-1" is none.
static_tgs_test :
    static_tgs (32 ∷ 43 ∷ 57 ∷ 49 ∷ 44 ∷ 32 ∷ 44 ∷ 32 ∷ 55 ∷ 95 ∷ 51 ∷ 32 ∷ [])
    ≡ some ((false, 91) ∷ (false, 73) ∷ [])
unfolding static_tgs split_commas int_items int_item strip_start strip_end digits_of int_text
    Decimal.int
static_tgs_test = refl
