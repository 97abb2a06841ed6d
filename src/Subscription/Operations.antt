-- ===== src/Subscription/Operations.antt =====
-- Everything that src/adn_server/application/subscription does to the store, in any order.
pub mod Kept
pub mod Sound
mod Tests
use adn_dmr_peer_server.Prelude.{ℕ, Bool, true, List, [], ◌∷◌, String, ◌&&◌, is_some, string_eq}
use adn_dmr_peer_server.Prelude.Dict
use adn_dmr_peer_server.Prelude.Dict.{Dict}
use adn_dmr_peer_server.Wire.{Bytes}
use adn_dmr_peer_server.Subscription.{Text}
use adn_dmr_peer_server.Subscription.Store.{SubscriptionStore}
use adn_dmr_peer_server.Subscription.Store.History.{Write, write, is_keyed}
use adn_dmr_peer_server.Subscription.Timers.{SystemBlock, apply_rule_timer, apply_stat_trimmer}
use adn_dmr_peer_server.Subscription.ObpSource.{ensure_obp_source_for_tg}
use adn_dmr_peer_server.Subscription.Inband.{MasterBlock, master_block_or}
use adn_dmr_peer_server.Subscription.Inband.Signal.{apply_in_band_signalling, store_of}
use adn_dmr_peer_server.Subscription.Reset.{
  ResetBlock, deactivate_system_legs, restore_prohibited_static_legs,
}
use adn_dmr_peer_server.Subscription.StaticTexts.{static_tgs}

pub data Operation (Acl : Type 0) : Type 0 where
  writes : Write → Operation Acl
  ticks : Dict String SystemBlock → ℕ → Operation Acl
  trims : Operation Acl
  ensures : String → Text → Bytes → ℕ → ℕ → Operation Acl
  signals : String → ℕ → Bytes → ℕ → Dict String MasterBlock → Operation Acl
  deactivates : String → ℕ → Operation Acl
  restores : String → ResetBlock Acl → ℕ → Operation Acl

module _ {Acl : Type 0} (acl_check : Bytes → Acl → Bool) where
  unfoldable pub operate : Operation Acl → SubscriptionStore → SubscriptionStore
  unfolding write apply_rule_timer apply_stat_trimmer ensure_obp_source_for_tg
      apply_in_band_signalling deactivate_system_legs restore_prohibited_static_legs
  operate (writes w) store = write w store
  operate (ticks systems_cfg now) store = (apply_rule_timer store systems_cfg now).store
  operate trims store = apply_stat_trimmer store
  operate (ensures name key dst_id_b dst_int now) store =
      ensure_obp_source_for_tg store name key dst_id_b dst_int now
  operate (signals name slot dst_id pkt_time systems_cfg) store =
      store_of (apply_in_band_signalling store name slot dst_id pkt_time systems_cfg)
  operate (deactivates name now) store = deactivate_system_legs store name now
  operate (restores name block now) store =
      restore_prohibited_static_legs acl_check store name block now

  unfoldable pub operate_all : List (Operation Acl) → SubscriptionStore → SubscriptionStore
  unfolding operate
  operate_all [] store = store
  operate_all (o ∷ os) store = operate_all os (operate o store)

-- The texts of the static talkgroups can be read.
abbrev is_readable : MasterBlock → Bool
is_readable block = is_some (static_tgs block.ts1_static) && is_some (static_tgs block.ts2_static)

-- No `replace_all` is given two legs of one id, and no in-band signal raises for its system's texts.
abbrev pub is_allowed : {Acl : Type 0} → Operation Acl → Bool
is_allowed (writes w) = is_keyed w
is_allowed (ticks systems_cfg now) = true
is_allowed trims = true
is_allowed (ensures name key dst_id_b dst_int now) = true
is_allowed (signals name slot dst_id pkt_time systems_cfg) =
    is_readable (master_block_or (Dict.get name systems_cfg))
is_allowed (deactivates name now) = true
is_allowed (restores name block now) = true
