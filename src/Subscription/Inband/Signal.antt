-- ===== src/Subscription/Inband/Signal.antt =====
-- The loop over the legs of a system in
-- src/adn_server/application/subscription/in_band_signalling_ops.py.
use adn_dmr_peer_server.Prelude.{
  id_eq, string_eq, ℕ, Bool, true, false, Option, none, some, List, [], ◌∷◌, String,
}
use adn_dmr_peer_server.Prelude.Dict
use adn_dmr_peer_server.Prelude.Dict.{Dict}
use adn_dmr_peer_server.Wire.{Bytes}
use adn_dmr_peer_server.Subscription.{Subscription, subscription_id}
use adn_dmr_peer_server.Subscription.Store.{SubscriptionStore, upsert}
use adn_dmr_peer_server.Subscription.Store.Reads.{list_by_system}
use adn_dmr_peer_server.Subscription.Inband.{
  MasterBlock, master_block_or, Vterm, vterm, in_band_leg, refused_leg,
}

-- A loop over legs that upserts those it changes.
abbrev pub upserted : Option Subscription → SubscriptionStore → SubscriptionStore
upserted none store = store
upserted (some sub) store = upsert sub store

unfoldable pub update_legs :
    (Subscription → Option Subscription) → List Subscription → SubscriptionStore → SubscriptionStore
unfolding upsert
update_legs f [] store = store
update_legs f (sub ∷ subs) store = update_legs f subs (upserted (f sub) store)

-- The store after the call, which returned or raised a `ValueError`.
pub data Signalled : Type 0 where
  finished value_error : SubscriptionStore → Signalled

abbrev pub store_of : Signalled → SubscriptionStore
store_of (finished store) = store
store_of (value_error store) = store

abbrev pub is_raised : Signalled → Bool
is_raised (finished store) = false
is_raised (value_error store) = true

-- The held leg is the object that was changed.
abbrev pub or_raised : Option Subscription → SubscriptionStore → Signalled → Signalled
or_raised none store rest = rest
or_raised (some left) store rest =
    value_error (record store { items = Dict.put (subscription_id left) left store.items })

unfoldable pub signal_legs : MasterBlock → Vterm → List Subscription → SubscriptionStore → Signalled
unfolding in_band_leg refused_leg upsert
signal_legs block call [] store = finished store
signal_legs block call (sub ∷ subs) store =
    let rest = signal_legs block call subs (upserted (in_band_leg block call sub) store) in
    or_raised (refused_leg block call sub) store rest

unfoldable pub apply_in_band_signalling :
    SubscriptionStore → String → ℕ → Bytes → ℕ → Dict String MasterBlock → Signalled
unfolding signal_legs list_by_system
apply_in_band_signalling store system_name slot dst_id pkt_time systems_cfg =
    signal_legs (master_block_or (Dict.get system_name systems_cfg)) (vterm slot dst_id pkt_time)
      (list_by_system system_name store) store
