-- ===== src/Subscription/Inband/Refusals.antt =====
-- When the loop of src/adn_server/application/subscription/in_band_signalling_ops.py raises.
use adn_dmr_peer_server.Prelude.{
  ℕ, ◌≡◌, refl, ◌∙◌, Bool, true, false, not, ◌&&◌, ◌||◌, Option, none, some, is_some, List, [], ◌∷◌,
  any, length, ◌==◌, if◌then◌else◌, nat_eq, bytes_eq, string_eq, id_eq, inl, inr, Option-cases,
  arith,
}
use adn_dmr_peer_server.Prelude.Dict
use adn_dmr_peer_server.Prelude.Dict.{Dict}
use adn_dmr_peer_server.Subscription.{Subscription, ToType, legacy_to_type, is_active, Text}
use adn_dmr_peer_server.Subscription.StaticTexts.{static_tgs, split_commas, int_items, Signed}
use adn_dmr_peer_server.Subscription.Store.{SubscriptionStore}
use adn_dmr_peer_server.Subscription.Inband.{
  MasterBlock, Vterm, disconnect, refused_leg, in_band_leg, is_static_tg, is_listed, is_passed_over,
  is_single_mode, triggered_on, matched,
}
use adn_dmr_peer_server.Subscription.Inband.Signal.{update_legs, finished, is_raised, signal_legs}

-- A loop that does not raise is one that upserts the legs it changes.
pub signal_legs-finished :
    (block : MasterBlock) (call : Vterm) (subs : List Subscription) (store : SubscriptionStore)
    → is_raised (signal_legs block call subs store) ≡ false
    → signal_legs block call subs store ≡ finished (update_legs (in_band_leg block call) subs store)
unfolding signal_legs update_legs
signal_legs-finished block call [] store h = refl
signal_legs-finished block call (sub ∷ subs) store h =
    elim (Option-cases (refused_leg block call sub)) [
      | inr (left, e) ↦ cc (rw e at h)
      | inl e ↦ rw e (signal_legs-finished block call subs _ (rw e at h))
    ]

raised-signal_legs :
    (block : MasterBlock) (call : Vterm) (subs : List Subscription) (store : SubscriptionStore)
    → is_raised (signal_legs block call subs store)
      ≡ any (λ sub. is_some (refused_leg block call sub)) subs
unfolding signal_legs
raised-signal_legs block call [] store = refl
raised-signal_legs block call (sub ∷ subs) store =
    elim (Option-cases (refused_leg block call sub)) [
      | inr (left, e) ↦ rw e refl
      | inl e ↦ rw e (raised-signal_legs block call subs _)
    ]

-- The text of a slot's static talkgroups is none that `int` takes, item by item.
abbrev pub is_unreadable : ℕ → MasterBlock → Bool
is_unreadable slot block =
    (slot == 1 && not (is_some (static_tgs block.ts1_static)))
    || (slot == 2 && not (is_some (static_tgs block.ts2_static)))

abbrev pub is_single_master : MasterBlock → Bool
is_single_master block = block.mode == "MASTER" && block.single_mode

-- No text at all is read as no talkgroups.
static_tgs-empty : (t : Text) → length t ≡ 0 → is_some (static_tgs t) ≡ true
unfolding static_tgs split_commas int_items
static_tgs-empty [] h = refl
static_tgs-empty (c ∷ t) h = cc h

static_tg-none :
    (block : MasterBlock) (call : Vterm) (k : ToType) (w : Bool)
    → not (is_some (is_static_tg block call k w)) ≡ is_unreadable call.slot block
static_tg-none block call k w =
    by_texts (length block.ts1_static) (length block.ts2_static) (static_tgs block.ts1_static)
      (static_tgs block.ts2_static) (static_tgs-empty block.ts1_static)
      (static_tgs-empty block.ts2_static)
  where
    by_texts :
        (n m : ℕ) (o p : Option (List Signed))
        → (n ≡ 0 → is_some o ≡ true)
        → (m ≡ 0 → is_some p ≡ true)
        → not (
            is_some (
              if not (n == 0) && call.slot == 1
              then is_listed block call k w o
              else if not (m == 0) && call.slot == 2
              then is_listed block call k w p
              else some false))
          ≡ ((call.slot == 1 && not (is_some o)) || (call.slot == 2 && not (is_some p)))
    by_texts n m none none f g = ground (arith, f, g)
    by_texts n m none (some p) f g = ground (arith, f, g)
    by_texts n m (some o) none f g = ground (arith, f, g)
    by_texts n m (some o) (some p) f g = ground (arith, f, g)

-- The text of a slot's static talkgroups.
abbrev pub static_text : ℕ → MasterBlock → Text
static_text slot block =
    if slot == 1 then block.ts1_static else if slot == 2 then block.ts2_static else []

blocked :
    (passed b c u : Bool) (sub : Subscription)
    → u ≡ false
    → is_some (if passed then none else if (b && c) && u then some sub else none) ≡ false
blocked passed b c u sub h = ground arith

readable_slot :
    (block : MasterBlock) (slot : ℕ)
    → is_some (static_tgs block.ts1_static) ≡ true
    → is_some (static_tgs block.ts2_static) ≡ true
    → is_unreadable slot block ≡ false
readable_slot block slot h k = ground arith

refused_leg-readable :
    (block : MasterBlock) (call : Vterm) (sub : Subscription)
    → is_some (static_tgs block.ts1_static) ≡ true
    → is_some (static_tgs block.ts2_static) ≡ true
    → is_some (refused_leg block call sub) ≡ false
unfolding refused_leg
refused_leg-readable block call sub h k =
    blocked (is_passed_over call sub)
      (not (is_single_mode block call (legacy_to_type sub) (is_active sub)))
      (call.dst_id_b == disconnect && call.slot == sub.channel.slot) _
      (triggered_on block call (legacy_to_type sub) (is_active sub)
        (matched block call (legacy_to_type sub) (is_active sub) (sub, false))).0
      (static_tg-none block call (legacy_to_type sub) (is_active sub)
        ∙ readable_slot block call.slot h k)

any_none :
    (p : Subscription → Bool) (subs : List Subscription)
    → ((s : Subscription) → p s ≡ false)
    → any p subs ≡ false
any_none p [] f = refl
any_none p (s ∷ subs) f = ground (arith, f s, any_none p subs f)

-- Whatever the transmission, nothing raises where both texts are read.
pub signal_legs-readable :
    (block : MasterBlock) (call : Vterm) (subs : List Subscription) (store : SubscriptionStore)
    → is_some (static_tgs block.ts1_static) ≡ true
    → is_some (static_tgs block.ts2_static) ≡ true
    → signal_legs block call subs store ≡ finished (update_legs (in_band_leg block call) subs store)
signal_legs-readable block call subs store h k = signal_legs-finished block call subs store (
    raised-signal_legs block call subs store
    ∙ any_none _ subs (λ sub. refused_leg-readable block call sub h k))
