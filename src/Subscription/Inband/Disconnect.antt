-- ===== src/Subscription/Inband/Disconnect.antt =====
-- A call of talkgroup 4000, src/adn_server/application/subscription/in_band_signalling_ops.py.
use adn_dmr_peer_server.Prelude.{
  ℕ, ◌≡◌, refl, ap, sym, ◌∙◌, Bool, true, false, not, ◌&&◌, ◌||◌, none, some, String, if◌then◌else◌,
  ◌==◌, nat_eq, nat_beq_iff, bytes_eq, string_eq, eq_iff, id_eq, inl, inr, Option-cases, Bool-cases,
  arith,
}
use adn_dmr_peer_server.Prelude.Dict
use adn_dmr_peer_server.Prelude.Decimal
use adn_dmr_peer_server.Prelude.Dict.{Dict}
use adn_dmr_peer_server.Wire.{int_id}
use adn_dmr_peer_server.Subscription.{
  Subscription, SubscriptionId, SubscriptionState, subscription_id, is_active, is_reflector,
  table_key, str_text, legacy_to_type, ToType, Text,
}
use adn_dmr_peer_server.Subscription.Timers.{is_special_tg}
use adn_dmr_peer_server.Subscription.Store.{SubscriptionStore}
use adn_dmr_peer_server.Subscription.Store.Sound.{IsSound}
use adn_dmr_peer_server.Subscription.Inband.{
  MasterBlock, master_block_or, Vterm, vterm, Changed, disconnect, in_band_steps, in_band_leg,
  matched, triggered_on, switched_off, rearmed, cut_short, single_mode_off, forced_off, ends, stays,
  is_forced, is_in, tgid_bytes, is_static, is_single_mode,
}
use adn_dmr_peer_server.Subscription.Inband.Signal.{
  apply_in_band_signalling, is_raised, store_of, Signalled,
}
use adn_dmr_peer_server.Subscription.Inband.Updates.{or_same, of_system, get-update_legs}
use adn_dmr_peer_server.Subscription.Inband.Steps.{
  restated, Steps, Steps-trans, matched-Steps, triggered_on-Steps, in_band-Steps,
}
use adn_dmr_peer_server.Subscription.Store.Reads.{list_by_system}
use adn_dmr_peer_server.Subscription.Inband.Refusals.{signal_legs-finished}

-- Only the state of a leg is changed.
pub restated-in_band_leg :
    (block : MasterBlock) (call : Vterm) (sub : Subscription) (state : SubscriptionState)
    → restated state (or_same sub (in_band_leg block call sub)) ≡ restated state sub
unfolding in_band_leg
restated-in_band_leg block call sub state =
    elim (Bool-cases (is_reflector (table_key sub) && not (call.dst_group == 9))) [
      | inl skipped ↦ rw skipped refl
      | inr seen ↦ rw seen (
          kept (in_band_steps block call (legacy_to_type sub) (is_active sub) sub)
            (in_band-Steps block call (legacy_to_type sub) (is_active sub) sub))
    ]
  where
    kept :
        (y : Changed)
        → Steps (sub, false) y
        → restated state (or_same sub (if y.1 then some y.0 else none)) ≡ restated state sub
    kept (next, true) s = s.frame state
    kept (next, false) s = refl

pub subscription_id-in_band_leg :
    (block : MasterBlock) (call : Vterm) (sub : Subscription)
    → subscription_id (or_same sub (in_band_leg block call sub)) ≡ subscription_id sub
subscription_id-in_band_leg block call sub =
    ap subscription_id (restated-in_band_leg block call sub sub.state)

table_key-in_band_leg :
    (block : MasterBlock) (call : Vterm) (sub : Subscription)
    → table_key (or_same sub (in_band_leg block call sub)) ≡ table_key sub
unfolding table_key
table_key-in_band_leg block call sub = ap table_key (restated-in_band_leg block call sub sub.state)

-- A leg outside the reflectors' tables is what the steps make of it.
or_same-in_band_leg :
    (block : MasterBlock) (call : Vterm) (sub : Subscription)
    → is_reflector (table_key sub) ≡ false
    → or_same sub (in_band_leg block call sub)
      ≡ (in_band_steps block call (legacy_to_type sub) (is_active sub) sub).0
unfolding in_band_leg
or_same-in_band_leg block call sub h = rw h (
    taken (in_band_steps block call (legacy_to_type sub) (is_active sub) sub)
      (in_band-Steps block call (legacy_to_type sub) (is_active sub) sub))
  where
    taken :
        (y : Changed) → Steps (sub, false) y → or_same sub (if y.1 then some y.0 else none) ≡ y.0
    taken (next, true) s = refl
    taken (next, false) s = sym (s.unchanged refl).0

-- Talkgroup 4000 is no service talkgroup.
special_4000 : is_special_tg (str_text 4000) ≡ false
unfolding is_special_tg str_text Decimal.str Decimal.int
special_4000 = refl

or_true : (b : Bool) → (b || true) ≡ true
or_true b = ground arith

forced_true : (a b : Bool) → ((a || true) || b) ≡ true
forced_true a b = ground arith

both : (a b : Bool) → a ≡ true → b ≡ true → (a && b) ≡ true
both a b h k = ground arith

and_false : (a b : Bool) → b ≡ false → (a && b) ≡ false
and_false a b h = ground arith

either :
    (b : Bool) (x y : Changed)
    → is_active x.0 ≡ false
    → is_active y.0 ≡ false
    → is_active (if b then x else y).0 ≡ false
either true x y h k = h
either false x y h k = k

module _ (block : MasterBlock) (slot pkt_time : ℕ) (k : ToType) (was_active : Bool) where
  abbrev call : Vterm
  call = vterm slot disconnect pkt_time

  -- The last steps set timers alone.
  finished_active :
      (x : Changed)
      → is_active (cut_short block call k was_active (rearmed block call k was_active x)).0
        ≡ is_active x.0
  finished_active (sub, changed) = ground arith

  switched_off_active : (x : Changed) → is_active (switched_off block call k was_active x).0 ≡ false
  switched_off_active (sub, changed) = ground arith

  ended_active :
      (b : Bool) (x : Changed)
      → b ≡ true
      → is_active
          (cut_short block call k was_active (
            rearmed block call k was_active
              (if b then switched_off block call k was_active x else x))).0
        ≡ false
  ended_active true x h =
      finished_active (switched_off block call k was_active x) ∙ switched_off_active x
  ended_active false x h = cc h

  chosen :
      (b : Bool) (y x : Changed)
      → b ≡ true
      → is_active y.0 ≡ false
      → is_active (if b then y else x).0 ≡ false
  chosen true y x h e = e
  chosen false y x h e = cc h

  not_special : (sub : Subscription) → stays block call k was_active sub ≡ false
  unfolding int_id
  not_special sub =
      and_false (is_static sub.policy && not (call.dst_id_b == tgid_bytes sub)) _ special_4000

  single_mode_off_active :
      (sub : Subscription) (changed : Bool)
      → sub.channel.slot ≡ slot
      → is_active (single_mode_off block call k was_active (sub, changed)).0 ≡ false
  unfolding int_id
  single_mode_off_active sub changed h =
      let over = ends block call k was_active sub in
      let kept = stays block call k was_active sub in
      let e : over ≡ true =
        or_true (is_in call sub.triggers.off || not (call.dst_id_b == tgid_bytes sub)) in
      chosen (call.slot == sub.channel.slot && (over || is_in call sub.triggers.reset)) _
        (sub, changed)
        (both _ _ ((nat_beq_iff slot sub.channel.slot).1 (sym h))
          (ap (λ b. b || is_in call sub.triggers.reset) e))
        (ended_active (over && not kept) (sub, changed) (both _ _ e (ap not (not_special sub))))

  forced_off_active :
      (sub : Subscription) (changed : Bool)
      → sub.channel.slot ≡ slot
      → is_active (forced_off block call k was_active (sub, changed)).0 ≡ false
  forced_off_active sub changed h =
      chosen (call.slot == sub.channel.slot) _ (sub, changed)
        ((nat_beq_iff slot sub.channel.slot).1 (sym h))
        (ended_active (is_forced block call k was_active sub) (sub, changed)
          (forced_true (is_in call sub.triggers.off) _))

  in_band_active :
      (sub : Subscription)
      → sub.channel.slot ≡ slot
      → is_active (in_band_steps block call k was_active sub).0 ≡ false
  unfolding in_band_steps
  in_band_active sub h =
      let on =
        triggered_on block call k was_active (matched block call k was_active (sub, false)) in
      let s : Steps (sub, false) on =
        Steps-trans _ _ _ (matched-Steps block call k was_active (sub, false)) (
          triggered_on-Steps block call k was_active
            (matched block call k was_active (sub, false))) in
      let same = ap (λ (l : Subscription). l.channel.slot) (s.frame sub.state) ∙ h in
      either (is_single_mode block call k was_active) (single_mode_off block call k was_active on)
        (forced_off block call k was_active on) (single_mode_off_active on.0 on.1 same)
        (forced_off_active on.0 on.1 same)

disconnected :
    (block : MasterBlock) (slot pkt_time : ℕ) (old sub : Subscription)
    → sub.channel.slot ≡ slot
    → is_reflector (table_key sub) ≡ false
    → some (
        if old.system == sub.system
        then or_same old (in_band_leg block (vterm slot disconnect pkt_time) old)
        else old)
      ≡ some sub
    → is_active sub ≡ false
disconnected block slot pkt_time old sub h r e = elim (Bool-cases (old.system == sub.system)) [
  | inl same ↦
      let call = vterm slot disconnect pkt_time in
      let eq : or_same old (in_band_leg block call old) ≡ sub = cc (rw same at e) in
      let t =
        ap (λ (k : Text). is_reflector k)
          (sym (table_key-in_band_leg block call old) ∙ ap table_key eq)
        ∙ r in
      let own =
        sym (
          ap (λ (l : Subscription). l.channel.slot) (restated-in_band_leg block call old old.state))
        ∙ ap (λ (l : Subscription). l.channel.slot) eq
        ∙ h in
      ap is_active (sym eq ∙ or_same-in_band_leg block call old t)
      ∙ in_band_active block slot pkt_time (legacy_to_type old) (is_active old) old own
  | inr other ↦
      let eq : old ≡ sub = cc (rw other at e) in
      absurd (
        cc
          (sym ((eq_iff old.system sub.system).1 (ap (λ (s : Subscription). s.system) eq)) ∙ other))
]

-- After a transmission to talkgroup 4000 on a slot that does not raise (`in_band-raised` says when it
-- does), in a sound store, no leg of its system on that slot is active but those of reflectors' tables,
-- whatever the legs' types, policies and triggers and the rest of the system's block are.
pub in_band-disconnect :
    (systems_cfg : Dict String MasterBlock) (slot pkt_time : ℕ) (store : SubscriptionStore)
    (id : SubscriptionId) (sub : Subscription)
    → IsSound store
    → is_raised (apply_in_band_signalling store sub.system slot disconnect pkt_time systems_cfg)
      ≡ false
    → Dict.get id
        (store_of
          (apply_in_band_signalling store sub.system slot disconnect pkt_time systems_cfg)).items
      ≡ some sub
    → sub.channel.slot ≡ slot
    → is_reflector (table_key sub) ≡ false
    → is_active sub ≡ false
unfolding apply_in_band_signalling
in_band-disconnect systems_cfg slot pkt_time store id sub v returned e h r =
    let block = master_block_or (Dict.get sub.system systems_cfg) in
    let done =
      signal_legs-finished block (vterm slot disconnect pkt_time) (list_by_system sub.system store)
        store returned in
    let got =
      sym (
        get-update_legs (in_band_leg block (vterm slot disconnect pkt_time))
          (subscription_id-in_band_leg block (vterm slot disconnect pkt_time)) id sub.system store
          v)
      ∙ ap (λ (r : Signalled). Dict.get id (store_of r).items) (sym done)
      ∙ e in
    elim (Option-cases (Dict.get id store.items)) [
      | inl missing ↦ absurd (cc (got, missing))
      | inr (old, found) ↦ disconnected block slot pkt_time old sub h r (
          ap
            (of_system (in_band_leg block (vterm slot disconnect pkt_time))
              (subscription_id-in_band_leg block (vterm slot disconnect pkt_time)) sub.system)
            (sym found)
          ∙ got)
    ]
