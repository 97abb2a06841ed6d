-- ===== src/Subscription/Timers/Expiry.antt =====
-- Which legs a tick of src/adn_server/application/subscription/rule_timer_ops.py leaves active.
use adn_dmr_peer_server.Prelude.{
  ℕ, ◌≡◌, refl, ap, sym, ◌∙◌, Bool, true, false, not, ◌&&◌, Option, none, some, String, ltb,
  if◌then◌else◌, ◌==◌, bytes_eq, string_eq, id_eq, arith, inl, inr, Option-cases,
}
use adn_dmr_peer_server.Prelude.Dict
use adn_dmr_peer_server.Prelude.Dict.{Dict}
use adn_dmr_peer_server.Subscription.{
  Subscription, SubscriptionId, SubscriptionPhase, SubscriptionRole, ActivationPolicy, idle, active,
  hangtime, table_key, is_active, ToType, type_none, type_stat, type_off, type_on, legacy_to_type,
  is_active_phase, type_of_role, sink, source, passive_stat, echo, user_activated, static, inband,
  openbridge_stat,
}
use adn_dmr_peer_server.Subscription.Store.{SubscriptionStore}
use adn_dmr_peer_server.Subscription.Store.Sound.{IsSound}
use adn_dmr_peer_server.Subscription.Timers.{
  SystemBlock, block_of, is_infinite, infinite_verdict, timed_verdict, timer_of, verdict,
  leg_verdict, apply_rule_timer,
}
use adn_dmr_peer_server.Subscription.Timers.Loops.{advanced, phased}
use adn_dmr_peer_server.Subscription.Timers.Tick.{ticked_leg, get-apply_rule_timer}

-- An OFF leg is active.
pub off_active :
    (r : SubscriptionRole) (p : ActivationPolicy) (phase : SubscriptionPhase)
    → type_of_role r p phase ≡ type_off
    → is_active_phase phase ≡ true
off_active r p active e = refl
off_active echo p idle e = cc e
off_active passive_stat p idle e = cc e
off_active sink user_activated idle e = cc e
off_active sink static idle e = cc e
off_active sink inband idle e = cc e
off_active sink openbridge_stat idle e = cc e
off_active source user_activated idle e = cc e
off_active source static idle e = cc e
off_active source inband idle e = cc e
off_active source openbridge_stat idle e = cc e
off_active echo p hangtime e = cc e
off_active passive_stat p hangtime e = cc e
off_active sink user_activated hangtime e = cc e
off_active sink static hangtime e = cc e
off_active sink inband hangtime e = cc e
off_active sink openbridge_stat hangtime e = cc e
off_active source user_activated hangtime e = cc e
off_active source static hangtime e = cc e
off_active source inband hangtime e = cc e
off_active source openbridge_stat hangtime e = cc e

abbrev pub is_on : ToType → Bool
is_on type_on = true
is_on type_none = false
is_on type_stat = false
is_on type_off = false

-- Whether the timer of a leg counts and has run out.
abbrev pub has_expired : Dict String SystemBlock → ℕ → Subscription → Bool
has_expired systems_cfg now sub =
    (is_on (legacy_to_type sub)
      && not (is_infinite (block_of systems_cfg sub.system) (table_key sub) sub))
    && ltb (timer_of sub) now

-- A verdict gives no phase but idle, and that to each active leg whose timer has run out.
abbrev IsVerdict : Bool → Bool → Option SubscriptionPhase → Type 0
IsVerdict expired on none = (expired && on) ≡ false
IsVerdict expired on (some idle) = Unit
IsVerdict expired on (some active) = true ≡ false
IsVerdict expired on (some hangtime) = true ≡ false

timed_verdict-IsVerdict :
    (infinite : Bool) (k : ToType) (on expired is_obp : Bool)
    → (k ≡ type_off → on ≡ true)
    → IsVerdict
        ((is_on k && not infinite) && expired)
        on
        (if infinite then infinite_verdict k on else timed_verdict k on expired is_obp).1
timed_verdict-IsVerdict true type_on on expired is_obp h = refl
timed_verdict-IsVerdict true type_none on expired is_obp h = refl
timed_verdict-IsVerdict true type_stat on expired is_obp h = refl
timed_verdict-IsVerdict true type_off on expired is_obp h = rw (h refl) refl
timed_verdict-IsVerdict false type_on true true is_obp h = tt
timed_verdict-IsVerdict false type_on true false is_obp h = refl
timed_verdict-IsVerdict false type_on false true is_obp h = refl
timed_verdict-IsVerdict false type_on false false is_obp h = refl
timed_verdict-IsVerdict false type_none on expired is_obp h = refl
timed_verdict-IsVerdict false type_stat on expired is_obp h = refl
timed_verdict-IsVerdict false type_off on expired is_obp h = rw (h refl) refl

leg_verdict-IsVerdict :
    (systems_cfg : Dict String SystemBlock) (now : ℕ) (sub : Subscription)
    → IsVerdict
        (has_expired systems_cfg now sub)
        (is_active sub)
        (leg_verdict systems_cfg now (table_key sub) sub).1
unfolding verdict legacy_to_type
leg_verdict-IsVerdict systems_cfg now sub =
    timed_verdict-IsVerdict (is_infinite (block_of systems_cfg sub.system) (table_key sub) sub)
      (legacy_to_type sub) (is_active sub) (ltb (timer_of sub) now)
      ((block_of systems_cfg sub.system).mode == "OPENBRIDGE")
      (off_active sub.role sub.policy sub.state.phase)

-- A leg that stays active is unchanged, and its timer has not run out.
phased_active :
    (expired : Bool) (sub : Subscription) (o : Option SubscriptionPhase)
    (systems_cfg : Dict String SystemBlock) (now : ℕ)
    → IsVerdict expired (is_active sub) o
    → is_active (phased systems_cfg now o sub) ≡ true
    → (phased systems_cfg now o sub ≡ sub) × (expired ≡ false)
phased_active expired sub none systems_cfg now h a = (refl, ground (arith, h, a))
phased_active expired sub (some idle) systems_cfg now h a = cc
phased_active expired sub (some active) systems_cfg now h a = absurd (cc h)
phased_active expired sub (some hangtime) systems_cfg now h a = absurd (cc h)

kept : (b : Bool) (old sub : Subscription) → (if b then some old else none) ≡ some sub → old ≡ sub
kept true old sub e = cc
kept false old sub e = cc

still_active :
    (systems_cfg : Dict String SystemBlock) (now : ℕ) (old sub : Subscription)
    → advanced systems_cfg now old ≡ sub
    → is_active sub ≡ true
    → (old ≡ sub) × (has_expired systems_cfg now sub ≡ false)
still_active systems_cfg now old sub e a =
    let (same, timely) =
      phased_active (has_expired systems_cfg now old) old
        (leg_verdict systems_cfg now (table_key old) old).1 systems_cfg now
        (leg_verdict-IsVerdict systems_cfg now old) (ap is_active e ∙ a) in
    let eq = sym same ∙ e in (eq, ap (has_expired systems_cfg now) (sym eq) ∙ timely)

-- A leg that is active after a tick of the rule timer on a sound store was active, and just so, before
-- it, and its timer, where it counts, has not run out: a tick activates no leg, and it deactivates or
-- removes every active leg whose timer has run out.
pub apply_rule_timer-active :
    (systems_cfg : Dict String SystemBlock) (now : ℕ) (store : SubscriptionStore)
    (id : SubscriptionId) (sub : Subscription)
    → IsSound store
    → Dict.get id (apply_rule_timer store systems_cfg now).store.items ≡ some sub
    → is_active sub ≡ true
    → (Dict.get id store.items ≡ some sub) × (has_expired systems_cfg now sub ≡ false)
apply_rule_timer-active systems_cfg now store id sub v e a =
    elim (Option-cases (Dict.get id store.items)) [
      | inl missing ↦ absurd (
          cc (
            get-apply_rule_timer systems_cfg now id store v,
            ap (ticked_leg systems_cfg now store) missing,
            e,
          ))
      | inr (old, found) ↦
          let spec =
            sym (
              get-apply_rule_timer systems_cfg now id store v
              ∙ ap (ticked_leg systems_cfg now store) found)
            ∙ e in
          let (eq, timely) =
            still_active systems_cfg now old sub (kept _ (advanced systems_cfg now old) sub spec)
              a in
          (found ∙ ap some eq, timely)
    ]
