-- ===== src/Subscription/Inband/Steps.antt =====
-- What the steps of src/adn_server/application/subscription/in_band_signalling_ops.py keep of a leg.
use adn_dmr_peer_server.Prelude.{
  ◌≡◌, refl, ◌∙◌, Bool, true, false, if◌then◌else◌, nat_eq, bytes_eq, string_eq, id_eq,
}
use adn_dmr_peer_server.Subscription.{Subscription, SubscriptionState, ToType}
use adn_dmr_peer_server.Subscription.Inband.{
  MasterBlock, Vterm, Changed, in_band_steps, matched, switched_on, prolonged, triggered_on,
  switched_off, rearmed, cut_short, single_mode_off, forced_off, is_type_off,
}

-- The leg with a given state: two legs that agree so differ in their states alone.
abbrev pub restated : SubscriptionState → Subscription → Subscription
restated state sub = record sub { state = state }

-- A step changes no more than the state, and nothing where it says so.
pub record Steps (x y : Changed) : Type 0 where
  pub frame : (state : SubscriptionState) → restated state y.0 ≡ restated state x.0
  pub unchanged : y.1 ≡ false → (y.0 ≡ x.0) × (x.1 ≡ false)

pub Steps-refl : (x : Changed) → Steps x x
Steps-refl x = record { frame = λ state. refl; unchanged = λ h. (refl, h) }

pub Steps-trans : (x y z : Changed) → Steps x y → Steps y z → Steps x z
Steps-trans x y z s t = record {
  frame = λ state. t.frame state ∙ s.frame state;
  unchanged = λ h. let (e, h') = t.unchanged h in let (d, h'') = s.unchanged h' in (e ∙ d, h'');
}

-- A choice between two steps.
Steps-if : (b : Bool) (x y z : Changed) → Steps x y → Steps x z → Steps x (if b then y else z)
Steps-if true x y z s t = s
Steps-if false x y z s t = t

Steps-set :
    (x : Changed) (y : Subscription)
    → ((state : SubscriptionState) → restated state y ≡ restated state x.0)
    → Steps x (y, true)
Steps-set x y f = record { frame = f; unchanged = λ h. absurd (cc h) }

module _ (block : MasterBlock) (call : Vterm) (k : ToType) (was_active : Bool) where
  pub matched-Steps : (x : Changed) → Steps x (matched block call k was_active x)
  matched-Steps (sub, changed) =
      Steps-if _ _ _ _ (Steps-set (sub, changed) _ (λ state. refl)) (Steps-refl _)

  switched_on-Steps : (x : Changed) → Steps x (switched_on block call k was_active x)
  switched_on-Steps (sub, changed) = Steps-if was_active _ _ _ (Steps-refl _) (
      Steps-if (is_type_off k) _ _ _ (Steps-set (sub, changed) _ (λ state. refl))
        (Steps-set (sub, changed) _ (λ state. refl)))

  prolonged-Steps : (x : Changed) → Steps x (prolonged block call k was_active x)
  prolonged-Steps (sub, changed) =
      Steps-if _ _ _ _ (Steps-set (sub, changed) _ (λ state. refl)) (Steps-refl _)

  pub triggered_on-Steps : (x : Changed) → Steps x (triggered_on block call k was_active x)
  triggered_on-Steps (sub, changed) =
      Steps-if _ _ _ _ (Steps-trans _ _ _ (switched_on-Steps (sub, changed)) (prolonged-Steps _))
        (Steps-refl _)

  switched_off-Steps : (x : Changed) → Steps x (switched_off block call k was_active x)
  switched_off-Steps (sub, changed) =
      Steps-if _ _ _ _
        (Steps-if _ _ _ _ (Steps-set (sub, changed) _ (λ state. refl))
          (Steps-set (sub, changed) _ (λ state. refl)))
        (Steps-refl _)

  finished-Steps :
      (x : Changed)
      → Steps x (cut_short block call k was_active (rearmed block call k was_active x))
  finished-Steps x = Steps-trans _ _ _ (again x) (cut _)
    where
      again : (x : Changed) → Steps x (rearmed block call k was_active x)
      again (sub, changed) =
          Steps-if _ _ _ _ (Steps-set (sub, changed) _ (λ state. refl)) (Steps-refl _)

      cut : (x : Changed) → Steps x (cut_short block call k was_active x)
      cut (sub, changed) =
          Steps-if _ _ _ _ (Steps-set (sub, changed) _ (λ state. refl)) (Steps-refl _)

  single_mode_off-Steps : (x : Changed) → Steps x (single_mode_off block call k was_active x)
  single_mode_off-Steps (sub, changed) =
      Steps-if _ _ _ _
        (Steps-trans _ _ _ (Steps-if _ _ _ _ (switched_off-Steps (sub, changed)) (Steps-refl _))
          (finished-Steps _))
        (Steps-refl _)

  forced_off-Steps : (x : Changed) → Steps x (forced_off block call k was_active x)
  forced_off-Steps (sub, changed) =
      Steps-if _ _ _ _
        (Steps-trans _ _ _ (Steps-if _ _ _ _ (switched_off-Steps (sub, changed)) (Steps-refl _))
          (finished-Steps _))
        (Steps-refl _)

  pub in_band-Steps :
      (sub : Subscription) → Steps (sub, false) (in_band_steps block call k was_active sub)
  unfolding in_band_steps
  in_band-Steps sub =
      Steps-trans _ _ _ (Steps-trans _ _ _ (matched-Steps (sub, false)) (triggered_on-Steps _))
        (Steps-if _ _ _ _ (single_mode_off-Steps _) (forced_off-Steps _))
