-- ===== src/Subscription/Reset/Silence.antt =====
-- After src/adn_server/application/subscription/subscription_reset_ops.py has put a system's legs to idle.
use adn_dmr_peer_server.Prelude.{
  ℕ, ◌≡◌, refl, ap, sym, ◌∙◌, true, false, some, List, [], ◌∷◌, String, All, if◌then◌else◌, ◌==◌,
  string_eq, id_eq, leg_eq, leg_beq_iff, eq_iff, inl, inr, Option-cases, Bool-cases, arith,
}
use adn_dmr_peer_server.Prelude.Dict
use adn_dmr_peer_server.Subscription.{
  Subscription, SubscriptionId, subscription_id, is_active, Text,
}
use adn_dmr_peer_server.Subscription.Store.{SubscriptionStore, IndexKey, index_key}
use adn_dmr_peer_server.Subscription.Store.Sound.{IsSound}
use adn_dmr_peer_server.Subscription.Store.Reads.{list_by_system}
use adn_dmr_peer_server.Subscription.Inband.Updates.{
  get-update_legs, update_legs-IsSound, of_system,
}
use adn_dmr_peer_server.Subscription.Router.{
  VoiceIngress, targets, resolve, forward_all, bridge_match_slot,
}
use adn_dmr_peer_server.Subscription.Router.Safety.{IsTarget, targets-IsTarget}
use adn_dmr_peer_server.Subscription.Reset.{deactivated_leg, deactivate_system_legs}
use adn_dmr_peer_server.Subscription.Store.Agrees.{is_source}

pub deactivate_system_legs-IsSound :
    (store : SubscriptionStore) (name : String) (now : ℕ)
    → IsSound store
    → IsSound (deactivate_system_legs store name now)
unfolding deactivate_system_legs
deactivate_system_legs-IsSound store name now v =
    update_legs-IsSound (λ sub. some (deactivated_leg now sub)) (list_by_system name store) store v

idle_after :
    (name : String) (now : ℕ) (old sub : Subscription)
    → some (if old.system == name then deactivated_leg now old else old) ≡ some sub
    → sub.system ≡ name
    → is_active sub ≡ false
unfolding deactivated_leg
idle_after name now old sub e h = elim (Bool-cases (old.system == name)) [
  | inl same ↦ let eq : deactivated_leg now old ≡ sub = cc (rw same at e) in ap is_active (sym eq)
  | inr other ↦
      let eq : old ≡ sub = cc (rw other at e) in
      absurd
        (cc (sym ((eq_iff old.system name).1 (ap (λ (s : Subscription). s.system) eq ∙ h)) ∙ other))
]

-- No leg of the system is active.
inactive :
    (name : String) (now : ℕ) (store : SubscriptionStore) (id : SubscriptionId) (sub : Subscription)
    → IsSound store
    → Dict.get id (deactivate_system_legs store name now).items ≡ some sub
    → sub.system ≡ name
    → is_active sub ≡ false
unfolding deactivate_system_legs deactivated_leg
inactive name now store id sub v e h =
    let got =
      sym (get-update_legs (λ s. some (deactivated_leg now s)) (λ s. refl) id name store v) ∙ e in
    elim (Option-cases (Dict.get id store.items)) [
      | inl missing ↦ absurd (cc (got, missing))
      | inr (old, found) ↦
          idle_after name now old sub
            (ap (of_system (λ s. some (deactivated_leg now s)) (λ s. refl) name) (sym found) ∙ got)
            h
    ]

source_parts :
    (key : IndexKey) (t : Text) (s : Subscription)
    → is_source key t s ≡ true
    → (is_active s ≡ true) × (index_key s ≡ key)
source_parts key t s h = (ground (arith, h), (leg_beq_iff (index_key s) key).0 (ground (arith, h)))

nothing :
    (P : Subscription → Type 0) (subs : List Subscription)
    → ((s : Subscription) → P s → true ≡ false)
    → All P subs
    → subs ≡ []
nothing P [] f ps = refl
nothing P (s ∷ subs) f (p, ps) = absurd (cc (f s p))

-- Right after a system's legs are deactivated, in a sound store, no voice packet of the system is
-- forwarded to any leg, whatever its slot and talkgroup are and whether or not the system is an OBP.
pub resolve-deactivate_system_legs :
    (store : SubscriptionStore) (now : ℕ) (ingress : VoiceIngress)
    → IsSound store
    → resolve ingress (deactivate_system_legs store ingress.source_system now) ≡ []
unfolding resolve forward_all
resolve-deactivate_system_legs store now ingress v =
    let name = ingress.source_system in
    let after = deactivate_system_legs store name now in
    ap forward_all (
      nothing (IsTarget ingress after) (targets ingress after)
        (λ s target.
          let (on, other, held, (t, listed, (source, is_held, feeds))) = target in
          let (works, eq) =
            source_parts (name, bridge_match_slot ingress, ingress.dst_tgid) t source feeds in
          sym works
          ∙ inactive name now store (subscription_id source) source v is_held
              (ap (λ (k : IndexKey). k.0) eq))
        (targets-IsTarget ingress after (deactivate_system_legs-IsSound store name now v)).0)
