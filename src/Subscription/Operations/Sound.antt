-- ===== src/Subscription/Operations/Sound.antt =====
-- The store under the operations of src/adn_server/application/subscription.
use adn_dmr_peer_server.Prelude.{
  ◌≡◌, ◌⊎◌, inl, inr, sym, ◌∙◌, Bool, true, false, ◌&&◌, not, List, [], ◌∷◌, All, any, ◌==◌, nat_eq,
  nat_beq_iff, Bool-cases, arith, ap,
}
use adn_dmr_peer_server.Wire.{Bytes}
use adn_dmr_peer_server.Subscription.{Subscription, AudioChannel}
use adn_dmr_peer_server.Subscription.Store.{SubscriptionStore, empty_store}
use adn_dmr_peer_server.Subscription.Store.Writes.{upsert-IsSound}
use adn_dmr_peer_server.Subscription.Store.Sound.{IsSound}
use adn_dmr_peer_server.Subscription.Store.Removal.{remove-IsSound}
use adn_dmr_peer_server.Subscription.Store.History.{
  Write, upserts, removes, clears, replaces, write-IsSound, empty-IsSound,
}
use adn_dmr_peer_server.Subscription.Store.Exact.{IsDirect, IsExact}
use adn_dmr_peer_server.Subscription.Store.Exact.Writes.{
  WritesDirect, upsert-IsExact, remove-IsExact, write-IsExact, empty-IsExact,
}
use adn_dmr_peer_server.Subscription.Operations.{Operation, writes, operate_all, is_allowed}
use adn_dmr_peer_server.Subscription.Operations.Kept.{Kept, operate_keeps}

Kept-IsSound : Kept IsSound (λ sub. Unit)
Kept-IsSound = record {
  upsert_keeps = λ sub store q v. upsert-IsSound sub store v;
  remove_keeps = remove-IsSound;
  held = λ store v id sub e. tt;
  same = λ s t e f q. tt;
  own = λ s e. tt;
  sound = λ store v. v;
}

Kept-IsExact : Kept IsExact IsDirect
Kept-IsExact = record {
  upsert_keeps = upsert-IsExact;
  remove_keeps = remove-IsExact;
  held = λ store v. v.direct;
  same = λ s t e f q. f ∙ q ∙ sym (ap (λ (c : AudioChannel). c.tgid) e);
  own = λ s e. e;
  sound = λ store v. v.sound;
}

-- The target of the leg is the talkgroup of its channel.
abbrev pub has_own_target : Subscription → Bool
has_own_target sub = sub.target_tgid == sub.channel.tgid

abbrev pub all_own_targets : List Subscription → Bool
all_own_targets [] = true
all_own_targets (sub ∷ subs) = has_own_target sub && all_own_targets subs

-- The legs that the operation is given are such.
abbrev pub gives_own_targets : {Acl : Type 0} → Operation Acl → Bool
gives_own_targets (writes (upserts sub)) = has_own_target sub
gives_own_targets (writes (replaces subs)) = all_own_targets subs
gives_own_targets _ = true

all_own_targets-IsDirect :
    (subs : List Subscription) → all_own_targets subs ≡ true → All IsDirect subs
all_own_targets-IsDirect [] h = tt
all_own_targets-IsDirect (sub ∷ subs) h = (
  (nat_beq_iff sub.target_tgid sub.channel.tgid).0 (ground (arith, h)),
  all_own_targets-IsDirect subs (ground (arith, h)),
)

module _ {Acl : Type 0} (acl_check : Bytes → Acl → Bool) where
  gives_own_targets-WritesDirect :
      (o : Operation Acl) (w : Write) → gives_own_targets o ≡ true → o ≡ writes w → WritesDirect w
  gives_own_targets-WritesDirect o w h e = by_write w (ap gives_own_targets (sym e) ∙ h)
    where
      by_write : (w : Write) → gives_own_targets {Acl = Acl} (writes w) ≡ true → WritesDirect w
      by_write (upserts sub) h = (nat_beq_iff sub.target_tgid sub.channel.tgid).0 h
      by_write (removes id) h = tt
      by_write clears h = tt
      by_write (replaces subs) h = all_own_targets-IsDirect subs h

  operate_all_from :
      (os : List (Operation Acl)) (store : SubscriptionStore)
      → All (λ o. is_allowed o ≡ true) os
      → IsSound store
      → IsSound (operate_all acl_check os store)
  unfolding operate_all
  operate_all_from [] store k v = v
  operate_all_from (o ∷ os) store (k, ks) v = operate_all_from os _ ks (
      operate_keeps IsSound (λ sub. Unit) Kept-IsSound acl_check o store k
        (λ w e. write-IsSound w store (ap is_allowed (sym e) ∙ k) v) v)

  operate_all-IsExact :
      (os : List (Operation Acl)) (store : SubscriptionStore)
      → All (λ o. is_allowed o ≡ true) os
      → any (λ o. not (gives_own_targets o)) os ≡ false
      → IsExact store
      → IsExact (operate_all acl_check os store)
  unfolding operate_all
  operate_all-IsExact [] store k d v = v
  operate_all-IsExact (o ∷ os) store (k, ks) d v = operate_all-IsExact os _ ks (ground (arith, d)) (
      operate_keeps IsExact IsDirect Kept-IsExact acl_check o store k
        (λ w e.
          write-IsExact w store (ap is_allowed (sym e) ∙ k)
            (gives_own_targets-WritesDirect o w (ground (arith, d)) e) v)
        v)

  -- After any sequence of operations on an empty store (writes, ticks of the rule timer, trims, OBP
  -- sources, in-band signals, deactivations and restored service legs, in any order), where no
  -- `replace_all` is given two legs of one id and no in-band signal has unreadable static talkgroups,
  -- the store is sound: every leg is held under its own id, each table and each system lists exactly
  -- the legs it has, each once, a target's count is the number of its active legs, and a table that is
  -- named as a target's source has an active leg of it. And the store is exact, so that the table of
  -- each active leg is named as a source of the leg's target, unless a write was given a leg whose
  -- target is not the talkgroup of its channel.
  pub operate_all-IsSound :
      (os : List (Operation Acl))
      → All (λ o. is_allowed o ≡ true) os
      → let store = operate_all acl_check os (empty_store 0) in
        IsSound store × ((any (λ o. not (gives_own_targets o)) os ≡ true) ⊎ IsExact store)
  operate_all-IsSound os k = (
    operate_all_from os (empty_store 0) k (empty-IsSound 0),
    elim (Bool-cases (any (λ o. not (gives_own_targets o)) os)) [
      | inl other ↦ inl other
      | inr own ↦ inr (operate_all-IsExact os (empty_store 0) k own (empty-IsExact 0))
    ],
  )
