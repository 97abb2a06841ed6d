-- ===== src/Subscription/Legacy/RoundTrip.antt =====
-- A row of src/adn_server/application/subscription/routing_table_export.py, read by routing_table_import.py
-- and written again.
use adn_dmr_peer_server.Prelude.{
  ℕ, ◌≡◌, ◌≢◌, refl, ap, ◌∙◌, Bool, true, false, Option, List, [], ◌∷◌, All, length, map,
  if◌then◌else◌, ◌==◌, nat_eq, nat_beq_iff, arith, ◌%◌, ◌^◌, ◌≢◌,
}
use adn_dmr_peer_server.Wire.{Bytes, bytes_3, int_id}
use adn_dmr_peer_server.Wire.RoundTrip.{int_id-bytes}
use adn_dmr_peer_server.Subscription.{
  ToType, type_none, type_stat, type_off, type_on, is_active_phase, type_of_role, active, idle,
  is_active, legacy_to_type, Subscription, Text,
}
use adn_dmr_peer_server.Subscription.Inband.{raw, trigger_bytes_tuple, trigger_bytes}
use adn_dmr_peer_server.Subscription.Legacy.{
  LegacyRow, legacy_on_off, legacy_timeout, on_or, role_from_to_type, policy_from_to_type,
  subscription_from_row, subscription_to_legacy_row,
}
use adn_dmr_peer_server.Subscription.Timers.Expiry.{off_active}

-- Triggers of three bytes are read as they are.
abbrev pub IsTgid : Bytes → Type 0
IsTgid b = length b ≡ 3

trigger_bytes-raw : (b : Bytes) → IsTgid b → trigger_bytes (raw b) ≡ b
trigger_bytes-raw [] h = absurd (omega arith)
trigger_bytes-raw (x ∷ []) h = absurd (omega arith)
trigger_bytes-raw (x ∷ y ∷ []) h = absurd (omega arith)
trigger_bytes-raw (x ∷ y ∷ z ∷ []) h = refl
trigger_bytes-raw (x ∷ y ∷ z ∷ w ∷ b) h = absurd (omega arith)

trigger_bytes_tuple-raw : (bs : List Bytes) → All IsTgid bs → trigger_bytes_tuple (map raw bs) ≡ bs
unfolding trigger_bytes_tuple
trigger_bytes_tuple-raw [] h = refl
trigger_bytes_tuple-raw (b ∷ bs) (h, hs) =
    ap (λ c. c ∷ trigger_bytes_tuple (map raw bs)) (trigger_bytes-raw b h)
    ∙ ap (λ cs. b ∷ cs) (trigger_bytes_tuple-raw bs hs)

bytes_wrapped : (n : ℕ) → bytes_3 (n % 2 ^ 24) ≡ bytes_3 n
unfolding bytes_3
bytes_wrapped n = ground arith

bytes-int_id-bytes : (n : ℕ) → bytes_3 (int_id (bytes_3 n)) ≡ bytes_3 n
bytes-int_id-bytes n = ap bytes_3 (int_id-bytes n []).0 ∙ bytes_wrapped n

-- A row says the type of its leg.
type_of_row :
    (k : ToType) (on : Bool)
    → (k ≡ type_off → on ≡ true)
    → type_of_role (role_from_to_type k) (policy_from_to_type k) (if on then active else idle) ≡ k
type_of_row type_none on h = refl
type_of_row type_stat on h = refl
type_of_row type_on true h = refl
type_of_row type_on false h = refl
type_of_row type_off true h = refl
type_of_row type_off false h = absurd (cc (h refl))

phase_active : (on : Bool) → is_active_phase (if on then active else idle) ≡ on
phase_active true = refl
phase_active false = refl

legacy_timeout_again :
    (k : ToType) (seconds : Option ℕ)
    → legacy_timeout (legacy_timeout seconds k) k ≡ legacy_timeout seconds k
legacy_timeout_again type_none seconds = refl
legacy_timeout_again type_stat seconds = refl
legacy_timeout_again type_off seconds = refl
legacy_timeout_again type_on seconds = refl

on_or_again : (bs : List Bytes) (b c : Bytes) → on_or (on_or bs b) c ≡ on_or bs b
on_or_again [] b c = refl
on_or_again (x ∷ bs) b c = refl

on_off_again :
    (k : ToType) (on off : List Bytes) (b c : Bytes)
    → legacy_on_off (legacy_on_off on off b k).0 (legacy_on_off on off b k).1 c k
      ≡ legacy_on_off on off b k
on_off_again type_none on off b c = refl
on_off_again type_stat on off b c = refl
on_off_again type_off on off b c = ap (λ l. (l, off)) (on_or_again on b c)
on_off_again type_on on off b c = ap (λ l. (l, off)) (on_or_again on b c)

on_off-All :
    (k : ToType) (on off : List Bytes) (n : ℕ)
    → All IsTgid on
    → All IsTgid off
    → All IsTgid (legacy_on_off on off (bytes_3 n) k).0
      × All IsTgid (legacy_on_off on off (bytes_3 n) k).1
unfolding bytes_3
on_off-All type_none on off n h g = (tt, tt)
on_off-All type_stat on off n h g = (tt, tt)
on_off-All type_off [] off n h g = ((refl, tt), g)
on_off-All type_off (x ∷ on) off n h g = (h, g)
on_off-All type_on [] off n h g = ((refl, tt), g)
on_off-All type_on (x ∷ on) off n h g = (h, g)

slot_again : (n : ℕ) → n ≢ 0 → (if n == 0 then 1 else n) ≡ n
slot_again n h = ground (arith, nat_beq_iff n 0)

same_row :
    (r s : LegacyRow)
    → r.system ≡ s.system
    → r.ts ≡ s.ts
    → r.tgid ≡ s.tgid
    → r.active ≡ s.active
    → r.timeout ≡ s.timeout
    → r.to_type ≡ s.to_type
    → r.on ≡ s.on
    → r.off ≡ s.off
    → r.reset ≡ s.reset
    → r.timer ≡ s.timer
    → r ≡ s
same_row r s e0 e1 e2 e3 e4 e5 e6 e7 e8 e9 = cc

-- A leg's triggers are talkgroups of three bytes.
abbrev pub HasTgids : Subscription → Type 0
HasTgids sub =
    All IsTgid sub.triggers.on × All IsTgid sub.triggers.off × All IsTgid sub.triggers.reset

-- The row of a leg on a slot other than 0 whose triggers have three bytes each, read as a leg of any
-- table and written again at any time, is the same row.
pub row-from_row :
    (sub : Subscription) (key : Text) (now later : ℕ)
    → sub.channel.slot ≢ 0
    → HasTgids sub
    → subscription_to_legacy_row
        (subscription_from_row key (subscription_to_legacy_row sub now))
        later
      ≡ subscription_to_legacy_row sub now
unfolding subscription_to_legacy_row subscription_from_row legacy_to_type
row-from_row sub key now later slot (ons, offs, resets) =
    let k = legacy_to_type sub in
    let row = subscription_to_legacy_row sub now in
    let next = subscription_from_row key row in
    let again : legacy_to_type next ≡ k =
      type_of_row k (is_active sub) (off_active sub.role sub.policy sub.state.phase) in
    let (on, off) = on_off-All k sub.triggers.on sub.triggers.off sub.channel.tgid ons offs in
    let lists =
      ap
        (λ (t : ToType).
          legacy_on_off next.triggers.on next.triggers.off (bytes_3 next.channel.tgid) t)
        again
      ∙ ap (λ l. legacy_on_off l next.triggers.off (bytes_3 next.channel.tgid) k)
          (trigger_bytes_tuple-raw row.on on)
      ∙ ap (λ l. legacy_on_off row.on l (bytes_3 next.channel.tgid) k)
          (trigger_bytes_tuple-raw row.off off)
      ∙ on_off_again k sub.triggers.on sub.triggers.off (bytes_3 sub.channel.tgid)
          (bytes_3 next.channel.tgid) in
    same_row (subscription_to_legacy_row next later) row refl (slot_again sub.channel.slot slot)
      (bytes-int_id-bytes sub.target_tgid) (phase_active (is_active sub))
      (ap (legacy_timeout row.timeout) again ∙ legacy_timeout_again k sub.timeout_seconds) again
      (ap (λ (l : List Bytes × List Bytes). l.0) lists)
      (ap (λ (l : List Bytes × List Bytes). l.1) lists)
      (trigger_bytes_tuple-raw sub.triggers.reset resets) refl
