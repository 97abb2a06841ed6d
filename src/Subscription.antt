-- ===== src/Subscription.antt =====
-- Talkgroup subscriptions: src/adn_server/domain/subscription.py, and what a row of the legacy tables
-- calls the type of a leg, `_legacy_to_type` of
-- src/adn_server/application/subscription/routing_table_export.py. A text that is a table's key is
-- the list of its code points. Times and timeouts are numbers of nanoseconds.
pub mod StaticTexts
pub mod Store
pub mod Router
pub mod ObpSource
pub mod Timers
pub mod Inband
pub mod Reset
pub mod Operations
pub mod Legacy
use adn_dmr_peer_server.Prelude.{
  ℕ, ◌+◌, ◌≡◌, ◌↔◌, Bool, true, false, ◌&&◌, Option, none, some, List, [], ◌∷◌, String, ◌==◌,
  nat_eq, string_eq, map, take, if◌then◌else◌, bytes_eq, eq_iff, nat_beq_iff, arith, leb, ◌-◌,
}
use adn_dmr_peer_server.Prelude.Decimal.{str, int}
use adn_dmr_peer_server.Wire.{Bytes}

pub data SubscriptionRole : Type 0 where
  sink source passive_stat echo : SubscriptionRole

pub data ActivationPolicy : Type 0 where
  user_activated static inband openbridge_stat : ActivationPolicy

pub data SubscriptionPhase : Type 0 where
  idle active hangtime : SubscriptionPhase

-- A talkgroup and a slot.
pub record AudioChannel : Type 0 where
  pub tgid : ℕ
  pub slot : ℕ

-- The channel's talkgroup and slot, and the system.
abbrev pub SubscriptionId : Type 0
SubscriptionId = ℕ × ℕ × String

pub record SubscriptionState : Type 0 where
  pub phase : SubscriptionPhase
  pub timer_expires_at : Option ℕ

pub record InbandTriggers : Type 0 where
  pub on : List Bytes
  pub off : List Bytes
  pub reset : List Bytes

abbrev pub no_triggers : InbandTriggers
no_triggers = record { on = []; off = []; reset = [] }

abbrev pub Text : Type 0
Text = List ℕ

pub record Subscription : Type 0 where
  pub channel : AudioChannel
  pub system : String
  pub target_tgid : ℕ
  pub role : SubscriptionRole
  pub policy : ActivationPolicy
  pub state : SubscriptionState
  pub relay_table_key : Option Text
  pub timeout_seconds : Option ℕ
  pub triggers : InbandTriggers

abbrev pub subscription_id : Subscription → SubscriptionId
subscription_id sub = (sub.channel.tgid, sub.channel.slot, sub.system)

abbrev pub is_active_phase : SubscriptionPhase → Bool
is_active_phase active = true
is_active_phase idle = false
is_active_phase hangtime = false

abbrev pub same_phase : SubscriptionPhase → SubscriptionPhase → Bool
same_phase idle idle = true
same_phase active active = true
same_phase hangtime hangtime = true
same_phase idle active = false
same_phase idle hangtime = false
same_phase active idle = false
same_phase active hangtime = false
same_phase hangtime idle = false
same_phase hangtime active = false

abbrev pub is_active : Subscription → Bool
is_active sub = is_active_phase sub.state.phase

-- `str(n)`
unfoldable pub str_text : ℕ → Text
str_text n = map (λ d. 48 + d) (str n)

abbrev pub is_digits : Text → Bool
is_digits [] = true
is_digits (c ∷ t) = (leb 48 c && leb c 57) && is_digits t

-- `int(text)` of a text of digits; of another text it is none, as where the source raises
unfoldable pub int_text : Text → Option ℕ
int_text [] = none
int_text (c ∷ t) = if is_digits (c ∷ t) then some (int (map (λ d. d - 48) (c ∷ t))) else none

-- "#", before the number of a reflector
abbrev pub hash : ℕ
hash = 35

abbrev pub is_reflector : Text → Bool
is_reflector key = take 1 key == hash ∷ []

abbrev key_or : Option Text → ℕ → Text
key_or none tgid = str_text tgid
key_or (some key) tgid = key

unfoldable pub table_key : Subscription → Text
table_key sub = key_or sub.relay_table_key sub.channel.tgid

-- TO_TYPE of a row
pub data ToType : Type 0 where
  type_none type_stat type_off type_on : ToType

abbrev pub type_of_policy : ActivationPolicy → SubscriptionPhase → ToType
type_of_policy static active = type_off
type_of_policy static idle = type_on
type_of_policy static hangtime = type_on
type_of_policy user_activated phase = type_on
type_of_policy inband phase = type_on
type_of_policy openbridge_stat phase = type_on

abbrev pub type_of_role : SubscriptionRole → ActivationPolicy → SubscriptionPhase → ToType
type_of_role echo policy phase = type_none
type_of_role passive_stat policy phase = type_stat
type_of_role sink policy phase = type_of_policy policy phase
type_of_role source policy phase = type_of_policy policy phase

unfoldable pub legacy_to_type : Subscription → ToType
legacy_to_type sub = type_of_role sub.role sub.policy sub.state.phase

abbrev pub with_phase : SubscriptionPhase → Subscription → Subscription
with_phase phase sub = record sub {
  state = record { phase = phase; timer_expires_at = sub.state.timer_expires_at };
}

abbrev pub with_timer : ℕ → Subscription → Subscription
with_timer at sub = record sub {
  state = record { phase = sub.state.phase; timer_expires_at = some at };
}
