-- ===== src/LoopGuard.antt =====
-- The loop guard of group voice: src/adn_server/application/routing/loop_guard.py. Times are numbers
-- of nanoseconds. `all_server_voice_ids` of the configuration, which another module reads, is the
-- list that the configuration holds here, and the state of the protocols is what the guard reads of
-- it. The log line of an echo is left out.
pub mod Check
pub mod Activity
pub mod Verdicts
pub mod History
mod Tests
use adn_dmr_peer_server.Prelude.{
  key_eq, ℕ, ◌+◌, ◌-◌, Bool, true, false, not, ◌&&◌, Option, none, some, or_else, is_some, List, [],
  ◌∷◌, String, ltb, leb, any, if◌then◌else◌, ◌==◌, nat_eq, bytes_eq, string_eq, option_beq,
}
use adn_dmr_peer_server.Prelude.Dict
use adn_dmr_peer_server.Prelude.Dict.{Dict}
use adn_dmr_peer_server.Wire.{Bytes, int_id}

-- LOOP_GUARD of a system: a flag, the text "log", or anything else
pub data GuardValue : Type 0 where
  flag : Bool → GuardValue
  log_only : GuardValue
  other_value : GuardValue

pub data GuardMode : Type 0 where
  guard_off guard_log guard_drop : GuardMode

pub record SysCfg : Type 0 where
  pub mode : String
  pub loop_guard : Option GuardValue

-- LOOP_GUARD_HOLD as `float()` reads it: nanoseconds, a number below zero, infinity or no number; and
-- `bad_hold` is what it refuses.
pub data HoldValue : Type 0 where
  hold : ℕ → HoldValue
  negative infinite not_a_number : HoldValue
  bad_hold : HoldValue

pub record Config : Type 0 where
  pub systems : Dict String SysCfg
  pub loop_guard_hold : Option HoldValue
  pub server_voice_ids : List ℕ

abbrev pub default_hold_ns : ℕ
default_hold_ns = 1_000_000_000

-- PLAYBACK_DELAY_S
abbrev pub max_hold_ns : ℕ
max_hold_ns = 2_000_000_000

abbrev pub forget_after_ns : ℕ
forget_after_ns = 300_000_000_000

abbrev mode_of : GuardValue → GuardMode
mode_of (flag false) = guard_off
mode_of (flag true) = guard_drop
mode_of log_only = guard_log
mode_of other_value = guard_drop

abbrev value_of : Option SysCfg → GuardValue
value_of none = flag true
value_of (some cfg) = or_else cfg.loop_guard (flag true)

unfoldable pub loop_guard_mode : Option SysCfg → GuardMode
loop_guard_mode sys_cfg = mode_of (value_of sys_cfg)

abbrev within_bounds : HoldValue → ℕ
within_bounds bad_hold = default_hold_ns
within_bounds negative = default_hold_ns
within_bounds infinite = default_hold_ns
within_bounds not_a_number = default_hold_ns
within_bounds (hold h) = if ltb 0 h && ltb h max_hold_ns then h else default_hold_ns

unfoldable pub loop_guard_hold : Config → ℕ
loop_guard_hold config = within_bounds (or_else config.loop_guard_hold (hold default_hold_ns))

-- A system and peer, or the whole mesh as one.
abbrev pub Ingress : Type 0
Ingress = Option String × Option Bytes

abbrev mesh_ingress : Ingress
mesh_ingress = (none, none)

abbrev pub ingress_beq : Ingress → Ingress → Bool
ingress_beq (s, p) (t, q) = option_beq s t && option_beq p q

pub record Leg : Type 0 where
  pub system : String
  pub peer_id : Option Bytes
  pub ingress : Ingress
  pub slot : ℕ
  pub stream_id : Bytes
  pub start : ℕ

pub record LoopEcho : Type 0 where
  pub drop : Bool
  pub original_system : String
  pub original_peer_id : Option Bytes
  pub original_stream_id : Bytes
  pub gap : ℕ

-- What `check` is told of a stream.
pub record Stream : Type 0 where
  pub system_name : String
  pub peer_id : Option Bytes
  pub slot : ℕ
  pub rf_src : Bytes
  pub dst_id : Bytes
  pub stream_id : Bytes
  pub pkt_time : ℕ

-- STATUS of a protocol: LAST and START by stream on OPENBRIDGE, RX_STREAM_ID and RX_TIME by slot else
pub record ObpStatus : Type 0 where
  pub last : Option ℕ
  pub started : Option ℕ

pub record SlotStatus : Type 0 where
  pub rx_stream_id : Option Bytes
  pub rx_time : Option ℕ

pub record Status : Type 0 where
  pub streams : Dict Bytes ObpStatus
  pub slots : Dict ℕ SlotStatus

-- `protocols`, those with a STATUS
abbrev pub Protocols : Type 0
Protocols = Dict String Status

-- `_legs` by `(rf_src, dst_id)`, and `_verdicts` with their times
pub record LoopGuard : Type 0 where
  pub legs : Dict (Bytes × Bytes) Leg
  pub verdicts : Dict Bytes (Option LoopEcho × ℕ)

-- `float(value or leg.start)`
abbrev pub or_start : ℕ → ℕ → ℕ
or_start value start = if value == 0 then start else value

abbrev pub stream_activity : Leg → Option ObpStatus → Option ℕ
stream_activity leg none = none
stream_activity leg (some st) =
    some (or_start (or_else st.last (or_else st.started leg.start)) leg.start)

abbrev pub slot_activity : Leg → Option SlotStatus → Option ℕ
slot_activity leg none = none
slot_activity leg (some st) =
    if option_beq st.rx_stream_id (some leg.stream_id)
    then some (or_start (or_else st.rx_time leg.start) leg.start)
    else none

abbrev pub is_openbridge : Option SysCfg → Bool
is_openbridge none = false
is_openbridge (some cfg) = cfg.mode == "OPENBRIDGE"

abbrev pub activity_in : Leg → Config → Option Status → Option ℕ
activity_in leg config none = none
activity_in leg config (some status) =
    if is_openbridge (Dict.get leg.system config.systems)
    then stream_activity leg (Dict.get leg.stream_id status.streams)
    else slot_activity leg (Dict.get leg.slot status.slots)

-- `_last_activity`
unfoldable pub last_activity : Leg → Protocols → Config → Option ℕ
last_activity leg protocols config = activity_in leg config (Dict.get leg.system protocols)

abbrev drops : GuardMode → Bool
drops guard_drop = true
drops _ = false

-- The peer and the ingress that a stream counts for.
abbrev peer_of : Config → Stream → Option Bytes
peer_of config stream =
    if is_openbridge (Dict.get stream.system_name config.systems) then none else stream.peer_id

abbrev pub ingress_of : Config → Stream → Ingress
ingress_of config stream =
    if is_openbridge (Dict.get stream.system_name config.systems)
    then mesh_ingress
    else (some stream.system_name, stream.peer_id)

abbrev echo_within : GuardMode → Config → Stream → Leg → Option ℕ → Option LoopEcho
echo_within mode config stream leg none = none
echo_within mode config stream leg (some last) =
    let gap = stream.pkt_time - last in
    if leb gap (loop_guard_hold config)
    then some (record {
      drop = drops mode;
      original_system = leg.system;
      original_peer_id = leg.peer_id;
      original_stream_id = leg.stream_id;
      gap = gap;
    })
    else none

abbrev echo_of : GuardMode → Config → Protocols → Stream → Option Leg → Option LoopEcho
echo_of mode config protocols stream none = none
echo_of mode config protocols stream (some leg) =
    if not (leg.stream_id == stream.stream_id)
      && not (ingress_beq leg.ingress (ingress_of config stream))
      && not (any (λ n. n == int_id stream.rf_src) config.server_voice_ids)
    then echo_within mode config stream leg (last_activity leg protocols config)
    else none

abbrev leg_of : Config → Stream → Leg
leg_of config stream = record {
  system = stream.system_name;
  peer_id = peer_of config stream;
  ingress = ingress_of config stream;
  slot = stream.slot;
  stream_id = stream.stream_id;
  start = stream.pkt_time;
}

abbrev recorded : Config → Stream → LoopGuard → Option LoopEcho → Option LoopEcho × LoopGuard
recorded config stream guard (some echo) = (some echo, guard)
recorded config stream guard none = (
  none,
  record guard { legs = Dict.put (stream.rf_src, stream.dst_id) (leg_of config stream) guard.legs },
)

abbrev evaluated : Config → Protocols → Stream → LoopGuard → GuardMode → Option LoopEcho × LoopGuard
evaluated config protocols stream guard guard_off = (none, guard)
evaluated config protocols stream guard mode =
    recorded config stream guard
      (echo_of mode config protocols stream (Dict.get (stream.rf_src, stream.dst_id) guard.legs))

-- `_evaluate`
unfoldable pub evaluate : Config → Protocols → Stream → LoopGuard → Option LoopEcho × LoopGuard
evaluate config protocols stream guard =
    evaluated config protocols stream guard
      (loop_guard_mode (Dict.get stream.system_name config.systems))
