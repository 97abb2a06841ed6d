-- ===== src/LoopGuard/Verdicts.antt =====
-- What the loop guard judges an echo: src/adn_server/application/routing/loop_guard.py.
use adn_dmr_peer_server.Prelude.{
  key_eq, ℕ, ◌+◌, ◌≤◌, ◌<◌, ◌≡◌, ◌≢◌, ◌↔◌, refl, ap, sym, ◌∙◌, true, false, Option, none, some,
  is_some, any, ◌==◌, nat_eq, bytes_eq, list_beq_iff, option_beq_iff, string_eq, arith,
}
use adn_dmr_peer_server.Prelude.Dict
use adn_dmr_peer_server.Wire.{int_id}
use adn_dmr_peer_server.LoopGuard.{
  GuardMode, guard_off, guard_log, guard_drop, Config, loop_guard_mode, loop_guard_hold,
  max_hold_ns, Ingress, ingress_beq, Leg, LoopEcho, Stream, Protocols, LoopGuard, last_activity,
  ingress_of, evaluate, echo_of, echo_within, recorded, evaluated,
}
use adn_dmr_peer_server.LoopGuard.Activity.{LastFrame, last_activity-LastFrame}

-- Whatever is configured, the hold is longer than nothing and shorter than the delay of the parrot.
pub loop_guard_hold-bounds :
    (config : Config) → (0 < loop_guard_hold config) × (loop_guard_hold config < max_hold_ns)
unfolding loop_guard_hold
loop_guard_hold-bounds config = ground arith

-- The original is still known, and no more than the hold has passed since its last frame.
abbrev pub Recent : Config → Protocols → Stream → Leg → Type 0
Recent config protocols stream leg =
    (last : ℕ) × LastFrame leg protocols config last
    × (stream.pkt_time ≤ last + loop_guard_hold config)

-- The conditions of an echo of the stream that has the leg, in no order.
abbrev pub Echoes : Config → Protocols → Stream → Leg → Type 0
Echoes config protocols stream leg =
    (leg.stream_id ≢ stream.stream_id)
    × (leg.ingress ≢ ingress_of config stream)
    × (any (λ n. n == int_id stream.rf_src) config.server_voice_ids ≡ false)
    × Recent config protocols stream leg

ingress_beq_iff : (a b : Ingress) → (ingress_beq a b ≡ true) ↔ (a ≡ b)
ingress_beq_iff (s, p) (t, q) = ground (arith, option_beq_iff s t, option_beq_iff p q)

-- What `_evaluate` answers, from the system's mode and the leg of the source and the talkgroup.
abbrev pub Judged : Config → Protocols → Stream → GuardMode → Option Leg → Option LoopEcho → Type 0
Judged config protocols stream guard_off leg answer = answer ≡ none
Judged config protocols stream mode none answer = answer ≡ none
Judged config protocols stream mode (some leg) answer =
    ((is_some answer ≡ true) ↔ Echoes config protocols stream leg)

within_iff :
    (mode : GuardMode) (config : Config) (stream : Stream) (leg : Leg) (o : Option ℕ)
    → (is_some (echo_within mode config stream leg o) ≡ true)
      ↔ ((last : ℕ) × (o ≡ some last) × (stream.pkt_time ≤ last + loop_guard_hold config))
within_iff mode config stream leg none = ((λ h. cc h), (λ q. cc q.1))
within_iff mode config stream leg (some last) = (
  (λ h. (last, refl, ground arith)),
  (λ q. let same : last ≡ q.0 = cc q.1 in ground (arith, q.2)),
)

within_hold_iff :
    (mode : GuardMode) (config : Config) (protocols : Protocols) (stream : Stream) (leg : Leg)
    → (is_some (echo_within mode config stream leg (last_activity leg protocols config)) ≡ true)
      ↔ Recent config protocols stream leg
within_hold_iff mode config protocols stream leg =
    let (forth, back) = within_iff mode config stream leg (last_activity leg protocols config) in
    (
      (λ h.
          let (last, e, near) = forth h in
          (last, (last_activity-LastFrame leg protocols config last).0 e, near)),
      (λ q. back (q.0, (last_activity-LastFrame leg protocols config q.0).1 q.1, q.2)),
    )

echo_iff :
    (config : Config) (protocols : Protocols) (stream : Stream) (mode : GuardMode) (leg : Leg)
    → (is_some (echo_of mode config protocols stream (some leg)) ≡ true)
      ↔ Echoes config protocols stream leg
echo_iff config protocols stream mode leg = ground (
  arith,
  within_hold_iff mode config protocols stream leg,
  list_beq_iff leg.stream_id stream.stream_id,
  ingress_beq_iff leg.ingress (ingress_of config stream),
)

recorded-answer :
    (config : Config) (stream : Stream) (guard : LoopGuard) (answer : Option LoopEcho)
    → (recorded config stream guard answer).0 ≡ answer
recorded-answer config stream guard none = refl
recorded-answer config stream guard (some echo) = refl

answer_iff :
    (config : Config) (protocols : Protocols) (stream : Stream) (guard : LoopGuard)
    (mode : GuardMode) (leg : Leg)
    → (is_some (recorded config stream guard (echo_of mode config protocols stream (some leg))).0
        ≡ true)
      ↔ Echoes config protocols stream leg
answer_iff config protocols stream guard mode leg =
    let r = recorded-answer config stream guard (echo_of mode config protocols stream (some leg)) in
    let (forth, back) = echo_iff config protocols stream mode leg in
    ((λ h. forth (ap is_some (sym r) ∙ h)), (λ q. ap is_some r ∙ back q))

judged :
    (config : Config) (protocols : Protocols) (stream : Stream) (guard : LoopGuard)
    (mode : GuardMode) (leg : Option Leg)
    → Dict.get (stream.rf_src, stream.dst_id) guard.legs ≡ leg
    → Judged config protocols stream mode leg (evaluated config protocols stream guard mode).0
judged config protocols stream guard guard_off leg e = refl
judged config protocols stream guard guard_log none e = rw e
judged config protocols stream guard guard_log (some leg) e =
    rw e (answer_iff config protocols stream guard guard_log leg)
judged config protocols stream guard guard_drop none e = rw e
judged config protocols stream guard guard_drop (some leg) e =
    rw e (answer_iff config protocols stream guard guard_drop leg)

-- A stream is judged an echo exactly if the guard is not off where it enters, its source, which is
-- no server voice, already has another stream on its talkgroup, from another ingress, and the last
-- frame of that one is known and no longer ago than the hold.
pub evaluate-Judged :
    (config : Config) (protocols : Protocols) (stream : Stream) (guard : LoopGuard)
    → Judged config protocols stream
        (loop_guard_mode (Dict.get stream.system_name config.systems))
        (Dict.get (stream.rf_src, stream.dst_id) guard.legs)
        (evaluate config protocols stream guard).0
unfolding evaluate
evaluate-Judged config protocols stream guard =
    judged config protocols stream guard
      (loop_guard_mode (Dict.get stream.system_name config.systems)) _ refl
