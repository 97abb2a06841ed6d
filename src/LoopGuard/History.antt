-- ===== src/LoopGuard/History.antt =====
-- How long a verdict lasts: `check` and `trim` of src/adn_server/application/routing/loop_guard.py.
use adn_dmr_peer_server.Prelude.{
  key_eq, string_eq, ℕ, ◌+◌, ◌≤◌, ◌≡◌, refl, ap, sym, ◌∙◌, Bool, true, Option, none, some, List, [],
  ◌∷◌, ◌==◌, leb, bytes_eq, list_beq_iff, inl, inr, Bool-cases, All, arith,
}
use adn_dmr_peer_server.Prelude.Dict
use adn_dmr_peer_server.Prelude.Dict.{Dict}
use adn_dmr_peer_server.Wire.{Bytes}
use adn_dmr_peer_server.LoopGuard.{
  Config, LoopEcho, Stream, Protocols, LoopGuard, evaluate, forget_after_ns, recorded, evaluated,
  GuardMode, guard_off, guard_log, guard_drop, loop_guard_mode,
}
use adn_dmr_peer_server.LoopGuard.Check.{check, cached_or, trim, trim_verdicts}

-- What the server does with the guard.
pub data Use : Type 0 where
  checks : Config → Protocols → Stream → Use
  trims : ℕ → Use

unfoldable pub use_all : List Use → LoopGuard → LoopGuard
unfolding check trim
use_all [] guard = guard
use_all (checks config protocols stream ∷ us) guard =
    use_all us (check config protocols stream guard).1
use_all (trims now ∷ us) guard = use_all us (trim now guard)

-- No trim is made later than that.
abbrev pub is_within : ℕ → Use → Bool
is_within end (checks config protocols stream) = true
is_within end (trims now) = leb now end

recorded-verdicts :
    (config : Config) (stream : Stream) (guard : LoopGuard) (answer : Option LoopEcho)
    → (recorded config stream guard answer).1.verdicts ≡ guard.verdicts
recorded-verdicts config stream guard none = refl
recorded-verdicts config stream guard (some echo) = refl

evaluate-verdicts :
    (config : Config) (protocols : Protocols) (stream : Stream) (guard : LoopGuard)
    → (evaluate config protocols stream guard).1.verdicts ≡ guard.verdicts
unfolding evaluate
evaluate-verdicts config protocols stream guard =
    by_mode (loop_guard_mode (Dict.get stream.system_name config.systems))
  where
    by_mode :
        (mode : GuardMode)
        → (evaluated config protocols stream guard mode).1.verdicts ≡ guard.verdicts
    by_mode guard_off = refl
    by_mode guard_log = recorded-verdicts config stream guard _
    by_mode guard_drop = recorded-verdicts config stream guard _

-- A check leaves every verdict that there is.
verdict-check :
    (config : Config) (protocols : Protocols) (stream : Stream) (guard : LoopGuard) (id : Bytes)
    (verdict : Option LoopEcho × ℕ)
    → Dict.get id guard.verdicts ≡ some verdict
    → Dict.get id (check config protocols stream guard).1.verdicts ≡ some verdict
unfolding check
verdict-check config protocols stream guard id verdict h =
    by_cache (Dict.get stream.stream_id guard.verdicts) refl
  where
    by_cache :
        (cached : Option (Option LoopEcho × ℕ))
        → Dict.get stream.stream_id guard.verdicts ≡ cached
        → Dict.get id (cached_or config protocols stream guard cached).1.verdicts ≡ some verdict
    by_cache (some (echo, at)) e = h
    by_cache none e =
        Dict.get-put stream.stream_id id _ (evaluate config protocols stream guard).1.verdicts
        ∙ elim (Bool-cases (stream.stream_id == id)) [
          | inl same ↦ absurd (
              cc (
                sym e,
                ap (λ i. Dict.get i guard.verdicts) ((list_beq_iff stream.stream_id id).0 same),
                h,
              ))
          | inr other ↦
              rw other (ap (Dict.get id) (evaluate-verdicts config protocols stream guard) ∙ h)
        ]

-- A trim leaves a verdict that is not older than it keeps.
verdict-trim :
    (now : ℕ) (id : Bytes) (echo : Option LoopEcho) (at : ℕ)
    (verdicts : Dict Bytes (Option LoopEcho × ℕ))
    → now ≤ at + forget_after_ns
    → Dict.get id verdicts ≡ some (echo, at)
    → Dict.get id (trim_verdicts now verdicts) ≡ some (echo, at)
unfolding trim_verdicts Dict.get
verdict-trim now id echo at [] near h = cc h
verdict-trim now id echo at ((k, (e, t)) ∷ verdicts) near h =
    ground (arith, verdict-trim now id echo at verdicts near, h)

check-cached :
    (config : Config) (protocols : Protocols) (stream : Stream) (guard : LoopGuard)
    (echo : Option LoopEcho) (at : ℕ)
    → Dict.get stream.stream_id guard.verdicts ≡ some (echo, at)
    → check config protocols stream guard ≡ (echo, guard)
unfolding check
check-cached config protocols stream guard echo at e =
    ap (cached_or config protocols stream guard) e

check-recorded :
    (config : Config) (protocols : Protocols) (stream : Stream) (guard : LoopGuard)
    → Dict.get stream.stream_id guard.verdicts ≡ none
    → Dict.get stream.stream_id (check config protocols stream guard).1.verdicts
      ≡ some ((check config protocols stream guard).0, stream.pkt_time)
unfolding check
check-recorded config protocols stream guard new = rw new (Dict.get-put_self stream.stream_id _ _)

use_all-keeps :
    (id : Bytes) (echo : Option LoopEcho) (at : ℕ) (us : List Use) (guard : LoopGuard)
    → All (λ u. is_within (at + forget_after_ns) u ≡ true) us
    → Dict.get id guard.verdicts ≡ some (echo, at)
    → Dict.get id (use_all us guard).verdicts ≡ some (echo, at)
unfolding use_all trim
use_all-keeps id echo at [] guard k h = h
use_all-keeps id echo at (checks config protocols stream ∷ us) guard (k, ks) h =
    use_all-keeps id echo at us _ ks (verdict-check config protocols stream guard id (echo, at) h)
use_all-keeps id echo at (trims now ∷ us) guard (k, ks) h =
    use_all-keeps id echo at us _ ks
      (verdict-trim now id echo at guard.verdicts (ground (arith, k)) h)

-- The verdict on a stream lasts: once it is checked for the first time, a later check of it gives the
-- same answer and changes nothing, whatever its frame, the configuration and the protocols then are
-- and whatever streams were checked and whenever the guard was trimmed between, so long as no trim was
-- made more than `forget_after_ns`, 300 seconds, after the first check.
pub check-again :
    (config config' : Config) (protocols protocols' : Protocols) (stream later : Stream)
    (us : List Use) (guard : LoopGuard)
    → Dict.get stream.stream_id guard.verdicts ≡ none
    → later.stream_id ≡ stream.stream_id
    → All (λ u. is_within (stream.pkt_time + 300_000_000_000) u ≡ true) us
    → let first = check config protocols stream guard in
      let after = use_all us first.1 in check config' protocols' later after ≡ (first.0, after)
check-again config config' protocols protocols' stream later us guard new same early =
    let first = check config protocols stream guard in
    let after = use_all us first.1 in
    check-cached config' protocols' later after first.0 stream.pkt_time (
      ap (λ id. Dict.get id after.verdicts) same
      ∙ use_all-keeps stream.stream_id first.0 stream.pkt_time us first.1 early
          (check-recorded config protocols stream guard new))
