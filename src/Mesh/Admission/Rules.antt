-- ===== src/Mesh/Admission/Rules.antt =====
-- src/adn_server/domain/mesh_admission.py: the rules on the identity, the age and the path of a
-- frame. A rule answers `none` to let the frame through.
use adn_dmr_peer_server.Prelude.{
  ℕ, ◌+◌, Bool, true, false, not, ◌&&◌, ◌||◌, Option, none, some, [], ◌∷◌, String, ltb, leb,
  if◌then◌else◌, ◌==◌, nat_eq, bytes_eq, length, take, any,
}
use adn_dmr_peer_server.Prelude.Decimal.{str, prefix}
use adn_dmr_peer_server.Wire.{Bytes, int_id, from_bytes}
use adn_dmr_peer_server.Mesh.Admission.{
  debug, warning, error, text, num, ObpFrame, dst, Rejection, MeshEnvelope, AdmissionContext,
}

abbrev pub max_hops : ℕ
max_hops = 10

-- MAX_PACKET_AGE_S, in nanoseconds
abbrev pub max_packet_age_ns : ℕ
max_packet_age_ns = 5_000_000_000

-- SERVER_ID as configured. `malformed` is what `int()` refuses.
pub data ServerIdValue : Type 0 where
  number : ℕ → ServerIdValue
  octets : Bytes → ServerIdValue
  malformed : ServerIdValue

unfoldable pub server_prefix : ServerIdValue → ℕ
server_prefix (number n) = prefix 4 n
server_prefix (octets bs) = prefix 4 (from_bytes bs)
server_prefix malformed = 0

unfoldable pub check_network_id : String → Bytes → Bytes → Bytes → Bool → Option Rejection
check_network_id system stream_id expected received dmre =
    if expected == received
    then none
    else some (record {
      reason = "network-id-mismatch";
      message =
          if dmre
          then "(%s) OpenBridge DMRE discarded because NETWORK_ID: %s Does not match sent Peer ID: %s"
          else "(%s) OpenBridge packet discarded because NETWORK_ID: %s Does not match sent Peer ID: %s";
      args = text system ∷ num (int_id expected) ∷ num (int_id received) ∷ [];
      level = error;
      quench = false;
      log_once = true;
    })

unfoldable pub check_slot : ObpFrame → Option Rejection
check_slot frame =
    if frame.slot == 1
    then none
    else some (record {
      reason = "not-slot-1";
      message =
          "(%s) OpenBridge packet discarded because it was not received on slot 1. SID: %s, TGID %s";
      args = text frame.system ∷ num (int_id frame.rf_src) ∷ num (int_id frame.dst_id) ∷ [];
      level = error;
      quench = false;
      log_once = false;
    })

unfoldable pub check_stun : ObpFrame → Bool → Option Rejection
check_stun frame stunned =
    if not stunned
    then none
    else some (record {
      reason = "stunned";
      message = "(%s) Bridge STUNned, discarding";
      args = text frame.system ∷ [];
      level = warning;
      quench = false;
      log_once = true;
    })

-- `timestamp_ns / 1e9 >= now - 5.0`, with `now` in nanoseconds
unfoldable pub check_packet_age : ObpFrame → MeshEnvelope → ℕ → Option Rejection
check_packet_age frame envelope now =
    if leb now (envelope.timestamp_ns + max_packet_age_ns)
    then none
    else some (record {
      reason = "stale-packet";
      message = "(%s) Packet from server %s more than 5s old!, discarding";
      args = text frame.system ∷ num envelope.source_server ∷ [];
      level = warning;
      quench = true;
      log_once = true;
    })

abbrev source_rejection : ObpFrame → MeshEnvelope → String → String → Rejection
source_rejection frame envelope why what = record {
  reason = why;
  message = what;
  args = text frame.system ∷ num envelope.source_server ∷ [];
  level = warning;
  quench = true;
  log_once = true;
}

-- `ctx.resolve_server_id is not None and not ctx.resolve_server_id(id)`
abbrev pub unresolved : Option (Bytes → Bool) → Bytes → Bool
unresolved none id = false
unresolved (some resolve) id = not (resolve id)

unfoldable pub check_source_server : ObpFrame → MeshEnvelope → AdmissionContext → Option Rejection
check_source_server frame envelope ctx =
    let digits = str envelope.source_server in
    if ltb (length digits) 4 || ltb 7 (length digits)
    then some (
        source_rejection frame envelope "source-server-length"
          "(%s) Source Server should be between 4 and 7 digits, discarding Src: %s")
    else if ctx.validate_server_ids
        && (length digits == 4 || length digits == 5)
        && not (any (λ known. known == take 4 digits) ctx.known_server_prefixes)
    then some (
        source_rejection frame envelope "source-server-unknown"
          "(%s) Source Server ID is 4 or 5 digits but not in list: %s")
    else if ltb 5 (length digits) && unresolved ctx.resolve_server_id envelope.source_server_id
    then some (
        source_rejection frame envelope "source-server-invalid"
          "(%s) Source Server 6 or 7 digits but not a valid DMR ID, discarding Src: %s")
    else none

unfoldable pub check_hops : ObpFrame → MeshEnvelope → Option Rejection
check_hops frame envelope =
    let hops = envelope.hops + 1 in
    if leb hops max_hops
    then none
    else some (record {
      reason = "max-hops";
      message = "(%s) MAX HOPS exceed, dropping. Hops: %s, DST: %s, SRC: %s";
      args = text frame.system ∷ num hops ∷ num (dst frame) ∷ num envelope.source_server ∷ [];
      level = debug;
      quench = true;
      log_once = false;
    })
