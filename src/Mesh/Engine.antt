-- ===== src/Mesh/Engine.antt =====
-- src/adn_server/domain/mesh_engine.py: what a link does with a verified frame, as effects. A `bytes`
-- that is indexed out of range, and a number that does not fit its byte, raise; `ingress.hops` is
-- taken as `bytes`, which is its declared type. Each handler returns its answer and the session.
pub mod Ingest
pub mod Delivery
pub mod Effects
pub mod Hops
mod Tests
use adn_dmr_peer_server.Prelude.{
  ℕ, ◌+◌, Bool, true, false, not, ◌&&◌, ◌||◌, Option, none, some, or_else, List, [], ◌∷◌, ◌++◌,
  String, ltb, leb, within, if◌then◌else◌, ◌==◌, nat_eq, length, take, drop, slice, get_elem?,
  option_beq, string_eq,
}
use adn_dmr_peer_server.Wire.{Bytes, int_id, from_bytes, to_byte, bytes_4}
use adn_dmr_peer_server.Mesh.Admission.{
  CallType, unit, group, vcsbk, Level, info, warning, Arg, text, num, CallAttributes, ObpFrame,
  Rejection, MeshEnvelope, AdmissionContext,
}
use adn_dmr_peer_server.Mesh.Admission.Bits.{call_attributes}
use adn_dmr_peer_server.Mesh.Admission.Rules.{
  ServerIdValue, number, octets, malformed, check_network_id,
}
use adn_dmr_peer_server.Mesh.Admission.Chains.{admit_dmrd_v1, admit_dmre_v5}
use adn_dmr_peer_server.Mesh.Session.{
  ObpBridgeSession, Peer, Address, to_peer, peer_beq, peer, dns_anchored, note_keepalive,
}

-- src/adn_server/domain/mesh_routing.py: `MeshIngress`
pub record MeshIngress : Type 0 where
  pub codec : String
  pub voice_frame : Bytes
  pub hops : Bytes
  pub ber : Bytes
  pub rssi : Bytes
  pub source_server : Bytes
  pub source_rptr : Bytes
  pub embedded_ver : Option ℕ
  pub timestamp : Bytes

-- src/adn_server/domain/hbp_protocol.py
abbrev pub hbpf_data_sync : ℕ
hbpf_data_sync = 2

abbrev pub hbpf_slt_vhead : ℕ
hbpf_slt_vhead = 1

pub record Deliver : Type 0 where
  pub peer_id : Bytes
  pub rf_src : Bytes
  pub dst_id : Bytes
  pub seq : ℕ
  pub slot : ℕ
  pub call_type : CallType
  pub frame_type : ℕ
  pub dtype_vseq : ℕ
  pub stream_id : Bytes
  pub frame : Bytes
  pub hops : Bytes
  pub source_server : Bytes
  pub ber : Bytes
  pub rssi : Bytes
  pub source_rptr : Bytes

-- `reject` has the rejection, the talkgroup and the stream; `note_stream` the peer, the source and
-- the stream; `store_talker_alias` these, the sequence number and the burst.
pub data Effect : Type 0 where
  reject : Rejection → Bytes → Bytes → Effect
  log : Level → String → List Arg → Effect
  request_version : Effect
  note_stream : Bytes → Bytes → Bytes → Effect
  store_talker_alias : Bytes → Bytes → Bytes → ℕ → Bytes → Effect
  deliver : Deliver → Effect

pub record BridgePolicy : Type 0 where
  pub system : String
  pub network_id : Bytes
  pub proto_ver : Option ℕ
  pub relax_checks : Bool
  pub server_id : Bytes
  pub admission : AdmissionContext

-- the property `rejects_v1`
unfoldable pub rejects_v1 : BridgePolicy → Bool
rejects_v1 policy = ltb 1 (or_else policy.proto_ver 5)

unfoldable pub server_id_bytes : ServerIdValue → Bytes
server_id_bytes (number n) = bytes_4 n
server_id_bytes (octets bs) = if leb 4 (length bs) then bs else 0 ∷ 0 ∷ 0 ∷ 0 ∷ []
server_id_bytes malformed = 0 ∷ 0 ∷ 0 ∷ 0 ∷ []

unfoldable pub reject_v1_protocol : Bytes → BridgePolicy → List Effect
reject_v1_protocol stream_id policy =
    reject
      (record {
        reason = "proto-version";
        message = "(%s) *ProtoControl* Version 1 protocol prohibited by PROTO_VER, Ver: %s";
        args =
            text policy.system
            ∷ elim policy.proto_ver [ none ↦ text "None" | some ver ↦ num ver ]
            ∷ [];
        level = warning;
        quench = false;
        log_once = true;
      })
      [] stream_id
    ∷ request_version
    ∷ []

abbrev is_peer : Option Address → Peer → Bool
is_peer none p = false
is_peer (some a) p = peer_beq (to_peer a) p

abbrev same_host : Option Address → Peer → Bool
same_host none p = false
same_host (some a) p = option_beq (some a.0) p.0

unfoldable pub accepts_source : Option Address → BridgePolicy → ObpBridgeSession → Bool
accepts_source addr policy session =
    if is_peer addr (peer session)
    then true
    else if dns_anchored session
    then same_host addr (peer session)
    else policy.relax_checks

abbrev carries_group_voice : CallType → Bool
carries_group_voice unit = false
carries_group_voice group = true
carries_group_voice vcsbk = true

abbrev is_group : CallType → Bool
is_group group = true
is_group _ = false

-- `_delivery_effects`
unfoldable pub delivery_effects : ObpFrame → Bytes → Bytes → ℕ → ℕ → Deliver → List Effect
delivery_effects frame packet peer_id frame_type dtype_vseq delivery =
    (if is_group frame.call_type && frame_type == hbpf_data_sync && dtype_vseq == hbpf_slt_vhead
      then log info "(%s) CALL RX (OBP) src %s -> TG %s slot %s" (
          text frame.system
          ∷ num (int_id frame.rf_src)
          ∷ num (int_id frame.dst_id)
          ∷ num frame.slot
          ∷ [])
        ∷ []
      else [])
    ++ (note_stream peer_id frame.rf_src frame.stream_id ∷ [])
    ++ (if carries_group_voice frame.call_type
          && not (frame_type == hbpf_data_sync)
          && within 1 4 dtype_vseq
          && leb 53 (length packet)
        then store_talker_alias peer_id frame.rf_src frame.stream_id dtype_vseq (slice 20 53 packet)
          ∷ []
        else [])
    ++ deliver delivery ∷ []

pub data Exception : Type 0 where
  index_error overflow_error : Exception

-- `not_accepted` is the result `None`.
pub data Answer : Type 0 where
  not_accepted : Answer
  raised : Exception → Answer
  effects : List Effect → Answer

-- The frame of an ingress, as the rules see it.
abbrev pub frame_of : BridgePolicy → Bytes → ℕ → CallType → ObpFrame
frame_of policy packet slot call_type = record {
  system = policy.system;
  stream_id = slice 16 20 packet;
  rf_src = slice 5 8 packet;
  dst_id = slice 8 11 packet;
  slot = slot;
  call_type = call_type;
}

abbrev pub rejected : Rejection → Bytes → Answer
rejected rejection packet = effects (reject rejection (slice 8 11 packet) (slice 16 20 packet) ∷ [])

-- The delivery of a v1 frame, from its sequence number and its attributes.
abbrev pub delivery_v1 : BridgePolicy → Bytes → ℕ → CallAttributes → Deliver
delivery_v1 policy packet seq attrs = record {
  peer_id = slice 11 15 packet;
  rf_src = slice 5 8 packet;
  dst_id = slice 8 11 packet;
  seq = seq;
  slot = attrs.slot;
  call_type = attrs.call_type;
  frame_type = attrs.frame_type;
  dtype_vseq = attrs.dtype_vseq;
  stream_id = slice 16 20 packet;
  frame = packet;
  hops = [];
  source_server = policy.server_id;
  ber = 0 ∷ [];
  rssi = 0 ∷ [];
  source_rptr = 0 ∷ 0 ∷ 0 ∷ 0 ∷ [];
}

abbrev pub delivery_v5 : MeshIngress → Bytes → ℕ → CallAttributes → Deliver
delivery_v5 ingress hops seq attrs = record {
  peer_id = slice 11 15 ingress.voice_frame;
  rf_src = slice 5 8 ingress.voice_frame;
  dst_id = slice 8 11 ingress.voice_frame;
  seq = seq;
  slot = 1;
  call_type = attrs.call_type;
  frame_type = attrs.frame_type;
  dtype_vseq = attrs.dtype_vseq;
  stream_id = slice 16 20 ingress.voice_frame;
  frame = b'D' ∷ b'M' ∷ b'R' ∷ b'D' ∷ drop 4 ingress.voice_frame;
  hops = hops;
  source_server = ingress.source_server;
  ber = ingress.ber;
  rssi = ingress.rssi;
  source_rptr = ingress.source_rptr;
}

abbrev pub envelope_of : MeshIngress → ℕ → MeshEnvelope
envelope_of ingress timestamp_ns = record {
  source_server = from_bytes ingress.source_server;
  hops = from_bytes ingress.hops;
  timestamp_ns = timestamp_ns;
  source_server_id = ingress.source_server;
}
