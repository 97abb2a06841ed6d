-- ===== src/Mesh/Admission.antt =====
-- src/adn_server/domain/mesh_admission.py: the data of the admission rules. Times are natural
-- numbers of nanoseconds, where the source has floats of seconds. `Rules` and `Filters` have
-- the rules, `Chains` the two gauntlets, `Bits` the bits byte of a frame, and the other children what holds.
pub mod Rules
pub mod Filters
pub mod Chains
pub mod Bits
pub mod Accepts
pub mod Classify
mod Tests
use adn_dmr_peer_server.Prelude.{ℕ, Bool, true, false, Option, none, some, List, [], ◌∷◌, String}
use adn_dmr_peer_server.Wire.{Bytes, int_id}

pub data CallType : Type 0 where
  unit group vcsbk : CallType

pub data Level : Type 0 where
  debug info warning error : Level

-- An argument of a log line.
pub data Arg : Type 0 where
  text : String → Arg
  num : ℕ → Arg

pub record CallAttributes : Type 0 where
  pub slot : ℕ
  pub call_type : CallType
  pub frame_type : ℕ
  pub dtype_vseq : ℕ

pub record ObpFrame : Type 0 where
  pub system : String
  pub stream_id : Bytes
  pub rf_src : Bytes
  pub dst_id : Bytes
  pub slot : ℕ
  pub call_type : CallType

-- the property `ObpFrame.dst`
abbrev pub dst : ObpFrame → ℕ
dst frame = int_id frame.dst_id

pub record Rejection : Type 0 where
  pub reason : String
  pub message : String
  pub args : List Arg
  pub level : Level
  pub quench : Bool
  pub log_once : Bool

-- `(action, ranges)`
abbrev pub Acl : Type 0
Acl = Bool × List (ℕ × ℕ)

pub record AclRules : Type 0 where
  pub enabled : Bool
  pub sub_acl : Acl
  pub tg1_acl : Acl

abbrev pub no_rules : AclRules
no_rules = record { enabled = false; sub_acl = (true, []); tg1_acl = (true, []) }

pub record MeshEnvelope : Type 0 where
  pub source_server : ℕ
  pub hops : ℕ
  pub timestamp_ns : ℕ
  pub source_server_id : Bytes

-- A known server prefix is a text of digits; only such texts are ever compared with.
pub record AdmissionContext : Type 0 where
  pub stunned : Bool
  pub acl_check : Option (Bytes → Acl → Bool)
  pub global_rules : AclRules
  pub system_rules : AclRules
  pub server_id : ℕ
  pub validate_server_ids : Bool
  pub known_server_prefixes : List (List ℕ)
  pub resolve_server_id : Option (Bytes → Bool)
