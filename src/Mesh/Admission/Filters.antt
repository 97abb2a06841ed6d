-- ===== src/Mesh/Admission/Filters.antt =====
-- src/adn_server/domain/mesh_admission.py: the talkgroup filters and the access lists.
use adn_dmr_peer_server.Prelude.{
  ℕ, Bool, true, false, not, ◌&&◌, ◌||◌, Option, none, some, List, [], ◌∷◌, String, leb, within,
  if◌then◌else◌, ◌==◌, nat_eq, bytes_eq,
}
use adn_dmr_peer_server.Prelude.Decimal.{prefix}
use adn_dmr_peer_server.Wire.{Bytes, int_id}
use adn_dmr_peer_server.Mesh.Admission.{
  CallType, unit, info, text, num, ObpFrame, dst, Rejection, Acl, AclRules, MeshEnvelope,
  AdmissionContext,
}

abbrev pub tg_local_to_repeater_max : ℕ
tg_local_to_repeater_max = 79

abbrev pub tg_data_gateway : ℕ
tg_data_gateway = 900999

-- `TG_LOCAL_TO_SERVER[0] <= tg <= TG_LOCAL_TO_SERVER[1]`, and the same of the other ranges
abbrev pub in_local_to_server : ℕ → Bool
in_local_to_server tg = within 9990 9999 tg

abbrev pub in_local_to_server_main : ℕ → Bool
in_local_to_server_main tg = within 92 199 tg

abbrev pub is_unit : CallType → Bool
is_unit unit = true
is_unit _ = false

tg_filter : ObpFrame → String → String → Rejection
tg_filter frame why scope = record {
  reason = why;
  message = "(%s) CALL DROPPED WITH STREAM ID %s ON TG %s BY GLOBAL TG FILTER (%s)";
  args = text frame.system ∷ num (int_id frame.stream_id) ∷ num (dst frame) ∷ text scope ∷ [];
  level = info;
  quench = true;
  log_once = true;
}

unfoldable pub check_tg_filter_v1 : ObpFrame → Option Rejection
check_tg_filter_v1 frame =
    let tg = dst frame in
    if is_unit frame.call_type
    then none
    else if leb tg tg_local_to_repeater_max
        || in_local_to_server tg
        || in_local_to_server_main tg
        || tg == tg_data_gateway
    then some (record {
      reason = "tg-filter";
      message = "(%s) CALL DROPPED WITH STREAM ID %s FROM SUBSCRIBER %s BY GLOBAL TG FILTER";
      args = text frame.system ∷ num (int_id frame.stream_id) ∷ num tg ∷ [];
      level = info;
      quench = true;
      log_once = true;
    })
    else none

-- the loop over TG_LOCAL_TO_MCC
mcc_filter : List (ℕ × ℕ) → ℕ → ℕ → ℕ → Bool
mcc_filter [] tg source server = false
mcc_filter ((low, high) ∷ ranges) tg source server =
    (within low high tg && not (prefix 3 source == prefix 3 server))
    || mcc_filter ranges tg source server

abbrev pub tg_local_to_mcc : List (ℕ × ℕ)
tg_local_to_mcc = (80, 89) ∷ (800, 899) ∷ []

unfoldable pub check_tg_filter_v5 : ObpFrame → MeshEnvelope → AdmissionContext → Option Rejection
unfolding tg_filter mcc_filter
check_tg_filter_v5 frame envelope ctx =
    let tg = dst frame in
    if is_unit frame.call_type
    then none
    else if leb tg tg_local_to_repeater_max
    then some (tg_filter frame "tg-filter-repeater" "local to repeater")
    else if in_local_to_server tg || tg == tg_data_gateway
    then some (tg_filter frame "tg-filter-server" "local to server")
    else if in_local_to_server_main tg
    then (if not (prefix 4 envelope.source_server == ctx.server_id)
        then some (tg_filter frame "tg-filter-server-main" "local to server main ID")
        else none)
    else if mcc_filter tg_local_to_mcc tg envelope.source_server ctx.server_id
    then some (tg_filter frame "tg-filter-mcc" "local to MCC")
    else none

abbrev acl_rejection : ObpFrame → String → String → Bytes → Rejection
acl_rejection frame why what id = record {
  reason = why;
  message = what;
  args = text frame.system ∷ num (int_id frame.stream_id) ∷ num (int_id id) ∷ [];
  level = info;
  quench = true;
  log_once = true;
}

global_acl : (Bytes → Acl → Bool) → ObpFrame → AclRules → Option Rejection
global_acl acl_check frame rules =
    if rules.enabled
    then (if not (acl_check frame.rf_src rules.sub_acl)
        then some (
            acl_rejection frame "global-sub-acl"
              "(%s) CALL DROPPED WITH STREAM ID %s ON TGID %s BY GLOBAL TS1 ACL" frame.rf_src)
        else if frame.slot == 1 && not (acl_check frame.dst_id rules.tg1_acl)
        then some (
            acl_rejection frame "global-tg1-acl"
              "(%s) CALL DROPPED WITH STREAM ID %s ON TGID %s BY GLOBAL TS1 ACL" frame.dst_id)
        else none)
    else none

system_acl : (Bytes → Acl → Bool) → ObpFrame → AclRules → Option Rejection
system_acl acl_check frame rules =
    if rules.enabled
    then (if not (acl_check frame.rf_src rules.sub_acl)
        then some (
            acl_rejection frame "system-sub-acl"
              "(%s) CALL DROPPED WITH STREAM ID %s FROM SUBSCRIBER %s BY SYSTEM ACL" frame.rf_src)
        else if not (acl_check frame.dst_id rules.tg1_acl)
        then some (
            acl_rejection frame "system-tg1-acl"
              "(%s) CALL DROPPED WITH STREAM ID %s ON TGID %s BY SYSTEM ACL" frame.dst_id)
        else none)
    else none

acl_chain : Option (Bytes → Acl → Bool) → ObpFrame → AdmissionContext → Option Rejection
acl_chain none frame ctx = none
acl_chain (some acl_check) frame ctx = elim (global_acl acl_check frame ctx.global_rules) [
  | some rejection ↦ some rejection
  | none ↦ system_acl acl_check frame ctx.system_rules
]

unfoldable pub check_acl_chain : ObpFrame → AdmissionContext → Option Rejection
unfolding acl_chain global_acl system_acl
check_acl_chain frame ctx = acl_chain ctx.acl_check frame ctx
