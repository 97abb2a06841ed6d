-- ===== src/Mesh/Admission/Tests.antt =====
-- The gauntlets at concrete frames.
use adn_dmr_peer_server.Prelude.{◌≡◌, ◌↔◌, true, false, not, none, some, [], ◌∷◌, arith}
use adn_dmr_peer_server.Wire.{int_id}
use adn_dmr_peer_server.Mesh.Admission.{
  group, ObpFrame, no_rules, AclRules, MeshEnvelope, AdmissionContext,
}
use adn_dmr_peer_server.Mesh.Admission.Chains.{acl_check, admit_dmrd_v1, admit_dmre_v5}
use adn_dmr_peer_server.Mesh.Admission.Accepts.{
  AllowedV1, AllowedV5, admit_dmrd_v1-none_iff, admit_dmre_v5-none_iff,
}
use adn_dmr_peer_server.Mesh.Admission.Bits.{call_attributes, call_attributes_fields}
use adn_dmr_peer_server.Mesh.Admission.Classify.{Listed, acl_check-Listed}

-- Talkgroup 7302 from subscriber 7302001.
abbrev a_frame : ObpFrame
a_frame = record {
  system = "OBP-1";
  stream_id = 1 ∷ 2 ∷ 3 ∷ 4 ∷ [];
  rf_src = 111 ∷ 107 ∷ 113 ∷ [];
  dst_id = 0 ∷ 28 ∷ 134 ∷ [];
  slot = 1;
  call_type = group;
}

abbrev an_envelope : MeshEnvelope
an_envelope = record {
  source_server = 7302;
  hops = 3;
  timestamp_ns = 1_000_000_000;
  source_server_id = 0 ∷ 0 ∷ 28 ∷ 134 ∷ [];
}

abbrev some_rules : AclRules
some_rules = record {
  enabled = true;
  sub_acl = (false, (1, 1) ∷ []);
  tg1_acl = (true, (0, 16776415) ∷ []);
}

abbrev a_context : AdmissionContext
a_context = record {
  stunned = false;
  acl_check = some acl_check;
  global_rules = some_rules;
  system_rules = no_rules;
  server_id = 7300;
  validate_server_ids = true;
  known_server_prefixes = (7 ∷ 3 ∷ 0 ∷ 2 ∷ []) ∷ [];
  resolve_server_id = none;
}

admit_dmre_v5-none_iff_example :
    (admit_dmre_v5 a_frame an_envelope a_context 4_000_000_000 ≡ none)
    ↔ AllowedV5 a_frame an_envelope a_context 4_000_000_000
admit_dmre_v5-none_iff_example = admit_dmre_v5-none_iff a_frame an_envelope a_context 4_000_000_000

admit_dmrd_v1-none_iff_example :
    (admit_dmrd_v1 a_frame a_context ≡ none) ↔ AllowedV1 a_frame a_context
admit_dmrd_v1-none_iff_example = admit_dmrd_v1-none_iff a_frame a_context

call_attributes_fields_example :
    ((call_attributes 161).slot ≡ 2)
    × ((call_attributes 161).call_type ≡ group)
    × ((call_attributes 161).frame_type ≡ 2)
    × ((call_attributes 161).dtype_vseq ≡ 1)
call_attributes_fields_example = call_attributes_fields 161 (omega arith)

acl_check-Listed_example :
    ((acl_check (0 ∷ 0 ∷ 9 ∷ []) (true, (1, 9) ∷ []) ≡ true)
      ↔ Listed (int_id (0 ∷ 0 ∷ 9 ∷ [])) ((1, 9) ∷ []))
    × ((¬ Listed (int_id (0 ∷ 0 ∷ 9 ∷ [])) ((1, 9) ∷ []))
        → acl_check (0 ∷ 0 ∷ 9 ∷ []) (true, (1, 9) ∷ []) ≡ not true)
acl_check-Listed_example = acl_check-Listed (0 ∷ 0 ∷ 9 ∷ []) true ((1, 9) ∷ [])
