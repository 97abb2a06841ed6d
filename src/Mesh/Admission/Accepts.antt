-- ===== src/Mesh/Admission/Accepts.antt =====
-- What a frame must satisfy to pass a gauntlet of src/adn_server/domain/mesh_admission.py, in
-- arithmetic and without the order of the rules.
use adn_dmr_peer_server.Prelude.{
  ℕ, ◌+◌, ◌≤◌, ◌<◌, ◌≡◌, ◌≢◌, ◌↔◌, ◌⊎◌, refl, Bool, true, false, Option, none, some, ◌or◌, take,
  any, ◌==◌, bytes_eq, arith,
}
use adn_dmr_peer_server.Prelude.Decimal.{str, prefix}
use adn_dmr_peer_server.Prelude.Decimal.Laws.{length-str-le_iff}
use adn_dmr_peer_server.Wire.{Bytes}
use adn_dmr_peer_server.Mesh.Admission.{
  unit, ObpFrame, dst, Acl, AclRules, MeshEnvelope, AdmissionContext,
}
use adn_dmr_peer_server.Mesh.Admission.Rules.{
  check_slot, check_stun, check_packet_age, unresolved, check_source_server, check_hops,
}
use adn_dmr_peer_server.Mesh.Admission.Filters.{
  check_tg_filter_v1, check_tg_filter_v5, check_acl_chain,
}
use adn_dmr_peer_server.Mesh.Admission.Chains.{admit_dmrd_v1, admit_dmre_v5}

-- A rule followed by the rest of a gauntlet.
or_iff {ℓ} :
    {A : Type ℓ} {a b : Option A} {P Q : Type 0}
    → (a ≡ none) ↔ P
    → (b ≡ none) ↔ Q
    → ((a or b) ≡ none) ↔ (P × Q)
or_iff {a = none} p q = ((λ h. (p.0 refl, q.0 h)), (λ r. q.1 r.1))
or_iff {a = some x} p q = ((λ h. cc), (λ r. cc (p.1 r.0)))

-- Talkgroups that never leave the server they belong to.
abbrev pub StaysLocal : ℕ → Type 0
StaysLocal tg = (tg ≤ 79) ⊎ ((9990 ≤ tg) × (tg ≤ 9999)) ⊎ ((92 ≤ tg) × (tg ≤ 199)) ⊎ (tg ≡ 900999)

abbrev RulesPass : (Bytes → Acl → Bool) → ObpFrame → AclRules → AclRules → Type 0
RulesPass check frame global system =
    (global.enabled ≡ true
      → (check frame.rf_src global.sub_acl ≡ true)
        × (frame.slot ≡ 1 → check frame.dst_id global.tg1_acl ≡ true))
    × (system.enabled ≡ true
        → (check frame.rf_src system.sub_acl ≡ true) × (check frame.dst_id system.tg1_acl ≡ true))

-- With an access check, every enabled scope accepts the subscriber and the talkgroup.
abbrev pub AclPasses : Option (Bytes → Acl → Bool) → ObpFrame → AdmissionContext → Type 0
AclPasses none frame ctx = Unit
AclPasses (some check) frame ctx = RulesPass check frame ctx.global_rules ctx.system_rules

abbrev pub AllowedV1 : ObpFrame → AdmissionContext → Type 0
AllowedV1 frame ctx =
    (frame.slot ≡ 1)
    × ((ctx.stunned ≡ false)
        × (((frame.call_type ≡ unit) ⊎ (¬ StaysLocal (dst frame)))
            × AclPasses ctx.acl_check frame ctx))

slot_iff : (frame : ObpFrame) → (check_slot frame ≡ none) ↔ (frame.slot ≡ 1)
unfolding check_slot
slot_iff frame = ground arith

stun_iff : (frame : ObpFrame) (b : Bool) → (check_stun frame b ≡ none) ↔ (b ≡ false)
unfolding check_stun
stun_iff frame b = ground arith

filter_v1_iff :
    (frame : ObpFrame)
    → (check_tg_filter_v1 frame ≡ none) ↔ ((frame.call_type ≡ unit) ⊎ (¬ StaysLocal (dst frame)))
unfolding check_tg_filter_v1
filter_v1_iff frame = ground arith

acl_iff :
    (frame : ObpFrame) (ctx : AdmissionContext)
    → (check_acl_chain frame ctx ≡ none) ↔ AclPasses ctx.acl_check frame ctx
unfolding check_acl_chain
acl_iff frame ctx = ground arith

-- The v1 gauntlet lets a frame through exactly if it came on slot 1, the bridge is not stunned, the
-- call is private or its talkgroup is not a local one, and the enabled access lists accept it.
pub admit_dmrd_v1-none_iff :
    (frame : ObpFrame) (ctx : AdmissionContext)
    → (admit_dmrd_v1 frame ctx ≡ none) ↔ AllowedV1 frame ctx
unfolding admit_dmrd_v1
admit_dmrd_v1-none_iff frame ctx =
    or_iff (slot_iff frame)
      (or_iff (stun_iff frame ctx.stunned) (or_iff (filter_v1_iff frame) (acl_iff frame ctx)))

-- A known 4 or 5 digit id, or a 6 or 7 digit one that resolves.
abbrev pub SourceKnown : ℕ → Bytes → AdmissionContext → Type 0
SourceKnown source id ctx =
    (1000 ≤ source)
    × (source < 10000000)
    × (ctx.validate_server_ids ≡ true
        → source < 100000
        → any (λ known. known == take 4 (str source)) ctx.known_server_prefixes ≡ true)
    × (100000 ≤ source → unresolved ctx.resolve_server_id id ≡ false)

-- A talkgroup local to a server, or to a country, is taken from that server or country only.
abbrev pub TalkgroupFits : ℕ → ℕ → ℕ → Type 0
TalkgroupFits tg source server =
    (79 < tg)
    × (¬ ((9990 ≤ tg) × (tg ≤ 9999)))
    × (tg ≢ 900999)
    × ((92 ≤ tg) × (tg ≤ 199) → prefix 4 source ≡ server)
    × (((80 ≤ tg) × (tg ≤ 89)) ⊎ ((800 ≤ tg) × (tg ≤ 899)) → prefix 3 source ≡ prefix 3 server)

abbrev pub AllowedV5 : ObpFrame → MeshEnvelope → AdmissionContext → ℕ → Type 0
AllowedV5 frame envelope ctx now =
    (ctx.stunned ≡ false)
    × ((now ≤ envelope.timestamp_ns + 5000000000)
        × (SourceKnown envelope.source_server envelope.source_server_id ctx
            × ((envelope.hops < 10)
                × (((frame.call_type ≡ unit)
                      ⊎ TalkgroupFits (dst frame) envelope.source_server ctx.server_id)
                    × AclPasses ctx.acl_check frame ctx))))

age_iff :
    (frame : ObpFrame) (envelope : MeshEnvelope) (now : ℕ)
    → (check_packet_age frame envelope now ≡ none) ↔ (now ≤ envelope.timestamp_ns + 5000000000)
unfolding check_packet_age
age_iff frame envelope now = ground arith

hops_iff :
    (frame : ObpFrame) (envelope : MeshEnvelope)
    → (check_hops frame envelope ≡ none) ↔ (envelope.hops < 10)
unfolding check_hops
hops_iff frame envelope = ground arith

source_iff :
    (frame : ObpFrame) (envelope : MeshEnvelope) (ctx : AdmissionContext)
    → (check_source_server frame envelope ctx ≡ none)
      ↔ SourceKnown envelope.source_server envelope.source_server_id ctx
unfolding check_source_server
source_iff frame envelope ctx = ground (
  arith,
  length-str-le_iff 2 envelope.source_server,
  length-str-le_iff 4 envelope.source_server,
  length-str-le_iff 6 envelope.source_server,
)

filter_v5_iff :
    (frame : ObpFrame) (envelope : MeshEnvelope) (ctx : AdmissionContext)
    → (check_tg_filter_v5 frame envelope ctx ≡ none)
      ↔ ((frame.call_type ≡ unit) ⊎ TalkgroupFits (dst frame) envelope.source_server ctx.server_id)
unfolding check_tg_filter_v5
filter_v5_iff frame envelope ctx = ground arith

-- The v5 gauntlet lets a frame through exactly if the bridge is not stunned, the frame is at most
-- five seconds old, its source server has 4 to 7 digits and is known or resolves as configured, it
-- made fewer than ten hops, the call is private or its talkgroup may come from that source, and the
-- enabled access lists accept it.
pub admit_dmre_v5-none_iff :
    (frame : ObpFrame) (envelope : MeshEnvelope) (ctx : AdmissionContext) (now : ℕ)
    → (admit_dmre_v5 frame envelope ctx now ≡ none) ↔ AllowedV5 frame envelope ctx now
unfolding admit_dmre_v5
admit_dmre_v5-none_iff frame envelope ctx now = or_iff (stun_iff frame ctx.stunned) (
    or_iff (age_iff frame envelope now) (
      or_iff (source_iff frame envelope ctx) (
        or_iff (hops_iff frame envelope)
          (or_iff (filter_v5_iff frame envelope ctx) (acl_iff frame ctx)))))
