-- ===== src/Mesh/Engine/Effects.antt =====
-- What the effects of an answer look like: src/adn_server/domain/mesh_engine.py.
use adn_dmr_peer_server.Prelude.{
  ℕ, ◌≤◌, ◌≡◌, inl, inr, ◌∙◌, Bool, true, false, not, ◌&&◌, List, [], ◌∷◌, ◌++◌, slice, drop,
  length, length-take, length-drop, Bool-cases, All, if◌then◌else◌, within, leb, ◌==◌, nat_eq,
  arith, String,
}
use adn_dmr_peer_server.Wire.{Bytes, int_id}
use adn_dmr_peer_server.Mesh.Admission.{ObpFrame, Level, Arg, info, text, num}
use adn_dmr_peer_server.Mesh.Engine.{
  delivery_effects, Deliver, Effect, reject, log, request_version, note_stream, store_talker_alias,
  deliver, carries_group_voice, hbpf_data_sync, hbpf_slt_vhead, is_group,
}

-- A stored burst has 33 bytes and one of the four sequence numbers of a talker alias.
abbrev pub BurstIsWhole : Effect → Type 0
BurstIsWhole (store_talker_alias p r s v b) = (length b ≡ 33) × (1 ≤ v) × (v ≤ 4)
BurstIsWhole (reject _ _ _) = Unit
BurstIsWhole (log _ _ _) = Unit
BurstIsWhole request_version = Unit
BurstIsWhole (note_stream _ _ _) = Unit
BurstIsWhole (deliver _) = Unit

length-burst : (packet : Bytes) → leb 53 (length packet) ≡ true → length (slice 20 53 packet) ≡ 33
length-burst packet h = length-take 33 (drop 20 packet) ∙ ground (arith, length-drop 20 packet)

burst :
    (a b : Bool) (packet p r s : Bytes) (v : ℕ)
    → All BurstIsWhole (
        if a && b && within 1 4 v && leb 53 (length packet)
        then store_talker_alias p r s v (slice 20 53 packet) ∷ []
        else [])
burst a b packet p r s v = elim (Bool-cases (a && b && within 1 4 v && leb 53 (length packet))) [
  | inl fits ↦ rw fits ((length-burst packet (ground arith), ground arith, ground arith), _)
  | inr other ↦ rw other _
]

both :
    (xs ys : List Effect) → All BurstIsWhole xs → All BurstIsWhole ys → All BurstIsWhole (xs ++ ys)
both [] ys h k = k
both (x ∷ xs) ys (p, h) k = (p, both xs ys h k)

assembled :
    (c : Bool) (line : Level × String × List Arg) (p r s : Bytes) (stored : List Effect)
    (d : Deliver)
    → All BurstIsWhole stored
    → All BurstIsWhole (
        (if c then log line.0 line.1 line.2 ∷ [] else [])
        ++ (note_stream p r s ∷ [])
        ++ stored
        ++ deliver d ∷ [])
assembled true line p r s stored d h = (_, (_, both stored (deliver d ∷ []) h (_, _)))
assembled false line p r s stored d h = (_, both stored (deliver d ∷ []) h (_, _))

-- The effects of a delivery store a talker alias only as a whole burst of 33 bytes under one of the
-- four sequence numbers.
pub delivery_effects-BurstIsWhole :
    (frame : ObpFrame) (packet peer_id : Bytes) (frame_type dtype_vseq : ℕ) (d : Deliver)
    → All BurstIsWhole (delivery_effects frame packet peer_id frame_type dtype_vseq d)
unfolding delivery_effects
delivery_effects-BurstIsWhole frame packet peer_id frame_type dtype_vseq d =
    assembled
      (is_group frame.call_type && frame_type == hbpf_data_sync && dtype_vseq == hbpf_slt_vhead)
      (
        info,
        "(%s) CALL RX (OBP) src %s -> TG %s slot %s",
        text frame.system
            ∷ num (int_id frame.rf_src)
            ∷ num (int_id frame.dst_id)
            ∷ num frame.slot
            ∷ [],
      )
      peer_id frame.rf_src frame.stream_id
      (if carries_group_voice frame.call_type
          && not (frame_type == hbpf_data_sync)
          && within 1 4 dtype_vseq
          && leb 53 (length packet)
        then store_talker_alias peer_id frame.rf_src frame.stream_id dtype_vseq (slice 20 53 packet)
          ∷ []
        else [])
      d
      (burst (carries_group_voice frame.call_type) (not (frame_type == hbpf_data_sync)) packet
        peer_id frame.rf_src frame.stream_id dtype_vseq)
