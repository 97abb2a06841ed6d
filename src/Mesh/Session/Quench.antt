-- ===== src/Mesh/Session/Quench.antt =====
-- Source quench in src/adn_server/domain/mesh_session.py.
use adn_dmr_peer_server.Prelude.{
  ◌≡◌, ◌≢◌, inl, inr, refl, ap, ◌∙◌, false, none, some, [], ◌∷◌, if◌then◌else◌, ◌==◌, bytes_eq,
  list_beq_iff, option_beq, option_beq_iff, Bool-cases, arith, ==-refl, nat_eq,
}
use adn_dmr_peer_server.Prelude.Dict
use adn_dmr_peer_server.Prelude.Dict.{Dict}
use adn_dmr_peer_server.Wire.{Bytes}
use adn_dmr_peer_server.Mesh.Session.{
  ObpBridgeSession, TgRef, tid_of, quenched_by_number, quenches, release_loop, release_stream,
}

-- The entries that `release_stream` leaves.
keep_others : Bytes → Dict Bytes Bytes → Dict Bytes Bytes
keep_others stream [] = []
keep_others stream ((k, v) ∷ d) =
    let rest = keep_others stream d in if v == stream then rest else (k, v) ∷ rest

-- No pop in the loop meets a key that the entries do not have.
release_loop-fresh :
    (k v stream : Bytes) (snapshot d : Dict Bytes Bytes)
    → Dict.get k snapshot ≡ none
    → release_loop snapshot stream ((k, v) ∷ d) ≡ (k, v) ∷ release_loop snapshot stream d
unfolding release_loop Dict.get Dict.pop
release_loop-fresh k v stream [] d h = refl
release_loop-fresh k v stream ((j, w) ∷ rest) d h = elim (Bool-cases (j == k)) [
  | inl same ↦ cc (rw (same, Dict.get) at h)
  | inr other ↦
      let apart : (k == j) ≡ false = ground (arith, list_beq_iff j k, list_beq_iff k j) in
      let later = rw (other, Dict.get) at h in
      elim (Bool-cases (w == stream)) [
        | inl doomed ↦
            rw (doomed, Dict.pop)
              (rw apart (release_loop-fresh k v stream rest (Dict.pop j d) later))
        | inr kept ↦ rw kept (release_loop-fresh k v stream rest d later)
      ]
]

release_loop-keep :
    (stream : Bytes) (d : Dict Bytes Bytes)
    → Dict.Distinct d
    → release_loop d stream d ≡ keep_others stream d
unfolding release_loop keep_others Dict.pop
release_loop-keep stream [] h = refl
release_loop-keep stream ((k, v) ∷ d) (fresh, h) = elim (Bool-cases (v == stream)) [
  | inl same ↦
      rw (same, Dict.pop)
        (rw (==-refl k, Dict.pop-missing k d fresh) (release_loop-keep stream d h))
  | inr other ↦ rw other (
      release_loop-fresh k v stream d d fresh ∙ ap (λ t. (k, v) ∷ t) (release_loop-keep stream d h))
]

-- No entry that is kept answers for the released stream.
keep_others_self :
    (tid stream : Bytes) (d : Dict Bytes Bytes)
    → (Dict.get tid (keep_others stream d) ≢ some stream)
      × (quenched_by_number tid stream (keep_others stream d) ≡ false)
unfolding keep_others quenched_by_number Dict.get
keep_others_self tid stream [] = ground arith
keep_others_self tid stream ((k, v) ∷ d) =
    ground (arith, keep_others_self tid stream d, list_beq_iff v stream)

-- Of any other stream every entry is kept.
get-keep_others :
    (tid stream other : Bytes) (d : Dict Bytes Bytes)
    → Dict.Distinct d
    → (other == stream) ≡ false
    → option_beq (Dict.get tid (keep_others stream d)) (some other)
      ≡ option_beq (Dict.get tid d) (some other)
unfolding keep_others Dict.get
get-keep_others tid stream other [] h n = refl
get-keep_others tid stream other ((k, v) ∷ d) (fresh, h) n = ground (
  arith,
  get-keep_others tid stream other d h n,
  list_beq_iff k tid,
  list_beq_iff v stream,
  list_beq_iff v other,
  list_beq_iff other stream,
)

by_number-keep_others :
    (tid stream other : Bytes) (d : Dict Bytes Bytes)
    → (other == stream) ≡ false
    → quenched_by_number tid other (keep_others stream d) ≡ quenched_by_number tid other d
unfolding keep_others quenched_by_number
by_number-keep_others tid stream other [] n = refl
by_number-keep_others tid stream other ((k, v) ∷ d) n = ground (
  arith,
  by_number-keep_others tid stream other d n,
  list_beq_iff v stream,
  list_beq_iff v other,
  list_beq_iff other stream,
)

-- Releasing a stream ends its quench on every talkgroup, and changes the answer for no other stream.
pub quenches-release_stream :
    (dst_id : TgRef) (stream other : Bytes) (s : ObpBridgeSession)
    → Dict.Distinct s.quenched
    → quenches dst_id other (release_stream stream s)
      ≡ (if other == stream then false else quenches dst_id other s)
unfolding quenches release_stream
quenches-release_stream dst_id stream other s h = elim (Bool-cases (other == stream)) [
  | inl same ↦
      let e = (list_beq_iff other stream).0 same in
      let gone = keep_others_self (tid_of dst_id) stream s.quenched in
      rw same (
        rw (release_loop-keep stream s.quenched h) (
          rw e (
            ground (
              arith,
              gone,
              option_beq_iff (Dict.get (tid_of dst_id) (keep_others stream s.quenched))
                  (some stream),
            ))))
  | inr apart ↦ rw apart (
      rw (release_loop-keep stream s.quenched h) (
        rw (
          get-keep_others (tid_of dst_id) stream other s.quenched h apart,
          by_number-keep_others (tid_of dst_id) stream other s.quenched apart,
        )))
]
