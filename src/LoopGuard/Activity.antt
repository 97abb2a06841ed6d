-- ===== src/LoopGuard/Activity.antt =====
-- When a stream last carried a frame: `_last_activity` of
-- src/adn_server/application/routing/loop_guard.py.
use adn_dmr_peer_server.Prelude.{
  ℕ, ◌≡◌, ◌≢◌, ◌↔◌, ◌⊎◌, inl, inr, refl, ap, sym, ◌∙◌, true, Option, none, some, or_else, String,
  Bool-cases, string_eq, bytes_eq, nat_eq, eq_iff, option_beq, option_beq_iff, arith,
}
use adn_dmr_peer_server.Prelude.Dict
use adn_dmr_peer_server.LoopGuard.{
  Config, SysCfg, Leg, ObpStatus, SlotStatus, Status, Protocols, last_activity, or_start,
  stream_activity, slot_activity, is_openbridge, activity_in,
}

abbrev pub IsMesh : Config → String → Type 0
IsMesh config name =
    (cfg : SysCfg) × (Dict.get name config.systems ≡ some cfg) × (cfg.mode ≡ "OPENBRIDGE")

-- A stored time of zero stands for the start of the leg.
abbrev pub Told : ℕ → ℕ → ℕ → Type 0
Told start stored last = (stored ≢ 0) × (last ≡ stored) ⊎ (stored ≡ 0) × (last ≡ start)

-- The time of the last frame, else that of the first, else the start.
abbrev pub ObpStored : ObpStatus → ℕ → ℕ → Type 0
ObpStored st start stored =
    (st.last ≡ some stored)
    ⊎ (st.last ≡ none) × ((st.started ≡ some stored) ⊎ (st.started ≡ none) × (stored ≡ start))

abbrev pub SlotStored : SlotStatus → ℕ → ℕ → Type 0
SlotStored st start stored = (st.rx_time ≡ some stored) ⊎ (st.rx_time ≡ none) × (stored ≡ start)

abbrev pub OnMesh : Leg → Option ObpStatus → ℕ → Type 0
OnMesh leg o last =
    (st : ObpStatus) × (stored : ℕ) × (o ≡ some st)
    × ObpStored st leg.start stored
    × Told leg.start stored last

-- The slot still carries the stream of the leg.
abbrev pub OnSlot : Leg → Option SlotStatus → ℕ → Type 0
OnSlot leg o last =
    (st : SlotStatus) × (stored : ℕ) × (o ≡ some st)
    × (st.rx_stream_id ≡ some leg.stream_id)
    × SlotStored st leg.start stored
    × Told leg.start stored last

-- The last frame of the stream that has the leg was at that time: its system has a status, and there
-- the stream on a mesh link, or the slot elsewhere, tells the time.
abbrev pub LastFrame : Leg → Protocols → Config → ℕ → Type 0
LastFrame leg protocols config last =
    (status : Status) × (Dict.get leg.system protocols ≡ some status)
    × (IsMesh config leg.system × OnMesh leg (Dict.get leg.stream_id status.streams) last
        ⊎ (¬ IsMesh config leg.system) × OnSlot leg (Dict.get leg.slot status.slots) last)

openbridge_iff :
    (config : Config) (name : String)
    → (is_openbridge (Dict.get name config.systems) ≡ true) ↔ IsMesh config name
openbridge_iff config name = by_cfg (Dict.get name config.systems)
  where
    by_cfg :
        (o : Option SysCfg)
        → (is_openbridge o ≡ true) ↔ ((cfg : SysCfg) × (o ≡ some cfg) × (cfg.mode ≡ "OPENBRIDGE"))
    by_cfg none = ((λ h. cc h), (λ q. cc q.1))
    by_cfg (some cfg) = (
      (λ h. (cfg, refl, (eq_iff cfg.mode "OPENBRIDGE").0 h)),
      (λ q. ap is_openbridge q.1 ∙ (eq_iff (q.0).mode "OPENBRIDGE").1 q.2),
    )

or_start_iff : (start stored last : ℕ) → (or_start stored start ≡ last) ↔ Told start stored last
or_start_iff start stored last = ground arith

chosen :
    (l s : Option ℕ) (start stored : ℕ)
    → ((l ≡ some stored) ⊎ (l ≡ none) × ((s ≡ some stored) ⊎ (s ≡ none) × (stored ≡ start)))
      ↔ (stored ≡ or_else l (or_else s start))
chosen none none start stored = ground arith
chosen none (some s) start stored = ground arith
chosen (some l) s start stored = ground arith

chosen_slot :
    (l : Option ℕ) (start stored : ℕ)
    → ((l ≡ some stored) ⊎ (l ≡ none) × (stored ≡ start)) ↔ (stored ≡ or_else l start)
chosen_slot none start stored = ground arith
chosen_slot (some l) start stored = ground arith

stream_iff :
    (leg : Leg) (o : Option ObpStatus) (last : ℕ)
    → (stream_activity leg o ≡ some last) ↔ OnMesh leg o last
stream_iff leg none last = ((λ h. cc h), (λ q. cc q.2))
stream_iff leg (some st) last = (
  (λ h. (
    st,
    or_else st.last (or_else st.started leg.start),
    refl,
    (chosen st.last st.started leg.start _).1 refl,
    (or_start_iff leg.start _ last).0 (cc h),
  )),
  (λ q.
      ap (stream_activity leg) q.2
      ∙ ap some (
          ap (λ n. or_start n leg.start)
            (sym ((chosen (q.0).last (q.0).started leg.start q.1).0 q.3))
          ∙ (or_start_iff leg.start q.1 last).1 q.4)),
)

slot_iff :
    (leg : Leg) (o : Option SlotStatus) (last : ℕ)
    → (slot_activity leg o ≡ some last) ↔ OnSlot leg o last
slot_iff leg none last = ((λ h. cc h), (λ q. cc q.2))
slot_iff leg (some st) last = (
  (λ h. elim (Bool-cases (option_beq st.rx_stream_id (some leg.stream_id))) [
    | inl same ↦ (
      st,
      or_else st.rx_time leg.start,
      refl,
      (option_beq_iff st.rx_stream_id (some leg.stream_id)).0 same,
      (chosen_slot st.rx_time leg.start _).1 refl,
      (or_start_iff leg.start _ last).0 (cc (rw same at h)),
    )
    | inr other ↦ cc (rw other at h)
  ]),
  (λ q.
      ap (slot_activity leg) q.2
      ∙ rw ((option_beq_iff (q.0).rx_stream_id (some leg.stream_id)).1 q.3) (
          ap some (
            ap (λ n. or_start n leg.start) (sym ((chosen_slot (q.0).rx_time leg.start q.1).0 q.4))
            ∙ (or_start_iff leg.start q.1 last).1 q.5))),
)

pub last_activity-LastFrame :
    (leg : Leg) (protocols : Protocols) (config : Config) (last : ℕ)
    → (last_activity leg protocols config ≡ some last) ↔ LastFrame leg protocols config last
unfolding last_activity
last_activity-LastFrame leg protocols config last = by_status (Dict.get leg.system protocols)
  where
    by_status :
        (o : Option Status)
        → (activity_in leg config o ≡ some last) ↔ (
            (status : Status) × (o ≡ some status)
            × (IsMesh config leg.system × OnMesh leg (Dict.get leg.stream_id status.streams) last
                ⊎ (¬ IsMesh config leg.system) × OnSlot leg (Dict.get leg.slot status.slots) last))
    by_status none = ((λ h. cc h), (λ q. cc q.1))
    by_status (some status) =
        let mesh = openbridge_iff config leg.system in
        elim (Bool-cases (is_openbridge (Dict.get leg.system config.systems))) [
          | inl on_mesh ↦ (
            (λ h.
                (status, refl, inl (mesh.0 on_mesh, (stream_iff leg _ last).0 (rw on_mesh at h)))),
            (λ q.
                ap (activity_in leg config) q.1
                ∙ rw on_mesh (elim q.2 [
                  | inl (here, on) ↦ (stream_iff leg _ last).1 on
                  | inr (not_here, on) ↦ absurd (not_here (mesh.0 on_mesh))
                ])),
          )
          | inr elsewhere ↦ (
            (λ h. (
              status,
              refl,
              inr (
                (λ m. cc (sym (mesh.1 m) ∙ elsewhere)),
                (slot_iff leg _ last).0 (rw elsewhere at h),
              ),
            )),
            (λ q.
                ap (activity_in leg config) q.1
                ∙ rw elsewhere (elim q.2 [
                  | inl (here, on) ↦ absurd (cc (sym (mesh.1 here) ∙ elsewhere))
                  | inr (not_here, on) ↦ (slot_iff leg _ last).1 on
                ])),
          )
        ]
