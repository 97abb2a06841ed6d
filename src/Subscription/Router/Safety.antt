-- ===== src/Subscription/Router/Safety.antt =====
-- What `resolve` of src/adn_server/application/subscription/router.py forwards to, in a sound store.
use adn_dmr_peer_server.Prelude.{
  ℕ, ◌≡◌, refl, ap, sym, ◌∙◌, Bool, true, false, not, ◌&&◌, ◌||◌, some, List, [], ◌∷◌, ◌++◌, String,
  any, All, ◌==◌, nat_eq, bytes_eq, string_eq, id_eq, leg_eq, eq_iff, inl, inr, Bool-cases, arith,
  All-append, list_beq_iff,
}
use adn_dmr_peer_server.Prelude.Dict
use adn_dmr_peer_server.Prelude.Dict.{Dict, list_at}
use adn_dmr_peer_server.Subscription.{Subscription, Text, is_active, subscription_id}
use adn_dmr_peer_server.Subscription.Store.{SubscriptionStore, IndexKey}
use adn_dmr_peer_server.Subscription.Store.Agrees.{is_in_table, is_source, has_text}
use adn_dmr_peer_server.Subscription.Store.Sound.{IsSound}
use adn_dmr_peer_server.Subscription.Store.Reads.{legs_in_table}
use adn_dmr_peer_server.Subscription.Router.{
  VoiceIngress, bridge_match_slot, sorted, insert_text, text_ltb, is_seen, forward_legs,
  forward_tables, targets, relay_tables_with_active_source,
}
use adn_dmr_peer_server.Subscription.Store.Lookup.{counted-held, looked_up-All}

-- A leg that the store holds.
abbrev pub IsHeld : SubscriptionStore → Subscription → Type 0
IsHeld store sub = Dict.get (subscription_id sub) store.items ≡ some sub

legs_in_table-All :
    (t : Text) (store : SubscriptionStore)
    → IsSound store
    → All (λ sub. IsHeld store sub × (is_in_table t sub ≡ true)) (legs_in_table t store)
unfolding legs_in_table
legs_in_table-All t store v =
    looked_up-All (λ sub. IsHeld store sub × (is_in_table t sub ≡ true))
      (list_at (Dict.get t store.by_table)) store.items
      (λ id sub h e. (rw (v.keyed id sub e) e, ground (arith, h, v.agrees.places_as t id, e)))

-- An active leg of the ingress's system, slot and talkgroup in the table.
abbrev pub HasSource : VoiceIngress → SubscriptionStore → Text → Type 0
HasSource ingress store t =
    (source : Subscription) × IsHeld store source
    × (is_source (ingress.source_system, bridge_match_slot ingress, ingress.dst_tgid) t source
        ≡ true)

-- A leg that the ingress is forwarded to: an active one of another system, in a table with a source.
abbrev pub IsTarget : VoiceIngress → SubscriptionStore → Subscription → Type 0
IsTarget ingress store sub =
    (is_active sub ≡ true)
    × ((sub.system == ingress.source_system) ≡ false)
    × IsHeld store sub
    × ((t : Text) × (is_in_table t sub ≡ true) × HasSource ingress store t)

All-insert :
    (P : Text → Type 0) (t : Text) (ts : List Text) → P t → All P ts → All P (insert_text t ts)
unfolding insert_text
All-insert P t [] p ps = (p, ps)
All-insert P t (u ∷ us) p (q, qs) = elim (Bool-cases (text_ltb u t)) [
  | inl before ↦ rw before (q, All-insert P t us p qs)
  | inr after ↦ rw after (p, (q, qs))
]

All-sorted : (P : Text → Type 0) (ts : List Text) → All P ts → All P (sorted ts)
unfolding sorted
All-sorted P [] ps = ps
All-sorted P (t ∷ ts) (p, ps) = All-insert P t (sorted ts) p (All-sorted P ts ps)

All-members :
    (P : Text → Type 0) (ts : List Text) → ((t : Text) → has_text t ts ≡ true → P t) → All P ts
All-members P [] f = tt
All-members P (t ∷ ts) f =
    (f t (ground (arith, list_beq_iff t t)), All-members P ts (λ u h. f u (ground (arith, h))))

-- No two of the legs have one system and slot.
abbrev pub is_taken : List Subscription → Subscription → Bool
is_taken legs sub = any (λ l. l.system == sub.system && l.channel.slot == sub.channel.slot) legs

unfoldable pub distinct_places : List Subscription → Bool
distinct_places [] = true
distinct_places (l ∷ legs) = not (is_taken legs l) && distinct_places legs

is_taken-append :
    (legs : List Subscription) (s sub : Subscription)
    → is_taken (legs ++ s ∷ []) sub
      ≡ (is_taken legs sub || s.system == sub.system && s.channel.slot == sub.channel.slot)
is_taken-append [] s sub = ground arith
is_taken-append (l ∷ legs) s sub = ground (arith, is_taken-append legs s sub)

distinct_places-append :
    (legs : List Subscription) (s : Subscription)
    → distinct_places legs ≡ true
    → is_taken legs s ≡ false
    → distinct_places (legs ++ s ∷ []) ≡ true
unfolding distinct_places
distinct_places-append [] s d h = refl
distinct_places-append (l ∷ legs) s d h = ground (
  arith,
  d,
  h,
  distinct_places-append legs s,
  is_taken-append legs s l,
  eq_iff l.system s.system,
  eq_iff s.system l.system,
)

-- What holds of the legs that were appended before a leg is looked at.
record Forwarded (ingress : VoiceIngress) (store : SubscriptionStore)
    (r : List (String × ℕ) × List Subscription) : Type 0 where
  targets_as : All (IsTarget ingress store) r.1
  seen_as : (sub : Subscription) → ingress.source_is_obp ≡ true → is_seen sub r.0 ≡ is_taken r.1 sub
  places_as : ingress.source_is_obp ≡ true → distinct_places r.1 ≡ true

module _ (ingress : VoiceIngress) (store : SubscriptionStore) where
  -- A leg is appended; where the source is an OBP, its place is new and is added to the places seen.
  append-Forwarded :
      (sub : Subscription) (seen seen' : List (String × ℕ)) (legs : List Subscription)
      → IsTarget ingress store sub
      → (ingress.source_is_obp ≡ true
          → (is_seen sub seen ≡ false) × (seen' ≡ (sub.system, sub.channel.slot) ∷ seen))
      → Forwarded ingress store (seen, legs)
      → Forwarded ingress store (seen', legs ++ sub ∷ [])
  append-Forwarded sub seen seen' legs p new f = record {
    targets_as = All-append (IsTarget ingress store) legs sub f.targets_as p;
    seen_as =
        λ s o. ap (is_seen s) (new o).1 ∙ ground (arith, f.seen_as s o, is_taken-append legs sub s);
    places_as =
        λ o. distinct_places-append legs sub (f.places_as o) (sym (f.seen_as sub o) ∙ (new o).0);
  }

  forward_legs-Forwarded :
      (t : Text) (subs : List Subscription) (seen : List (String × ℕ)) (legs : List Subscription)
      → HasSource ingress store t
      → All (λ sub. IsHeld store sub × (is_in_table t sub ≡ true)) subs
      → Forwarded ingress store (seen, legs)
      → Forwarded ingress store (forward_legs ingress subs seen legs)
  unfolding forward_legs
  forward_legs-Forwarded t [] seen legs has hs f = f
  forward_legs-Forwarded t (sub ∷ subs) seen legs has ((h, i), hs) f =
      elim (Bool-cases (sub.system == ingress.source_system || not (is_active sub))) [
        | inl skip ↦ rw skip (forward_legs-Forwarded t subs seen legs has hs f)
        | inr keep ↦
            let p : IsTarget ingress store sub =
              (ground (arith, keep), ground (arith, keep), h, (t, i, has)) in
            elim (Bool-cases ingress.source_is_obp) [
              | inr hbp ↦
                  simp (keep, hbp)
                    (forward_legs-Forwarded t subs seen (legs ++ sub ∷ []) has hs
                      (append-Forwarded sub seen seen legs p (λ o. absurd (cc (o, hbp))) f))
              | inl obp ↦ elim (Bool-cases (is_seen sub seen)) [
                | inl again ↦
                    simp (keep, obp, again) (forward_legs-Forwarded t subs seen legs has hs f)
                | inr new ↦
                    simp (keep, obp, new)
                      (forward_legs-Forwarded t subs ((sub.system, sub.channel.slot) ∷ seen)
                        (legs ++ sub ∷ []) has hs
                        (append-Forwarded sub seen _ legs p (λ o. (new, refl)) f))
              ]
            ]
      ]

  forward_tables-Forwarded :
      (ts : List Text) (seen : List (String × ℕ)) (legs : List Subscription)
      → IsSound store
      → All (HasSource ingress store) ts
      → Forwarded ingress store (seen, legs)
      → (All (IsTarget ingress store) (forward_tables ingress store ts seen legs))
        × (ingress.source_is_obp ≡ true
            → distinct_places (forward_tables ingress store ts seen legs) ≡ true)
  unfolding forward_tables
  forward_tables-Forwarded [] seen legs v hs f = (f.targets_as, f.places_as)
  forward_tables-Forwarded (t ∷ ts) seen legs v (has, hs) f = forward_tables-Forwarded ts _ _ v hs (
      forward_legs-Forwarded t (legs_in_table t store) seen legs has (legs_in_table-All t store v)
        f)

  sources-All :
      IsSound store
      → All (HasSource ingress store) (
          relay_tables_with_active_source ingress.source_system
            (bridge_match_slot ingress)
            ingress.dst_tgid
            store)
  unfolding relay_tables_with_active_source
  sources-All v =
      let key : IndexKey = (ingress.source_system, bridge_match_slot ingress, ingress.dst_tgid) in
      All-sorted (HasSource ingress store) _ (
        All-members (HasSource ingress store) (list_at (Dict.get key store.source_tables)) (λ t h.
          let (id, sub, e, s) =
            counted-held (is_source key t) store.items v.distinct (v.agrees.sources_as key t h) in
          (sub, rw (v.keyed id sub e) e, s)))

-- In a sound store, every leg that a voice packet is forwarded to is a held and active one of another
-- system, in a table that has an active leg of the packet's own system, slot (1 for an OBP) and
-- talkgroup; and no two legs that an OBP's packet is forwarded to have one system and slot.
pub targets-IsTarget :
    (ingress : VoiceIngress) (store : SubscriptionStore)
    → IsSound store
    → (All (IsTarget ingress store) (targets ingress store))
      × ((not ingress.source_is_obp || distinct_places (targets ingress store)) ≡ true)
unfolding targets distinct_places
targets-IsTarget ingress store v =
    let (all_targets, apart) =
      forward_tables-Forwarded ingress store
        (relay_tables_with_active_source ingress.source_system (bridge_match_slot ingress)
          ingress.dst_tgid store)
        [] [] v (sources-All ingress store v)
        (record { targets_as = tt; seen_as = λ sub o. refl; places_as = λ o. refl }) in
    (all_targets, ground (arith, apart))
