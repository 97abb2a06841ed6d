-- ===== src/Subscription/Router.antt =====
-- src/adn_server/application/subscription/router.py: `SubscriptionRouter`, with the messages of
-- src/adn_server/domain/voice_routing.py, `build_voice_ingress` of
-- src/adn_server/application/subscription/ingress.py and the read-only queries of
-- src/adn_server/application/subscription/subscription_queries.py. A set of texts is a list that is
-- sorted before it is read.
pub mod Safety
mod Tests
use adn_dmr_peer_server.Prelude.{
  ℕ, Bool, true, false, not, ◌&&◌, ◌||◌, Option, none, some, List, [], ◌∷◌, ◌++◌, String, any,
  filter, ltb, if◌then◌else◌, ◌==◌, nat_eq, bytes_eq, string_eq, leg_eq,
}
use adn_dmr_peer_server.Prelude.Dict
use adn_dmr_peer_server.Prelude.Dict.{list_at}
use adn_dmr_peer_server.Wire.{Bytes, int_id}
use adn_dmr_peer_server.Subscription.{Subscription, Text, is_active, table_key, str_text}
use adn_dmr_peer_server.Subscription.Store.{SubscriptionStore}
use adn_dmr_peer_server.Subscription.Store.Reads.{snapshot, legs_in_table}

pub record VoiceIngress : Type 0 where
  pub source_system : String
  pub slot : ℕ
  pub dst_tgid : ℕ
  pub source_is_obp : Bool
  pub call_type : String
  pub stream_id : Option ℕ
  pub peer_id : Option ℕ
  pub src_id : Option ℕ

pub record ForwardLeg : Type 0 where
  pub target_system : String
  pub slot : ℕ
  pub target_tgid : ℕ

-- OBP sources are always looked up on slot 1.
abbrev pub bridge_match_slot : VoiceIngress → ℕ
bridge_match_slot ingress = if ingress.source_is_obp then 1 else ingress.slot

-- `_optional_dmr_id` and `_stream_id`: no bytes, and the number 0, are no id.
abbrev pub optional_id : Bytes → Option ℕ
optional_id raw = if int_id raw == 0 then none else some (int_id raw)

unfoldable pub build_voice_ingress :
    String → String → Bytes → Bytes → Bytes → ℕ → String → Bytes → Option VoiceIngress
build_voice_ingress source_system system_mode peer_id rf_src dst_id slot call_type stream_id =
    if call_type == "group" || call_type == "vcsbk"
    then some (record {
      source_system = source_system;
      slot = if slot == 1 then 1 else 2;
      dst_tgid = int_id dst_id;
      source_is_obp = system_mode == "OPENBRIDGE";
      call_type = call_type;
      stream_id = optional_id stream_id;
      peer_id = optional_id peer_id;
      src_id = optional_id rf_src;
    })
    else none

-- The order of Python's `str`: by code points.
unfoldable pub text_ltb : Text → Text → Bool
text_ltb t [] = false
text_ltb [] (d ∷ u) = true
text_ltb (c ∷ t) (d ∷ u) = ltb c d || c == d && text_ltb t u

unfoldable pub insert_text : Text → List Text → List Text
unfolding text_ltb
insert_text t [] = t ∷ []
insert_text t (u ∷ us) =
    let rest = insert_text t us in if text_ltb u t then u ∷ rest else t ∷ u ∷ us

-- `sorted`
unfoldable pub sorted : List Text → List Text
unfolding insert_text
sorted [] = []
sorted (t ∷ ts) = insert_text t (sorted ts)

unfoldable pub relay_tables_with_active_source : String → ℕ → ℕ → SubscriptionStore → List Text
unfolding sorted
relay_tables_with_active_source system slot tgid store =
    sorted (list_at (Dict.get (system, slot, tgid) store.source_tables))

abbrev pub forward_leg : Subscription → ForwardLeg
forward_leg sub = record {
  target_system = sub.system;
  slot = sub.channel.slot;
  target_tgid = sub.target_tgid;
}

-- `(system, slot) in seen_obp`
abbrev pub is_seen : Subscription → List (String × ℕ) → Bool
is_seen sub seen = any (λ k. k.0 == sub.system && k.1 == sub.channel.slot) seen

-- The inner loop, over the legs of a table, with the set `seen_obp` and the legs it has appended.
unfoldable pub forward_legs :
    VoiceIngress
    → List Subscription
    → List (String × ℕ)
    → List Subscription
    → List (String × ℕ) × List Subscription
forward_legs ingress [] seen legs = (seen, legs)
forward_legs ingress (sub ∷ subs) seen legs =
    let skipped = forward_legs ingress subs seen legs in
    let forwarded = forward_legs ingress subs seen (legs ++ sub ∷ []) in
    let first =
      forward_legs ingress subs ((sub.system, sub.channel.slot) ∷ seen) (legs ++ sub ∷ []) in
    if sub.system == ingress.source_system || not (is_active sub)
    then skipped
    else if ingress.source_is_obp
    then if is_seen sub seen then skipped else first
    else forwarded

-- The outer loop, over the tables.
unfoldable pub forward_tables :
    VoiceIngress
    → SubscriptionStore
    → List Text
    → List (String × ℕ)
    → List Subscription
    → List Subscription
unfolding forward_legs legs_in_table
forward_tables ingress store [] seen legs = legs
forward_tables ingress store (t ∷ ts) seen legs =
    let (seen, legs) = forward_legs ingress (legs_in_table t store) seen legs in
    forward_tables ingress store ts seen legs

-- The legs that `resolve` forwards to.
unfoldable pub targets : VoiceIngress → SubscriptionStore → List Subscription
unfolding forward_tables relay_tables_with_active_source
targets ingress store =
    forward_tables ingress store
      (relay_tables_with_active_source ingress.source_system (bridge_match_slot ingress)
        ingress.dst_tgid store)
      [] []

unfoldable pub forward_all : List Subscription → List ForwardLeg
forward_all [] = []
forward_all (sub ∷ subs) = forward_leg sub ∷ forward_all subs

unfoldable pub resolve : VoiceIngress → SubscriptionStore → List ForwardLeg
unfolding targets forward_all
resolve ingress store = forward_all (targets ingress store)

unfoldable pub unique_slots : List Subscription → List ℕ → List ℕ
unique_slots [] slots = slots
unique_slots (sub ∷ subs) slots =
    unique_slots subs
      (if any (λ n. n == sub.channel.slot) slots then slots else slots ++ sub.channel.slot ∷ [])

unfoldable pub insert_slot : ℕ → List ℕ → List ℕ
insert_slot n [] = n ∷ []
insert_slot n (m ∷ ms) = let rest = insert_slot n ms in if ltb m n then m ∷ rest else n ∷ m ∷ ms

unfoldable pub sorted_slots : List ℕ → List ℕ
unfolding insert_slot
sorted_slots [] = []
sorted_slots (n ∷ ns) = insert_slot n (sorted_slots ns)

-- `active_system_slots_for_tg_in_store`
unfoldable pub active_system_slots : String → ℕ → SubscriptionStore → List ℕ
unfolding snapshot str_text unique_slots sorted_slots
active_system_slots system tgid store = sorted_slots (
    unique_slots
      (filter (λ s. (table_key s == str_text tgid && s.system == system) && is_active s)
        (snapshot store))
      [])
