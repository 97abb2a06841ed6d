-- ===== src/Subscription/ObpSource/Both.antt =====
-- Where a talkgroup has a table of its own and a reflector's,
-- src/adn_server/application/subscription/obp_source_ops.py gives one of them the OBP's leg.
use adn_dmr_peer_server.Prelude.{
  ℕ, ◌+◌, ◌≤◌, ◌≡◌, refl, ap, ◌∙◌, Bool, true, false, ◌||◌, none, [], ◌∷◌, String, ltb, ◌==◌,
  nat_eq, bytes_eq, list_beq_iff, string_eq, id_eq, leg_eq, arith, nat_beq_iff, not, filter, any,
  Bool-cases, inl, inr, if◌then◌else◌, sym, ◌&&◌,
}
use adn_dmr_peer_server.Prelude.Dict
use adn_dmr_peer_server.Prelude.Dict.{list_at}
use adn_dmr_peer_server.Wire.{bytes_3}
use adn_dmr_peer_server.Subscription.{Subscription, Text, table_key, str_text, is_reflector, hash}
use adn_dmr_peer_server.Subscription.Store.{IndexKey, SubscriptionStore, upsert}
use adn_dmr_peer_server.Subscription.Store.Counts.{one, one_of, count}
use adn_dmr_peer_server.Subscription.Store.Agrees.{is_in_table, has_text, is_source}
use adn_dmr_peer_server.Subscription.Store.Writes.{items-upsert, upsert-IsSound}
use adn_dmr_peer_server.Subscription.Store.Sound.{IsSound}
use adn_dmr_peer_server.Subscription.Store.Reads.{snapshot, has_table}
use adn_dmr_peer_server.Subscription.Router.{relay_tables_with_active_source}
use adn_dmr_peer_server.Subscription.ObpSource.{
  is_obp_source, obp_source, obp_source_needs_ensure, ensure_in_table, ensure_obp_source_for_tg,
}
use adn_dmr_peer_server.Subscription.ObpSource.Sources.{
  has_text-sorted, source-upsert, count-upsert, has_table-count, is_reflector-str_text,
  first_of-none, count_mono,
}

-- No leg of the OBP on slot 1 has the talkgroup as its target, and its id for it is free.
pub record IsUnserved (system_name : String) (dst_int : ℕ) (store : SubscriptionStore)
    : Type 0 where
  pub unmatched :
      (key : Text) → count (is_obp_source system_name key (bytes_3 dst_int) dst_int) store.items ≡ 0
  pub free : Dict.get (dst_int, 1, system_name) store.items ≡ none

-- The test of `obp_source_needs_ensure` on the two tables.
any-filter :
    (f g : Text → Bool) (t u : Text)
    → any (λ k. not (g k)) (filter f (t ∷ u ∷ [])) ≡ (f t && not (g t) || f u && not (g u))
any-filter f g t u = ground arith

needs-tables :
    (store : SubscriptionStore) (system_name : String) (t : Text) (n : ℕ)
    → let tables = relay_tables_with_active_source system_name 1 n store in
      obp_source_needs_ensure store system_name t n ≡ (
        has_table t store && not (has_text t tables)
        || has_table (hash ∷ t) store && not (has_text (hash ∷ t) tables))
unfolding obp_source_needs_ensure
needs-tables store system_name t n =
    any-filter (λ k. has_table k store)
      (λ k. has_text k (relay_tables_with_active_source system_name 1 n store)) t (hash ∷ t)

module _ (system_name : String) (n now : ℕ) where
  abbrev own : Text
  own = str_text n

  abbrev key : IndexKey
  key = (system_name, 1, n)

  -- The legs that are written for the talkgroup's own table and for its reflector's: their id is one.
  abbrev main_leg : Subscription
  main_leg = obp_source system_name own n now

  abbrev reflector_leg : Subscription
  reflector_leg = obp_source system_name (hash ∷ own) n now

  table_key-main_leg : table_key main_leg ≡ own
  unfolding table_key
  table_key-main_leg = rw (is_reflector-str_text n) refl

  table_key-reflector_leg : table_key reflector_leg ≡ hash ∷ own
  unfolding table_key
  table_key-reflector_leg = refl

  own_apart : (own == hash ∷ own) ≡ false
  own_apart =
      ground (arith, is_reflector-str_text n, list_beq_iff own (hash ∷ own), ap is_reflector)

  reflector_apart : (hash ∷ own == own) ≡ false
  reflector_apart =
      ground (arith, own_apart, list_beq_iff own (hash ∷ own), list_beq_iff (hash ∷ own) own)

  source_matches :
      (t : Text) (s : Subscription)
      → one (is_source key t s) ≤ one (is_obp_source system_name t (bytes_3 n) n s)
  source_matches t s = ground (
    arith,
    nat_beq_iff s.target_tgid n,
    list_beq_iff (bytes_3 s.target_tgid) (bytes_3 n),
    ap bytes_3,
  )

  module _ (store : SubscriptionStore) (v : IsSound store)
      (u : IsUnserved system_name n store) where
    abbrev first_step : SubscriptionStore
    first_step = upsert main_leg store

    abbrev second_step : SubscriptionStore
    second_step = upsert reflector_leg first_step

    count-first_step :
        (p : Subscription → Bool)
        → count p first_step.items ≡ count p store.items + one (p main_leg)
    count-first_step p = omega (arith, count-upsert p main_leg store v, ap (one_of p) u.free)

    count-second_step :
        (p : Subscription → Bool)
        → count p second_step.items ≡ count p store.items + one (p reflector_leg)
    count-second_step p = omega (
      arith,
      count-upsert p reflector_leg first_step (upsert-IsSound main_leg store v),
      count-first_step p,
      ap (one_of p) (
          ap (Dict.get (n, 1, system_name)) (items-upsert main_leg store)
          ∙ Dict.get-put_self (n, 1, system_name) main_leg store.items),
    )

    unsourced : (t : Text) → count (is_source key t) store.items ≡ 0
    unsourced t = omega (
      arith,
      count_mono (is_source key t) (is_obp_source system_name t (bytes_3 n) n) store.items
          (source_matches t),
      u.unmatched t,
    )

    -- With both legs written the talkgroup's own table has no source.
    own_unsourced :
        has_text own (relay_tables_with_active_source system_name 1 n second_step) ≡ false
    unfolding relay_tables_with_active_source
    own_unsourced =
        let w = upsert-IsSound reflector_leg first_step (upsert-IsSound main_leg store v) in
        has_text-sorted own (list_at (Dict.get key second_step.source_tables))
        ∙ ground (
          arith,
          w.agrees.sources_as key own,
          count-second_step (is_source key own),
          unsourced own,
          table_key-reflector_leg,
          reflector_apart,
        )

    main_ensured :
        has_table own store ≡ true
        → ensure_in_table system_name (bytes_3 n) n now own store ≡ first_step
    unfolding ensure_in_table snapshot
    main_ensured h =
        rw
          (
            h,
            first_of-none (is_obp_source system_name own (bytes_3 n) n) store.items
                (u.unmatched own),
          )
          refl

    reflector_same : has_table (hash ∷ own) first_step ≡ has_table (hash ∷ own) store
    reflector_same =
        has_table-count (hash ∷ own) first_step (upsert-IsSound main_leg store v)
        ∙ ap (ltb 0) (
            count-first_step (is_in_table (hash ∷ own))
            ∙ ground (arith, table_key-main_leg, own_apart))
        ∙ sym (has_table-count (hash ∷ own) store v)

    reflector_ensured :
        ensure_in_table system_name (bytes_3 n) n now (hash ∷ own) first_step
        ≡ (if has_table (hash ∷ own) store then second_step else first_step)
    unfolding ensure_in_table snapshot
    reflector_ensured =
        let p = is_obp_source system_name (hash ∷ own) (bytes_3 n) n in
        let none_yet : count p first_step.items ≡ 0 =
          count-first_step p
          ∙ ground (arith, u.unmatched (hash ∷ own), table_key-main_leg, own_apart) in
        rw (reflector_same, first_of-none p first_step.items none_yet) refl

    own_same : has_table own second_step ≡ has_table own store
    own_same =
        has_table-count own second_step
          (upsert-IsSound reflector_leg first_step (upsert-IsSound main_leg store v))
        ∙ ap (ltb 0) (
            count-second_step (is_in_table own)
            ∙ ground (arith, table_key-reflector_leg, reflector_apart))
        ∙ sym (has_table-count own store v)

    main_sourced : has_text own (relay_tables_with_active_source system_name 1 n first_step) ≡ true
    unfolding relay_tables_with_active_source
    main_sourced =
        has_text-sorted own (list_at (Dict.get key first_step.source_tables))
        ∙ ap (λ t. has_text t (list_at (Dict.get key first_step.source_tables)))
            (sym table_key-main_leg)
        ∙ source-upsert main_leg store refl

    main_needs_none :
        has_table (hash ∷ own) store ≡ false
        → obp_source_needs_ensure first_step system_name own n ≡ false
    main_needs_none h =
        needs-tables first_step system_name own n ∙ ground (arith, main_sourced, reflector_same, h)

    both_needs :
        has_table own store ≡ true → obp_source_needs_ensure second_step system_name own n ≡ true
    both_needs h =
        needs-tables second_step system_name own n ∙ ground (arith, own_unsourced, own_same, h)

-- For a talkgroup with a table of its own, in a sound store where the OBP has no leg that matches the
-- talkgroup: after both tables are seen to, one still lacks the OBP's active leg just where the
-- talkgroup also has a reflector's table. (The legs written for the two have one id, so that the
-- second replaces the first.)
pub needs_ensure-ensure :
    (system_name : String) (n now : ℕ) (store : SubscriptionStore)
    → IsSound store
    → IsUnserved system_name n store
    → has_table (str_text n) store ≡ true
    → obp_source_needs_ensure
        (ensure_obp_source_for_tg store system_name (str_text n) (bytes_3 n) n now)
        system_name
        (str_text n)
        n
      ≡ has_table (hash ∷ str_text n) store
unfolding ensure_obp_source_for_tg
needs_ensure-ensure system_name n now store v u h =
    ap (λ s. obp_source_needs_ensure s system_name (str_text n) n)
      (ap (ensure_in_table system_name (bytes_3 n) n now (hash ∷ str_text n))
          (main_ensured system_name n now store v u h)
        ∙ reflector_ensured system_name n now store v u)
    ∙ elim (Bool-cases (has_table (hash ∷ str_text n) store)) [
      | inl both ↦ rw both (both_needs system_name n now store v u h)
      | inr alone ↦ rw alone (main_needs_none system_name n now store v u alone)
    ]
