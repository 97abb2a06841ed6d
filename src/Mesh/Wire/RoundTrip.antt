-- ===== src/Mesh/Wire/RoundTrip.antt =====
-- OpenBridge v1 datagrams: what src/adn_server/infrastructure/mesh/obp_v1.py builds it accepts, and
-- what it accepts has been signed.
use adn_dmr_peer_server.Prelude.{
  ℕ, ◌≤◌, ◌≡◌, ◌↔◌, ap, sym, ◌∙◌, Bool, true, false, not, ◌||◌, Option, none, some, ◌++◌, ltb,
  length, length-append, length-take, take, drop, slice, if◌then◌else◌, ◌==◌, bytes_eq,
  list_beq_iff, arith,
}
use adn_dmr_peer_server.Prelude.Slices.{
  take-append_at, slice-field, take-append_le, take-append-drop,
}
use adn_dmr_peer_server.Wire.{Bytes}
use adn_dmr_peer_server.Mesh.Wire.{Mac, dmrd}
use adn_dmr_peer_server.Mesh.Wire.ObpV1.{verify_dmrd_v1}

-- The shape of a verification: a head, a length and a digest are tested.
abbrev tested {ℓ} : {A : Type ℓ} → Bool → Bool → Bool → A → Option A
tested head short signed a = if not head || short then none else if not signed then none else some a

tested_iff {ℓ} :
    {A : Type ℓ} (head short signed : Bool) (a b : A)
    → (tested head short signed a ≡ some b)
      ↔ ((head ≡ true) × (short ≡ false) × (signed ≡ true) × (a ≡ b))
tested_iff head short signed a b = ground arith

ltb-false : (n m : ℕ) → (ltb n m ≡ false) ↔ (m ≤ n)
ltb-false n m = ground arith

module _ (hmac_sha1 : Mac) where
  verify_dmrd_v1_iff :
      (packet passphrase payload : Bytes)
      → (verify_dmrd_v1 hmac_sha1 packet passphrase ≡ some payload) ↔ (
          (take 4 packet ≡ dmrd)
          × (73 ≤ length packet)
          × (take 53 packet ≡ payload)
          × (slice 53 73 packet ≡ hmac_sha1 passphrase payload))
  unfolding verify_dmrd_v1
  verify_dmrd_v1_iff packet passphrase payload =
      let digest = hmac_sha1 passphrase (take 53 packet) in
      let test =
        tested_iff (take 4 packet == dmrd) (ltb (length packet) 73) (slice 53 73 packet == digest)
          (take 53 packet) payload in
      (
        (λ h.
            let (head, long, signed, cut) = test.0 h in
            (
              (list_beq_iff (take 4 packet) dmrd).0 head,
              (ltb-false (length packet) 73).0 long,
              cut,
              (list_beq_iff (slice 53 73 packet) digest).0 signed ∙ ap (hmac_sha1 passphrase) cut,
            )),
        (λ (head, long, cut, signed). test.1 (
          (list_beq_iff (take 4 packet) dmrd).1 head,
          (ltb-false (length packet) 73).1 long,
          (list_beq_iff (slice 53 73 packet) digest).1
              (signed ∙ ap (hmac_sha1 passphrase) (sym cut)),
          cut,
        )),
      )

module _ (hmac_sha1 : Mac)
    (digest_len : (key octets : Bytes) → length (hmac_sha1 key octets) ≡ 20) where
  -- A payload with its digest passes whatever follows it.
  verify_dmrd_v1-signed :
      (payload rest passphrase : Bytes)
      → length payload ≡ 53
      → take 4 payload ≡ dmrd
      → verify_dmrd_v1 hmac_sha1 (payload ++ (hmac_sha1 passphrase payload ++ rest)) passphrase
        ≡ some payload
  verify_dmrd_v1-signed payload rest passphrase h k =
      let mac = hmac_sha1 passphrase payload in
      (verify_dmrd_v1_iff hmac_sha1 (payload ++ (mac ++ rest)) passphrase payload).1 (
        take-append_le 4 payload (mac ++ rest) (omega (arith, h)) ∙ k,
        omega (
          arith,
          length-append payload (mac ++ rest),
          length-append mac rest,
          digest_len passphrase payload,
        ),
        take-append_at 53 payload (mac ++ rest) h,
        slice-field 53 73 payload mac rest h (digest_len passphrase payload),
      )

  verify_dmrd_v1-inverse :
      (packet passphrase payload : Bytes)
      → verify_dmrd_v1 hmac_sha1 packet passphrase ≡ some payload
      → (rest : Bytes) × (packet ≡ payload ++ (hmac_sha1 passphrase payload ++ rest))
        × (length payload ≡ 53)
        × (take 4 payload ≡ dmrd)
  verify_dmrd_v1-inverse packet passphrase payload h =
      let (head, long, cut, signed) =
        (verify_dmrd_v1_iff hmac_sha1 packet passphrase payload).0 h in
      let size : length payload ≡ 53 =
        sym (ap length cut) ∙ length-take 53 packet ∙ omega (arith, long) in
      let parts : payload ++ (hmac_sha1 passphrase payload ++ drop 20 (drop 53 packet)) ≡ packet =
        rw (← signed, ← cut)
          (ap (λ t. take 53 packet ++ t) (take-append-drop 20 (drop 53 packet))
            ∙ take-append-drop 53 packet) in
      (
        drop 20 (drop 53 packet),
        sym parts,
        size,
        sym (take-append_le 4 payload _ (omega (arith, size))) ∙ ap (take 4) parts ∙ head,
      )

  -- A v1 datagram is accepted exactly if it is a 53-byte payload that begins with DMRD, then the
  -- keyed digest of that payload, and then anything; what is accepted is the payload. It is assumed
  -- that a digest has 20 bytes.
  pub verify_dmrd_v1-some_iff :
      (packet passphrase payload : Bytes)
      → (verify_dmrd_v1 hmac_sha1 packet passphrase ≡ some payload) ↔ (
          (rest : Bytes) × (packet ≡ payload ++ (hmac_sha1 passphrase payload ++ rest))
          × (length payload ≡ 53)
          × (take 4 payload ≡ dmrd))
  verify_dmrd_v1-some_iff packet passphrase payload = (
    verify_dmrd_v1-inverse packet passphrase payload,
    λ (rest, e, h, k). rw e (verify_dmrd_v1-signed payload rest passphrase h k),
  )
