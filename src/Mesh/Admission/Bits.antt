-- ===== src/Mesh/Admission/Bits.antt =====
-- src/adn_server/domain/mesh_admission.py: `call_attributes`, the bits byte of a DMRD frame.
use adn_dmr_peer_server.Prelude.{
  ℕ, zero, suc, ◌+◌, ◌/◌, ◌%◌, ◌<◌, ◌≡◌, refl, Bool, true, false, not, ◌&&◌, bit_and, if◌then◌else◌,
  ◌==◌, nat_eq, nat_beq, nat_beq_iff, arith,
}
use adn_dmr_peer_server.Mesh.Admission.{CallType, unit, group, vcsbk, CallAttributes}

-- truth of a number
abbrev is_set : ℕ → Bool
is_set n = not (n == 0)

unfoldable pub call_attributes : ℕ → CallAttributes
call_attributes bits = record {
  slot = if is_set (bit_and bits 0x80) then 2 else 1;
  call_type =
      if is_set (bit_and bits 0x40)
      then unit
      else if bit_and bits 0x23 == 0x23
      then vcsbk
      else group;
  frame_type = bit_and bits 0x30 / 16;
  dtype_vseq = bit_and bits 0xF;
}

-- The same byte read by division: bit 7 is the slot, bit 6 marks a private call, the preamble has
-- bits 5, 1 and 0, bits 5 and 4 are the frame type and the low four the data type.
abbrev pub call_type_of : ℕ → CallType
call_type_of bits =
    if bits / 64 % 2 == 1
    then unit
    else if bits / 32 % 2 == 1 && bits % 4 == 3
    then vcsbk
    else group

-- Whether `p` is true of all numbers smaller than the bound, by trying them.
tried : (ℕ → Bool) → ℕ → Bool
tried p zero = true
tried p (suc bound) = tried p bound && p bound

tried-lookup : (p : ℕ → Bool) (bound k : ℕ) → k < bound → tried p bound ≡ true → p k ≡ true
unfolding tried
tried-lookup p zero k small h = absurd (omega arith)
tried-lookup p (suc bound) k small h = ground (arith, tried-lookup p bound k)

same_call_type : CallType → CallType → Bool
same_call_type unit unit = true
same_call_type group group = true
same_call_type vcsbk vcsbk = true
same_call_type _ _ = false

same_call_type-eq : (a b : CallType) → same_call_type a b ≡ true → a ≡ b
unfolding same_call_type
same_call_type-eq a b h = ground arith

-- For every byte, the decoded slot, frame type, data type and call type are those that its binary
-- digits say.
pub call_attributes_fields :
    (bits : ℕ)
    → bits < 256
    → ((call_attributes bits).slot ≡ bits / 128 + 1)
      × ((call_attributes bits).call_type ≡ call_type_of bits)
      × ((call_attributes bits).frame_type ≡ bits / 16 % 4)
      × ((call_attributes bits).dtype_vseq ≡ bits % 16)
unfolding call_attributes tried same_call_type
call_attributes_fields bits h = (
  (nat_beq_iff _ _).0
      (tried-lookup (λ x. nat_beq (call_attributes x).slot (x / 128 + 1)) 256 bits h refl),
  same_call_type-eq _ _ (
      tried-lookup (λ x. same_call_type (call_attributes x).call_type (call_type_of x)) 256 bits h
        refl),
  (nat_beq_iff _ _).0
      (tried-lookup (λ x. nat_beq (call_attributes x).frame_type (x / 16 % 4)) 256 bits h refl),
  (nat_beq_iff _ _).0
      (tried-lookup (λ x. nat_beq (call_attributes x).dtype_vseq (x % 16)) 256 bits h refl),
)
