-- ===== src/Riscv/CompressedInstructions/Registers.antt =====
-- core/architecture/riscv/compressed_instructions.rs: which register the compressed formats name.
use ace_riscv.Base.{
  ℕ, ◌+◌, ◌*◌, ◌/◌, ◌%◌, ◌^◌, ◌<◌, ◌≡◌, refl, ◌⊎◌, inl, inr, bit_and, bit_or, ok, err, arith,
  invalid_riscv_instruction, usize_mod,
}
use ace_riscv.Base.Bits.{bit_and_mask, bit_and_step, bit_or_step}
use ace_riscv.Riscv.CompressedInstructions.{
  DecodedInstruction, other, decode_compressed, register_index, masked_register,
  decode_result_register,
}

-- `x | 3` ends in two ones.
bit_or_three : (x : ℕ) → bit_or x 3 % 4 ≡ 3
bit_or_three x = omega (arith, bit_or_step x 3, bit_or_step (x / 2) 1)

-- The two lowest bits under the masks.
masked_mod_four : (x : ℕ) → x % 4 ≡ 3 → bit_and x 0xe003 % 4 ≡ 3
masked_mod_four x h = omega (arith, bit_and_step x 0xe003, bit_and_step (x / 2) 0x7001)

decode_compressed_of_three :
    (x : ℕ) → x % 4 ≡ 3 → decode_compressed x ≡ err (invalid_riscv_instruction x)
unfolding decode_compressed
decode_compressed_of_three x h = ground (arith, masked_mod_four x h)

-- Both callers set the two lowest bits of the instruction, and then no compressed format matches: what
-- `riscv_decode` does not decode as a load or a store is refused.
pub decode_result_register_of_three :
    (decode : ℕ → DecodedInstruction) (x : ℕ)
    → decode (bit_or x 3 % 2 ^ 32) ≡ other
    → decode_result_register decode (bit_or x 3) ≡ err (invalid_riscv_instruction (bit_or x 3))
unfolding decode_result_register register_index
decode_result_register_of_three decode x h =
    ground (arith, decode_compressed_of_three (bit_or x 3) (bit_or_three x))

-- The register field of a store, of 5 bits from bit 2 on, goes through a shift to the left, a mask and a
-- division.
masked_register_lem : (x shift : ℕ) → shift < 4 → masked_register x shift ≡ x * 2 ^ shift / 8 % 32
masked_register_lem x shift h =
    let y : ℕ = x * 2 ^ shift % usize_mod in
    omega (
      arith,
      bit_and_step y 248,
      bit_and_step (y / 2) 124,
      bit_and_step (y / 2 / 2) 62,
      bit_and_mask 5 (y / 2 / 2 / 2),
    )

-- The compressed stores name the register of their field: 8 and the three bits from bit 2 on, or for
-- those relative to the stack pointer the five bits from bit 2 on.
pub compressed_store_register :
    (x : ℕ)
    → (bit_and x 0xe003 ≡ 0xe000 → decode_compressed x ≡ ok (8 + x / 4 % 8))
      × (bit_and x 0xe003 ≡ 0xc000 → decode_compressed x ≡ ok (8 + x / 4 % 8))
      × (bit_and x 0xe003 ≡ 0xe002 → decode_compressed x ≡ ok (x / 4 % 32))
      × (bit_and x 0xe003 ≡ 0xc002 → decode_compressed x ≡ ok (x / 4 % 32))
unfolding decode_compressed
compressed_store_register x =
    let field = bit_and_mask 3 (x / 2 ^ 2) in
    let low = masked_register_lem (8 + bit_and (x / 2 ^ 2) 7) 3 (omega arith) in
    let wide = masked_register_lem x 1 (omega arith) in
    (
      λ h. rw h (ground arith),
      λ h. rw h (ground arith),
      λ h. rw h (ground arith),
      λ h. rw h (ground arith),
    )

-- The compressed loads relative to the stack pointer name register 0, whatever their field says.
pub compressed_load_register_zero :
    (x : ℕ) → (bit_and x 0xe003 ≡ 0x4002) ⊎ (bit_and x 0xe003 ≡ 0x6002) → decode_compressed x ≡ ok 0
unfolding decode_compressed
compressed_load_register_zero x (inl h) = rw h refl
compressed_load_register_zero x (inr h) = rw h refl
