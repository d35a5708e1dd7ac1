-- ===== src/Riscv/CompressedInstructions.antt =====
-- core/architecture/riscv/compressed_instructions.rs. The crate `riscv_decode` is a parameter: what it
-- makes of an instruction of 32 bits, as far as this code looks at it.
pub mod Registers
use ace_riscv.Base.{
  ℕ, ◌+◌, ◌-◌, ◌*◌, ◌/◌, ◌%◌, ◌^◌, Bool, ◌==◌, if◌then◌else◌, bit_and, Outcome, ok, err, panic,
  ◌>>=◌, ok_or, invalid_riscv_instruction, usize_mod,
}
use ace_riscv.Riscv.Registers.{GeneralPurposeRegister, from_index}

-- A load with its field `rd`, a store with its field `rs2`, or anything else, errors included.
pub data DecodedInstruction : Type 0 where
  load store : ℕ → DecodedInstruction
  other : DecodedInstruction

-- `mtinst & mask == match`
abbrev pub matches : ℕ → ℕ → ℕ → Bool
matches mask pattern mtinst = bit_and mtinst mask == pattern

-- The closure `rv_x`.
abbrev pub rv_x : ℕ → ℕ → ℕ → ℕ
rv_x x s n = bit_and (x / 2 ^ s) (2 ^ n - 1)

-- `shift_right(x, -shift) & reg_mask`, divided by 8: a shift to the left that drops what leaves the word.
abbrev pub masked_register : ℕ → ℕ → ℕ
masked_register x shift = bit_and (x * 2 ^ shift % usize_mod) (2 ^ 8 - 2 ^ 3) / 8

-- The section for what `riscv_decode` does not decode.
unfoldable pub decode_compressed : ℕ → Outcome ℕ
decode_compressed mtinst =
    if matches 0xe003 0x4000 mtinst
    then ok (8 + rv_x mtinst 2 3)
    else if matches 0xe003 0x6000 mtinst
    then ok (8 + rv_x mtinst 2 3)
    else if matches 0xe003 0xc000 mtinst
    then ok (masked_register (8 + rv_x mtinst 2 3) 3)
    else if matches 0xe003 0xe000 mtinst
    then ok (masked_register (8 + rv_x mtinst 2 3) 3)
    else if matches 0xe003 0x4002 mtinst
    then ok 0
    else if matches 0xe003 0xc002 mtinst
    then ok (masked_register mtinst 1)
    else if matches 0xe003 0x6002 mtinst
    then ok 0
    else if matches 0xe003 0xe002 mtinst
    then ok (masked_register mtinst 1)
    else err (invalid_riscv_instruction mtinst)

module _ (decode : ℕ → DecodedInstruction) where
  unfoldable pub register_index : ℕ → Outcome ℕ
  unfolding decode_compressed
  register_index mtinst = elim (decode (mtinst % 2 ^ 32)) [
    | load rd ↦ ok rd
    | store rs2 ↦ ok rs2
    | other ↦ decode_compressed mtinst
  ]

  unfoldable pub decode_result_register : ℕ → Outcome GeneralPurposeRegister
  unfolding register_index
  decode_result_register mtinst = do
    index ← register_index mtinst
    ok_or (from_index index) (invalid_riscv_instruction mtinst)
