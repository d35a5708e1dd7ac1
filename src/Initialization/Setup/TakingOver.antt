-- ===== src/Initialization/Setup/TakingOver.antt =====
-- core/initialization/mod.rs, `ace_setup_this_hart`: the registers of a hart after its setup.
use ace_riscv.Base.{
  ℕ, ◌-◌, ◌/◌, ◌%◌, ◌^◌, ◌<◌, ◌≡◌, ◌≢◌, refl, arith, ◌∙◌, Bool, Bool-cases, ◌||◌, inl, inr, ◌==◌,
  if◌then◌else◌,
}
use ace_riscv.Base.Bits.{bit, bit-le, bit-bit_and, bit-two_pow_self, bit-two_pow_ne}
use ace_riscv.Memory.Layout.{MemoryLayout}
use ace_riscv.Riscv.Words.{disable_bit, bit-complement}
use ace_riscv.Riscv.Csr
use ace_riscv.Riscv.Csr.{Csrs, medeleg, mtvec, mscratch, pmpcfg0, pmpaddr0, pmpaddr1}
use ace_riscv.Riscv.Protection.{
  split_memory_into_confidential_and_non_confidential, close_access_to_confidential_memory,
}
use ace_riscv.Control.HardwareHart.{HardwareHart, swap_mscratch}
use ace_riscv.Riscv.Pmp.{mode, IsGranted, IsGranted-same, close-IsGranted, close-mode}
use ace_riscv.Initialization.Setup.{setup, setup_hart}

bit-disable_bit_self : (a i : ℕ) → i < 64 → 2 ^ i < 2 ^ 64 → bit (disable_bit a i) i ≡ 0
unfolding disable_bit
bit-disable_bit_self a i h small =
    let e = bit-complement 64 (2 ^ i) i small h in
    rw (bit-bit_and i a) (omega (arith, e, bit-two_pow_self i))

bit-disable_bit_ne :
    (a i j : ℕ) → j < 64 → 2 ^ i < 2 ^ 64 → i ≢ j → bit (disable_bit a i) j ≡ bit a j
unfolding disable_bit
bit-disable_bit_ne a i j h small ne =
    let e = bit-complement 64 (2 ^ i) j small h in
    rw (bit-bit_and j a) (omega (arith, e, bit-two_pow_ne i j ne, bit-le a j))

abbrev pub is_taken : ℕ → Bool
is_taken cause = (cause == 9) || (cause == 10)

delegated :
    (value j : ℕ)
    → j < 64
    → bit (disable_bit (disable_bit value 9) 10) j ≡ (if is_taken j then 0 else bit value j)
delegated value j h = elim (Bool-cases (j == 10)) [
  | inl e ↦
      let k : j ≡ 10 = ground arith in
      rw k (bit-disable_bit_self (disable_bit value 9) 10 (omega arith) (omega arith))
  | inr e ↦
      let k : 10 ≢ j = ground arith in
      bit-disable_bit_ne (disable_bit value 9) 10 j h (omega arith) k ∙ elim (Bool-cases (j == 9)) [
        | inl f ↦
            let m : j ≡ 9 = ground arith in
            rw m (bit-disable_bit_self value 9 (omega arith) (omega arith))
        | inr f ↦
            let m : 9 ≢ j = ground arith in
            bit-disable_bit_ne value 9 j h (omega arith) m ∙ rw (e, f) refl
      ]
]

-- After its setup, a hart has none of the permission bits of the first two PMP entries set, which keep
-- their modes, and the bounds of the confidential memory in their addresses; the address of its state is
-- in `mscratch` and OpenSBI's value is saved; ecalls of the supervisor and of the virtual supervisor trap
-- into the monitor and every other delegation is as it was; and the trap vector is the given address,
-- rounded down to four bytes.
pub setup_hart-takes_over :
    (l : MemoryLayout) (address trap_vector : ℕ) (w : HardwareHart) (cause : ℕ)
    → cause < 64
    → IsGranted 0 (setup_hart l address trap_vector w).csrs
      × (mode (setup_hart l address trap_vector w).csrs 0 ≡ mode w.csrs 0)
      × (mode (setup_hart l address trap_vector w).csrs 1 ≡ mode w.csrs 1)
      × ((setup_hart l address trap_vector w).csrs pmpaddr0 ≡ l.confidential_memory_start / 4)
      × ((setup_hart l address trap_vector w).csrs pmpaddr1 ≡ l.confidential_memory_end / 4)
      × ((setup_hart l address trap_vector w).csrs mscratch ≡ address)
      × ((setup_hart l address trap_vector w).previous_mscratch ≡ w.csrs mscratch)
      × (bit ((setup_hart l address trap_vector w).csrs medeleg) cause
          ≡ (if is_taken cause then 0 else bit (w.csrs medeleg) cause))
      × ((setup_hart l address trap_vector w).csrs mtvec ≡ trap_vector - trap_vector % 4)
unfolding setup_hart setup swap_mscratch Csr.set Csr.read_and_clear_bit
    split_memory_into_confidential_and_non_confidential
setup_hart-takes_over l address trap_vector w cause h =
    let start = Csr.set mscratch address (Csr.set mscratch w.previous_mscratch w.csrs) in
    let written =
      Csr.set pmpaddr1 (l.confidential_memory_end / 2 ^ 2)
        (Csr.set pmpaddr0 (l.confidential_memory_start / 2 ^ 2) start) in
    let split = close_access_to_confidential_memory written in
    (
      IsGranted-same 0 (close_access_to_confidential_memory split)
          (setup_hart l address trap_vector w).csrs refl (close-IsGranted split),
      (close-mode split).0 ∙ (close-mode written).0,
      (close-mode split).1 ∙ (close-mode written).1,
      refl,
      refl,
      refl,
      refl,
      delegated (w.csrs medeleg) cause h,
      omega arith,
    )
