-- ===== src/Initialization/Setup/Permission.antt =====
-- core/memory_protector/hypervisor_memory_protector.rs, `setup`: which accesses a hart may make after it.
use ace_riscv.Base.{ℕ, ◌/◌, ◌^◌, ◌<◌, ◌≡◌, refl, ◌⊎◌, inl, inr, ◌∙◌, ◌&&◌, ◌==◌, if◌then◌else◌}
use ace_riscv.Memory.Layout.{MemoryLayout}
use ace_riscv.Memory.Layout.Laws.{IsLayout}
use ace_riscv.Riscv.Csr
use ace_riscv.Riscv.Csr.{Csrs, pmpcfg0, pmpaddr0, pmpaddr1}
use ace_riscv.Riscv.Protection.{
  split_memory_into_confidential_and_non_confidential, close_access_to_confidential_memory,
}
use ace_riscv.Riscv.Pmp.{
  IsGranted, close-IsGranted, mode, permission, IsConfigured, is_confidential,
  permission-configured, permission-off, close-mode,
}
use ace_riscv.Initialization.Setup.{setup}

module _ (l : MemoryLayout) (csrs : Csrs) where
  setup-mode : (mode (setup l csrs) 0 ≡ mode csrs 0) × (mode (setup l csrs) 1 ≡ mode csrs 1)
  unfolding setup split_memory_into_confidential_and_non_confidential Csr.set
  setup-mode =
      let split =
        split_memory_into_confidential_and_non_confidential l.confidential_memory_start
          l.confidential_memory_end csrs in
      let start = Csr.set pmpaddr0 (l.confidential_memory_start / 2 ^ 2) csrs in
      let written = Csr.set pmpaddr1 (l.confidential_memory_end / 2 ^ 2) start in
      ((close-mode split).0 ∙ (close-mode written).0, (close-mode split).1 ∙ (close-mode written).1)

  setup-IsConfigured : mode csrs 0 ≡ 0 → mode csrs 1 ≡ 1 → IsConfigured l (setup l csrs)
  unfolding setup split_memory_into_confidential_and_non_confidential Csr.set
      close_access_to_confidential_memory Csr.read_and_clear_bits
  setup-IsConfigured a b = record {
    first_off = setup-mode.0 ∙ a;
    second_tor = setup-mode.1 ∙ b;
    from_start = refl;
    to_end = refl;
  }

-- The setup of a hart whose first entry is off denies the accesses to the confidential memory where the
-- second entry has the mode TOR before. Where that entry is off, it stays off, and the accesses are
-- those that the entries behind it permit.
pub setup-permission :
    (rest : ℕ → ℕ) (l : MemoryLayout) (csrs : Csrs) (j address : ℕ)
    → IsLayout l
    → mode csrs 0 ≡ 0
    → (mode csrs 1 ≡ 1) ⊎ (mode csrs 1 ≡ 0)
    → j < 3
    → permission rest (setup l csrs) j address
      ≡ (if (mode csrs 1 == 1) && is_confidential l address then 0 else rest address)
unfolding setup IsGranted
setup-permission rest l csrs j address v first (inl tor) h =
    let split =
      split_memory_into_confidential_and_non_confidential l.confidential_memory_start
        l.confidential_memory_end csrs in
    let (_, a) = close-IsGranted split j h in
    permission-configured rest l (setup l csrs) j address v (setup-IsConfigured l csrs first tor)
    ∙ rw (a, tor) refl
setup-permission rest l csrs j address v first (inr off) h =
    let (a, b) = setup-mode l csrs in
    permission-off rest (setup l csrs) j address (a ∙ first) (b ∙ off) ∙ rw off refl
