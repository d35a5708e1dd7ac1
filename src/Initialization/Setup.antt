-- ===== src/Initialization/Setup.antt =====
-- core/initialization/mod.rs, `ace_setup_this_hart`, and `HypervisorMemoryProtector::setup`: every
-- physical hart takes the traps of the monitor, writes the bounds of the confidential memory to the
-- first two PMP entries and clears their permissions. The loop that waits for the boot hart is not part
-- of the model. There are 16 PMP entries, and the IOPMP is not configured.
pub mod TakingOver
pub mod Permission
pub mod Starting
use ace_riscv.Base.{
  ℕ, ◌+◌, ◌*◌, ◌/◌, ◌%◌, ◌^◌, ◌<◌, ◌≡◌, refl, false, List, set, get_elem?, Option, none, some,
  Outcome, ok, err, panic, ◌>>=◌, arith,
}
use ace_riscv.Memory.Layout.{MemoryLayout}
use ace_riscv.Riscv.Words.{is_bit_enabled}
use ace_riscv.Riscv.Csr
use ace_riscv.Riscv.Csr.{Csrs, medeleg, mtvec, mscratch, pmpcfg0, pmpaddr0, pmpaddr1}
use ace_riscv.Riscv.Protection.{
  split_memory_into_confidential_and_non_confidential, close_access_to_confidential_memory,
}
use ace_riscv.Control.HardwareHart.{HardwareHart, swap_mscratch}
use ace_riscv.Initialization.Harts.{PreparedHart}

-- `HypervisorMemoryProtector::setup`
unfoldable pub setup : MemoryLayout → Csrs → Csrs
unfolding split_memory_into_confidential_and_non_confidential close_access_to_confidential_memory
setup l csrs = close_access_to_confidential_memory (
    split_memory_into_confidential_and_non_confidential l.confidential_memory_start
      l.confidential_memory_end csrs)

-- The steps on the hart's own registers, with the address of its saved state.
unfoldable pub setup_hart : MemoryLayout → ℕ → ℕ → HardwareHart → HardwareHart
unfolding Csr.set Csr.read_and_clear_bit swap_mscratch setup
setup_hart l address enter_from_hypervisor_or_vm_asm w =
    let w1 = swap_mscratch w in
    let csrs = setup l (Csr.set mscratch address w1.csrs) in
    let csrs' = Csr.read_and_clear_bit medeleg 10 (Csr.read_and_clear_bit medeleg 9 csrs) in
    record w1 { csrs = Csr.set mtvec (enter_from_hypervisor_or_vm_asm / 2 ^ 2 * 2 ^ 2) csrs' }

unfoldable pub ace_setup_this_hart :
    MemoryLayout → (ℕ → ℕ) → ℕ → ℕ → List PreparedHart → Outcome (List PreparedHart)
unfolding setup_hart
ace_setup_this_hart l address enter_from_hypervisor_or_vm_asm hart_id harts =
    elim (get_elem? harts hart_id) [
      | none ↦ panic
      | some p ↦
          let w = setup_hart l (address hart_id) enter_from_hypervisor_or_vm_asm p.hart in
          ok (set harts hart_id (record p { hart = w }))
    ]
