-- ===== src/Control/Protection.antt =====
-- core/memory_protector: what the switch of a hardware hart between the hypervisor and a confidential VM
-- does to the accesses that the hart may make.
use ace_riscv.Base.{ℕ, ◌<◌, ◌≡◌, if◌then◌else◌}
use ace_riscv.Memory.Layout.{MemoryLayout}
use ace_riscv.Memory.Layout.Laws.{IsLayout}
use ace_riscv.Riscv.Csr.{Csrs}
use ace_riscv.Riscv.Protection.{enable_hypervisor, enable_confidential_vm}
use ace_riscv.Riscv.Pmp.{
  permission, IsConfigured, IsConfigured-IsPrepared, is_confidential, Access-permission,
  enable_hypervisor-Access, enable_confidential_vm-Access,
}

-- Where the two entries describe the confidential memory, they do so after each switch; for the
-- hypervisor no access to the confidential memory is permitted, for a confidential VM every access to it
-- is, and the permissions on every other address are those of the entries behind them.
pub switch-permission :
    (rest : ℕ → ℕ) (l : MemoryLayout) (csrs : Csrs) (value j address : ℕ)
    → IsLayout l
    → IsConfigured l csrs
    → j < 3
    → IsConfigured l (enable_hypervisor value csrs)
      × IsConfigured l (enable_confidential_vm value csrs)
      × (permission rest (enable_hypervisor value csrs) j address
          ≡ (if is_confidential l address then 0 else rest address))
      × (permission rest (enable_confidential_vm value csrs) j address
          ≡ (if is_confidential l address then 1 else rest address))
switch-permission rest l csrs value j address v c h =
    let closed = enable_hypervisor-Access l value csrs c in
    let opened = enable_confidential_vm-Access l value csrs (IsConfigured-IsPrepared l csrs c) in
    (
      closed.configured,
      opened.configured,
      Access-permission rest l 0 (enable_hypervisor value csrs) j address v closed h,
      Access-permission rest l 1 (enable_confidential_vm value csrs) j address v opened h,
    )
