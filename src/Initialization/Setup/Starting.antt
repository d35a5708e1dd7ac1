-- ===== src/Initialization/Setup/Starting.antt =====
-- core/initialization/mod.rs: the hart that leaves the setup is one that the control flows may start with.
use ace_riscv.Base.{◌≡◌, true}
use ace_riscv.Memory.Page.{Page, Memory}
use ace_riscv.Control.ConfidentialHart.{is_dummy}
use ace_riscv.Riscv.Pmp.{mode}
use ace_riscv.Control.HardwareHart
use ace_riscv.Control.HardwareHart.{HardwareHart}
use ace_riscv.Initialization.Harts.{PreparedHart}

-- A dummy hart is assigned, and the firmware has left the first two PMP entries off and in the mode TOR.
abbrev IsReady : HardwareHart → Type 0
IsReady w = (is_dummy w.confidential_hart ≡ true) × (mode w.csrs 0 ≡ 0) × (mode w.csrs 1 ≡ 1)

abbrev IsReadyHart : PreparedHart → Type 0
IsReadyHart p = IsReady p.hart
