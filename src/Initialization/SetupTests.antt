-- ===== src/Initialization/SetupTests.antt =====
-- core/initialization/mod.rs, `ace_setup_this_hart`, and the protection of memory on concrete registers.
use ace_riscv.Base.{
  ◌≡◌, refl, List, [], ◌∷◌, panic, if◌then◌else◌, arith, ◌/◌, ◌-◌, ◌%◌, ◌==◌, inl, ◌&&◌,
}
use ace_riscv.Base.Bits.{bit}
use ace_riscv.Riscv.Csr.{Csrs, number, medeleg, mtvec, mscratch, pmpaddr0, pmpaddr1}
use ace_riscv.Riscv.Csr.{pmpcfg0}
use ace_riscv.Riscv.Protection.{enable_hypervisor, enable_confidential_vm}
use ace_riscv.Riscv.Pmp.{mode, permission, IsConfigured, is_confidential, IsGranted}
use ace_riscv.Control.Protection.{switch-permission}
use ace_riscv.Initialization.Setup.Permission.{setup-permission}
use ace_riscv.Initialization.Setup.{setup, setup_hart, ace_setup_this_hart}
use ace_riscv.Initialization.Setup.TakingOver.{is_taken, setup_hart-takes_over}
use ace_riscv.Control.HardwareHart
use ace_riscv.Control.HardwareHart.{HardwareHart}
use ace_riscv.Initialization.Harts.{PreparedHart}
use ace_riscv.Initialization.Tests.{regions, harts, csrs, cleared, small, small-IsLayout}

-- The registers of a hart that delegates all its traps.
abbrev delegating : Csrs
delegating r = if number r == number medeleg then 0xffff else 7

abbrev hart : HardwareHart
unfolding HardwareHart.init
hart = HardwareHart.init 0x9000 0 delegating

setup_hart-takes_over_example :
    IsGranted 0 (setup_hart small 0x8900_0000 0x8000_1002 hart).csrs
    × (mode (setup_hart small 0x8900_0000 0x8000_1002 hart).csrs 0 ≡ mode hart.csrs 0)
    × (mode (setup_hart small 0x8900_0000 0x8000_1002 hart).csrs 1 ≡ mode hart.csrs 1)
    × ((setup_hart small 0x8900_0000 0x8000_1002 hart).csrs pmpaddr0 ≡ 0x8800_0000 / 4)
    × ((setup_hart small 0x8900_0000 0x8000_1002 hart).csrs pmpaddr1 ≡ 0x9000_0000 / 4)
    × ((setup_hart small 0x8900_0000 0x8000_1002 hart).csrs mscratch ≡ 0x8900_0000)
    × ((setup_hart small 0x8900_0000 0x8000_1002 hart).previous_mscratch ≡ hart.csrs mscratch)
    × (bit ((setup_hart small 0x8900_0000 0x8000_1002 hart).csrs medeleg) 9
        ≡ (if is_taken 9 then 0 else bit (hart.csrs medeleg) 9))
    × ((setup_hart small 0x8900_0000 0x8000_1002 hart).csrs mtvec ≡ 0x8000_1002 - 0x8000_1002 % 4)
setup_hart-takes_over_example =
    setup_hart-takes_over small 0x8900_0000 0x8000_1002 hart 9 (omega arith)

-- There is no hart with the id 1.
unknown_hart : ace_setup_this_hart regions (λ id. 0x8900_0000) 0x8000_1002 1 harts ≡ panic
unfolding ace_setup_this_hart
unknown_hart = refl

-- The second entry has the mode TOR and all permissions, the first one is off.
abbrev prepared_csrs : Csrs
prepared_csrs r = if number r == number pmpcfg0 then 0x0f00 else 0

setup-permission_example :
    permission (λ a. 1) (setup small prepared_csrs) 0 0x8800_1000
    ≡ (if (mode prepared_csrs 1 == 1) && is_confidential small 0x8800_1000 then 0 else 1)
unfolding bit
setup-permission_example =
    setup-permission (λ a. 1) small prepared_csrs 0 0x8800_1000 small-IsLayout refl (inl refl)
      (omega arith)

abbrev configured_csrs : Csrs
configured_csrs r =
    if number r == number pmpaddr0
    then 0x2200_0000
    else if number r == number pmpaddr1
    then 0x2400_0000
    else prepared_csrs r

configured : IsConfigured small configured_csrs
unfolding bit
configured = record { first_off = refl; second_tor = refl; from_start = refl; to_end = refl }

switch-permission_example :
    IsConfigured small (enable_hypervisor 0x1234 configured_csrs)
    × IsConfigured small (enable_confidential_vm 0x1234 configured_csrs)
    × (permission (λ a. 1) (enable_hypervisor 0x1234 configured_csrs) 2 0x8800_1000
        ≡ (if is_confidential small 0x8800_1000 then 0 else 1))
    × (permission (λ a. 1) (enable_confidential_vm 0x1234 configured_csrs) 2 0x8800_1000
        ≡ (if is_confidential small 0x8800_1000 then 1 else 1))
switch-permission_example =
    switch-permission (λ a. 1) small configured_csrs 0x1234 2 0x8800_1000 small-IsLayout configured
      (omega arith)

abbrev ready_harts : List PreparedHart
ready_harts =
    record {
      hart = setup_hart regions 0x8900_0000 0x8000_1002 (HardwareHart.init 0x9000 0 (csrs 0));
      stack = cleared.0;
      stack_address = 0xffe0_0000;
    }
    ∷ []
