-- ===== src/Riscv/Csr.antt =====
-- core/architecture/riscv/control_status_registers.rs. The registers of the hart that executes are a
-- function from their names; a register keeps what is written to it. On a hart some registers are views of
-- others, and a write to one changes the other: `vsie` and bits of `mie` reflect `hie`, `vsip` and bits of
-- `mip` reflect `hip` and `hvip`, and `sstatus`, `sie` and `sip` reflect `mstatus`, `mie` and `mip`. Here
-- each is a register of its own, so that what is stated of a register after a write to another one that
-- it reflects is about this model only: `reflects_vsie` names those that a write to `vsie` changes.
use ace_riscv.Base.{ℕ, Bool, ◌||◌, ◌==◌, if◌then◌else◌}
use ace_riscv.Riscv.Words.{enable_bit, disable_bit, enable_bits, disable_bits}

pub data Csr : Type 0 where
  mepc mstatus medeleg mideleg mie mip mtinst mtval mtval2 mtvec sstatus hstatus sepc scounteren sip
        sie scause stvec stval sscratch hvip hgeip hie hip hgatp hedeleg hideleg htinst htval
        vstimecmp htimedelta vsstatus vsie vsip vstvec vsscratch vsepc vscause vstval vsatp fcsr
        mcause mscratch pmpcfg0 pmpaddr0 pmpaddr1 :
      Csr

abbrev pub number : Csr → ℕ
number mepc = 0
number mstatus = 1
number medeleg = 2
number mideleg = 3
number mie = 4
number mip = 5
number mtinst = 6
number mtval = 7
number mtval2 = 8
number mtvec = 9
number sstatus = 10
number hstatus = 11
number sepc = 12
number scounteren = 13
number sip = 14
number sie = 15
number scause = 16
number stvec = 17
number stval = 18
number sscratch = 19
number hvip = 20
number hgeip = 21
number hie = 22
number hip = 23
number hgatp = 24
number hedeleg = 25
number hideleg = 26
number htinst = 27
number htval = 28
number vstimecmp = 29
number htimedelta = 30
number vsstatus = 31
number vsie = 32
number vsip = 33
number vstvec = 34
number vsscratch = 35
number vsepc = 36
number vscause = 37
number vstval = 38
number vsatp = 39
number fcsr = 40
number mcause = 41
number mscratch = 42
number pmpcfg0 = 43
number pmpaddr0 = 44
number pmpaddr1 = 45

-- The registers that a write to `vsie` can change on a hart.
abbrev pub reflects_vsie : Csr → Bool
reflects_vsie r = (number r == number vsie) || (number r == number hie) || (number r == number mie)

abbrev pub Csrs : Type 0
Csrs = Csr → ℕ

-- `CSR.x.set(value)`
unfoldable pub set : Csr → ℕ → Csrs → Csrs
set r value csrs x = if number x == number r then value else csrs x

unfoldable pub read_and_set_bit : Csr → ℕ → Csrs → Csrs
unfolding set
read_and_set_bit r i csrs = set r (enable_bit (csrs r) i) csrs

unfoldable pub read_and_clear_bit : Csr → ℕ → Csrs → Csrs
unfolding set
read_and_clear_bit r i csrs = set r (disable_bit (csrs r) i) csrs

unfoldable pub read_and_set_bits : Csr → ℕ → Csrs → Csrs
unfolding set
read_and_set_bits r bitmask csrs = set r (enable_bits (csrs r) bitmask) csrs

unfoldable pub read_and_clear_bits : Csr → ℕ → Csrs → Csrs
unfolding set
read_and_clear_bits r bitmask csrs = set r (disable_bits (csrs r) bitmask) csrs
