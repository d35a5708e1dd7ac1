-- ===== src/Riscv/Registers.antt =====
-- core/architecture/riscv/general_purpose_registers.rs. The array of 32 words is a function from the
-- registers.
use ace_riscv.Base.{ℕ, ◌≡◌, ◌↔◌, ◌==◌, if◌then◌else◌, Option, none, some, arith}

pub data GeneralPurposeRegister : Type 0 where
  zero ra sp gp tp t0 t1 t2 s0 s1 a0 a1 a2 a3 a4 a5 a6 a7 s2 s3 s4 s5 s6 s7 s8 s9 s10 s11 t3 t4 t5
        t6 :
      GeneralPurposeRegister

-- The discriminant of the `repr(usize)` enum.
abbrev pub index : GeneralPurposeRegister → ℕ
index zero = 0
index ra = 1
index sp = 2
index gp = 3
index tp = 4
index t0 = 5
index t1 = 6
index t2 = 7
index s0 = 8
index s1 = 9
index a0 = 10
index a1 = 11
index a2 = 12
index a3 = 13
index a4 = 14
index a5 = 15
index a6 = 16
index a7 = 17
index s2 = 18
index s3 = 19
index s4 = 20
index s5 = 21
index s6 = 22
index s7 = 23
index s8 = 24
index s9 = 25
index s10 = 26
index s11 = 27
index t3 = 28
index t4 = 29
index t5 = 30
index t6 = 31

unfoldable pub from_index : ℕ → Option GeneralPurposeRegister
from_index i =
    if i == 0
    then some zero
    else if i == 1
    then some ra
    else if i == 2
    then some sp
    else if i == 3
    then some gp
    else if i == 4
    then some tp
    else if i == 5
    then some t0
    else if i == 6
    then some t1
    else if i == 7
    then some t2
    else if i == 8
    then some s0
    else if i == 9
    then some s1
    else if i == 10
    then some a0
    else if i == 11
    then some a1
    else if i == 12
    then some a2
    else if i == 13
    then some a3
    else if i == 14
    then some a4
    else if i == 15
    then some a5
    else if i == 16
    then some a6
    else if i == 17
    then some a7
    else if i == 18
    then some s2
    else if i == 19
    then some s3
    else if i == 20
    then some s4
    else if i == 21
    then some s5
    else if i == 22
    then some s6
    else if i == 23
    then some s7
    else if i == 24
    then some s8
    else if i == 25
    then some s9
    else if i == 26
    then some s10
    else if i == 27
    then some s11
    else if i == 28
    then some t3
    else if i == 29
    then some t4
    else if i == 30
    then some t5
    else if i == 31
    then some t6
    else none

abbrev pub GeneralPurposeRegisters : Type 0
GeneralPurposeRegisters = GeneralPurposeRegister → ℕ

unfoldable pub empty : GeneralPurposeRegisters
empty register = 0

unfoldable pub set : GeneralPurposeRegister → ℕ → GeneralPurposeRegisters → GeneralPurposeRegisters
set register value gprs r = if index r == index register then value else gprs r

-- The indices that name a register are exactly those of the registers.
pub from_index_iff : (i : ℕ) (r : GeneralPurposeRegister) → (from_index i ≡ some r) ↔ (index r ≡ i)
unfolding from_index
from_index_iff i r = ground arith
