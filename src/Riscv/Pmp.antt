-- ===== src/Riscv/Pmp.antt =====
-- What the entries that core/memory_protector/pmp/mod.rs writes mean: the physical memory protection of
-- the RISC-V privileged architecture (section 3.7) for the first two entries, in the modes OFF and TOR
-- that the monitor uses. What the entries behind them allow is a parameter.
use ace_riscv.Base.{
  ℕ, zero, suc, ◌+◌, ◌*◌, ◌/◌, ◌<◌, ◌≡◌, refl, ◌⊎◌, inl, ◌∙◌, Bool, ◌&&◌, ltb, leb, ◌==◌,
  if◌then◌else◌, arith,
}
use ace_riscv.Base.Bits.{bit, bit-le, bit-bit_and, bit-bit_or}
use ace_riscv.Memory.Layout.{MemoryLayout}
use ace_riscv.Memory.Layout.Laws.{IsLayout}
use ace_riscv.Riscv.Words.{enable_bits, disable_bits}
use ace_riscv.Riscv.Csr
use ace_riscv.Riscv.Csr.{Csrs, pmpcfg0, pmpaddr0, pmpaddr1}
use ace_riscv.Riscv.Protection.{
  open_access_to_confidential_memory, close_access_to_confidential_memory, enable_hypervisor,
  enable_confidential_vm,
}

-- The address-matching mode of an entry: 0 is OFF and 1 is TOR.
abbrev pub mode : Csrs → ℕ → ℕ
mode csrs i = bit (csrs pmpcfg0) (8 * i + 3) + 2 * bit (csrs pmpcfg0) (8 * i + 4)

-- The permission of the kind `j` (read, write, execute) on an address: that of the first entry that
-- matches it.
unfoldable pub permission : (ℕ → ℕ) → Csrs → ℕ → ℕ → ℕ
permission rest csrs j address =
    if (mode csrs 0 == 1) && ltb address (csrs pmpaddr0 * 4)
    then bit (csrs pmpcfg0) j
    else if (mode csrs 1 == 1) && leb (csrs pmpaddr0 * 4) address && ltb address (csrs pmpaddr1 * 4)
    then bit (csrs pmpcfg0) (8 + j)
    else rest address

-- The two entries describe the confidential memory.
pub record IsConfigured (l : MemoryLayout) (csrs : Csrs) : Type 0 where
  pub first_off : mode csrs 0 ≡ 0
  pub second_tor : mode csrs 1 ≡ 1
  pub from_start : csrs pmpaddr0 ≡ l.confidential_memory_start / 4
  pub to_end : csrs pmpaddr1 ≡ l.confidential_memory_end / 4

abbrev pub is_confidential : MemoryLayout → ℕ → Bool
is_confidential l address =
    leb l.confidential_memory_start address && ltb address l.confidential_memory_end

pub permission-configured :
    (rest : ℕ → ℕ) (l : MemoryLayout) (csrs : Csrs) (j address : ℕ)
    → IsLayout l
    → IsConfigured l csrs
    → permission rest csrs j address
      ≡ (if is_confidential l address then bit (csrs pmpcfg0) (8 + j) else rest address)
unfolding permission
permission-configured rest l csrs j address v c =
    let a : csrs pmpaddr0 * 4 ≡ l.confidential_memory_start =
      omega (arith, c.from_start, v.start_aligned) in
    let b : csrs pmpaddr1 * 4 ≡ l.confidential_memory_end =
      omega (arith, c.to_end, v.end_aligned) in
    ground (arith, c.first_off, c.second_tor, a, b)

pub permission-off :
    (rest : ℕ → ℕ) (csrs : Csrs) (j address : ℕ)
    → mode csrs 0 ≡ 0
    → mode csrs 1 ≡ 0
    → permission rest csrs j address ≡ rest address
unfolding permission
permission-off rest csrs j address a b = ground (arith, a, b)

pub close-mode :
    (csrs : Csrs)
    → (mode (close_access_to_confidential_memory csrs) 0 ≡ mode csrs 0)
      × (mode (close_access_to_confidential_memory csrs) 1 ≡ mode csrs 1)
unfolding close_access_to_confidential_memory disable_bits bit
close-mode csrs = (
  rw (bit-bit_and 3 (csrs pmpcfg0), bit-bit_and 4 (csrs pmpcfg0))
      (omega (arith, bit-le (csrs pmpcfg0) 3, bit-le (csrs pmpcfg0) 4)),
  rw (bit-bit_and 11 (csrs pmpcfg0), bit-bit_and 12 (csrs pmpcfg0))
      (omega (arith, bit-le (csrs pmpcfg0) 11, bit-le (csrs pmpcfg0) 12)),
)

open-mode :
    (csrs : Csrs)
    → (mode csrs 1 ≡ 1) ⊎ (mode csrs 1 ≡ 0)
    → (mode (open_access_to_confidential_memory csrs) 0 ≡ mode csrs 0)
      × (mode (open_access_to_confidential_memory csrs) 1 ≡ 1)
unfolding open_access_to_confidential_memory enable_bits bit
open-mode csrs h = (
  rw (bit-bit_or 3 (csrs pmpcfg0), bit-bit_or 4 (csrs pmpcfg0))
      (omega (arith, bit-le (csrs pmpcfg0) 3, bit-le (csrs pmpcfg0) 4)),
  rw (bit-bit_or 11 (csrs pmpcfg0), bit-bit_or 12 (csrs pmpcfg0))
      (omega (arith, h, bit-le (csrs pmpcfg0) 11, bit-le (csrs pmpcfg0) 12)),
)

-- The permission bits of the two entries.
unfoldable pub IsGranted : ℕ → Csrs → Type 0
IsGranted b csrs = (j : ℕ) → j < 3 → (bit (csrs pmpcfg0) j ≡ b) × (bit (csrs pmpcfg0) (8 + j) ≡ b)

pub close-IsGranted : (csrs : Csrs) → IsGranted 0 (close_access_to_confidential_memory csrs)
unfolding IsGranted close_access_to_confidential_memory disable_bits bit
close-IsGranted csrs zero h = (
  rw (bit-bit_and 0 (csrs pmpcfg0)) (omega arith),
  rw (bit-bit_and 8 (csrs pmpcfg0)) (omega arith),
)
close-IsGranted csrs (suc zero) h = (
  rw (bit-bit_and 1 (csrs pmpcfg0)) (omega arith),
  rw (bit-bit_and 9 (csrs pmpcfg0)) (omega arith),
)
close-IsGranted csrs (suc (suc zero)) h = (
  rw (bit-bit_and 2 (csrs pmpcfg0)) (omega arith),
  rw (bit-bit_and 10 (csrs pmpcfg0)) (omega arith),
)
close-IsGranted csrs (suc (suc (suc j))) h = absurd (omega arith)

pub open-IsGranted : (csrs : Csrs) → IsGranted 1 (open_access_to_confidential_memory csrs)
unfolding IsGranted open_access_to_confidential_memory enable_bits bit
open-IsGranted csrs zero h = (
  rw (bit-bit_or 0 (csrs pmpcfg0)) (omega (arith, bit-le (csrs pmpcfg0) 0)),
  rw (bit-bit_or 8 (csrs pmpcfg0)) (omega (arith, bit-le (csrs pmpcfg0) 8)),
)
open-IsGranted csrs (suc zero) h = (
  rw (bit-bit_or 1 (csrs pmpcfg0)) (omega (arith, bit-le (csrs pmpcfg0) 1)),
  rw (bit-bit_or 9 (csrs pmpcfg0)) (omega (arith, bit-le (csrs pmpcfg0) 9)),
)
open-IsGranted csrs (suc (suc zero)) h = (
  rw (bit-bit_or 2 (csrs pmpcfg0)) (omega (arith, bit-le (csrs pmpcfg0) 2)),
  rw (bit-bit_or 10 (csrs pmpcfg0)) (omega (arith, bit-le (csrs pmpcfg0) 10)),
)
open-IsGranted csrs (suc (suc (suc j))) h = absurd (omega arith)

-- What the setup of a hart leaves: the two entries have the bounds of the confidential memory, and the
-- second one may still be off.
pub record IsPrepared (l : MemoryLayout) (csrs : Csrs) : Type 0 where
  pub first_off : mode csrs 0 ≡ 0
  pub second_tor_or_off : (mode csrs 1 ≡ 1) ⊎ (mode csrs 1 ≡ 0)
  pub from_start : csrs pmpaddr0 ≡ l.confidential_memory_start / 4
  pub to_end : csrs pmpaddr1 ≡ l.confidential_memory_end / 4

pub IsConfigured-IsPrepared :
    (l : MemoryLayout) (csrs : Csrs) → IsConfigured l csrs → IsPrepared l csrs
IsConfigured-IsPrepared l csrs c = record {
  first_off = c.first_off;
  second_tor_or_off = inl c.second_tor;
  from_start = c.from_start;
  to_end = c.to_end;
}

-- The two entries describe the confidential memory, and all their permissions are `b`: the accesses to
-- the confidential memory are denied for 0 and allowed for 1, by `Access-permission`.
pub record Access (l : MemoryLayout) (b : ℕ) (csrs : Csrs) : Type 0 where
  pub configured : IsConfigured l csrs
  pub granted : IsGranted b csrs

pub Access-permission :
    (rest : ℕ → ℕ) (l : MemoryLayout) (b : ℕ) (csrs : Csrs) (j address : ℕ)
    → IsLayout l
    → Access l b csrs
    → j < 3
    → permission rest csrs j address ≡ (if is_confidential l address then b else rest address)
unfolding IsGranted
Access-permission rest l b csrs j address v a h =
    let (_, e) = a.granted j h in
    permission-configured rest l csrs j address v a.configured ∙ rw e refl

-- The protection registers have the same values.
abbrev pub SameProtection : Csrs → Csrs → Type 0
SameProtection c c' =
    (c' pmpcfg0 ≡ c pmpcfg0) × (c' pmpaddr0 ≡ c pmpaddr0) × (c' pmpaddr1 ≡ c pmpaddr1)

pub IsConfigured-same :
    (l : MemoryLayout) (c c' : Csrs) → SameProtection c c' → IsConfigured l c → IsConfigured l c'
IsConfigured-same l c c' (e, f, g) a = record {
  first_off = rw e a.first_off;
  second_tor = rw e a.second_tor;
  from_start = f ∙ a.from_start;
  to_end = g ∙ a.to_end;
}

pub IsPrepared-same :
    (l : MemoryLayout) (c c' : Csrs) → SameProtection c c' → IsPrepared l c → IsPrepared l c'
IsPrepared-same l c c' (e, f, g) a = record {
  first_off = rw e a.first_off;
  second_tor_or_off = rw e a.second_tor_or_off;
  from_start = f ∙ a.from_start;
  to_end = g ∙ a.to_end;
}

pub IsGranted-same : (b : ℕ) (c c' : Csrs) → c' pmpcfg0 ≡ c pmpcfg0 → IsGranted b c → IsGranted b c'
unfolding IsGranted
IsGranted-same b c c' e a j l = (rw e (a j l).0, rw e (a j l).1)

pub Access-same :
    (l : MemoryLayout) (b : ℕ) (c c' : Csrs) → SameProtection c c' → Access l b c → Access l b c'
Access-same l b c c' s a = record {
  configured = IsConfigured-same l c c' s a.configured;
  granted = IsGranted-same b c c' s.0 a.granted;
}

pub enable_hypervisor-Access :
    (l : MemoryLayout) (value : ℕ) (csrs : Csrs)
    → IsConfigured l csrs
    → Access l 0 (enable_hypervisor value csrs)
unfolding enable_hypervisor Csr.set
enable_hypervisor-Access l value csrs c = record {
  configured = record {
    first_off = (close-mode csrs).0 ∙ c.first_off;
    second_tor = (close-mode csrs).1 ∙ c.second_tor;
    from_start = c.from_start;
    to_end = c.to_end;
  };
  granted =
      IsGranted-same 0 (close_access_to_confidential_memory csrs) (enable_hypervisor value csrs)
        refl (close-IsGranted csrs);
}

pub enable_confidential_vm-Access :
    (l : MemoryLayout) (value : ℕ) (csrs : Csrs)
    → IsPrepared l csrs
    → Access l 1 (enable_confidential_vm value csrs)
unfolding enable_confidential_vm Csr.set
enable_confidential_vm-Access l value csrs c = record {
  configured = record {
    first_off = (open-mode csrs c.second_tor_or_off).0 ∙ c.first_off;
    second_tor = (open-mode csrs c.second_tor_or_off).1;
    from_start = c.from_start;
    to_end = c.to_end;
  };
  granted =
      IsGranted-same 1 (open_access_to_confidential_memory csrs) (enable_confidential_vm value csrs)
        refl (open-IsGranted csrs);
}
