-- ===== src/Riscv/Protection.antt =====
-- core/memory_protector/pmp/mod.rs, hypervisor_memory_protector.rs and the hgatp register of
-- control_status_registers.rs. The caches that are flushed and the IOPMP are not part of the model.
use ace_riscv.Base.{
  ℕ, ◌+◌, ◌*◌, ◌/◌, ◌%◌, ◌^◌, ◌<◌, ◌≡◌, refl, ◌==◌, if◌then◌else◌, Option, none, some, bit_and,
  bit_or, usize_mod, arith,
}
use ace_riscv.Base.Bits.{bit_or_fields, bit_or_split, bit_and_mask, zero-bit_or, bit_or-zero}
use ace_riscv.Riscv.Csr.{
  Csrs, set, read_and_set_bits, read_and_clear_bits, pmpcfg0, pmpaddr0, pmpaddr1, hgatp,
}

-- The first two entries: the confidential memory lies between their addresses.
unfoldable pub open_access_to_confidential_memory : Csrs → Csrs
unfolding read_and_set_bits
open_access_to_confidential_memory csrs =
    read_and_set_bits pmpcfg0 (bit_or (bit_or 0 7) (bit_or 8 7 * 2 ^ 8)) csrs

unfoldable pub close_access_to_confidential_memory : Csrs → Csrs
unfolding read_and_clear_bits
close_access_to_confidential_memory csrs = read_and_clear_bits pmpcfg0 (bit_or 7 (7 * 2 ^ 8)) csrs

unfoldable pub split_memory_into_confidential_and_non_confidential : ℕ → ℕ → Csrs → Csrs
unfolding set close_access_to_confidential_memory
split_memory_into_confidential_and_non_confidential confidential_memory_start
      confidential_memory_end csrs =
    close_access_to_confidential_memory (
      set pmpaddr1 (confidential_memory_end / 2 ^ 2)
        (set pmpaddr0 (confidential_memory_start / 2 ^ 2) csrs))

unfoldable pub enable_address_translation : ℕ → Csrs → Csrs
unfolding set
enable_address_translation value csrs = set hgatp value csrs

-- `HypervisorMemoryProtector::enable`
unfoldable pub enable_hypervisor : ℕ → Csrs → Csrs
unfolding close_access_to_confidential_memory enable_address_translation
enable_hypervisor value csrs =
    enable_address_translation value (close_access_to_confidential_memory csrs)

-- `ConfidentialVmMemoryProtector::enable`
unfoldable pub enable_confidential_vm : ℕ → Csrs → Csrs
unfolding open_access_to_confidential_memory enable_address_translation
enable_confidential_vm value csrs =
    enable_address_translation value (open_access_to_confidential_memory csrs)

-- `Hgatp::new` with the mode Sv57x4; what the shift moves out of the word is lost.
unfoldable pub hgatp_new : ℕ → ℕ → ℕ
hgatp_new address vmid =
    bit_or (bit_or (vmid * 2 ^ 44 % usize_mod) (10 * 2 ^ 60))
      (bit_and (address / 2 ^ 12) 0xfff_ffff_ffff)

unfoldable pub hgatp_address : ℕ → ℕ
hgatp_address bits = bit_and bits 0xfff_ffff_ffff * 2 ^ 12 % usize_mod

-- `Hgatp::mode`: the code of a mode that is known.
unfoldable pub hgatp_mode : ℕ → Option ℕ
hgatp_mode bits = let code = bit_and (bits / 2 ^ 60) 15 in if code == 10 then some 10 else none

hgatp_new-fields :
    (q vmid : ℕ)
    → q < 2 ^ 44
    → vmid < 2 ^ 16
    → hgatp_new (q * 4096) vmid ≡ (10 * 2 ^ 16 + vmid) * 2 ^ 44 + q
unfolding hgatp_new
hgatp_new-fields q vmid h g =
    let e : vmid * 2 ^ 44 % usize_mod ≡ vmid * 2 ^ 44 = omega arith in
    let p : bit_and (q * 4096 / 2 ^ 12) 0xfff_ffff_ffff ≡ q =
      omega (arith, bit_and_mask 44 (q * 4096 / 2 ^ 12)) in
    let v : bit_or vmid (10 * 2 ^ 16) ≡ 10 * 2 ^ 16 + vmid =
      ground
        (arith, bit_or_split 16 0 10 vmid 0 g (omega arith), zero-bit_or 10, bit_or-zero vmid) in
    let a : bit_or (vmid * 2 ^ 44) (10 * 2 ^ 60) ≡ (10 * 2 ^ 16 + vmid) * 2 ^ 44 =
      ground (arith, bit_or_split 44 vmid (10 * 2 ^ 16) 0 0 (omega arith) (omega arith), v) in
    rw (e, p, a) (bit_or_fields 44 (10 * 2 ^ 16 + vmid) q h)

-- The register made from the address of a root table, aligned to 4 KiB and below `2 ^ 56`, and from an
-- identifier below `2 ^ 16` holds that address and the mode Sv57x4.
pub hgatp_roundtrip :
    (q vmid : ℕ)
    → q < 2 ^ 44
    → vmid < 2 ^ 16
    → (hgatp_address (hgatp_new (q * 4096) vmid) ≡ q * 4096)
      × (hgatp_mode (hgatp_new (q * 4096) vmid) ≡ some 10)
unfolding hgatp_address hgatp_mode
hgatp_roundtrip q vmid h g =
    let f = hgatp_new-fields q vmid h g in
    let m : bit_and ((10 * 2 ^ 16 + vmid) * 2 ^ 44 + q) 0xfff_ffff_ffff ≡ q =
      omega (arith, bit_and_mask 44 ((10 * 2 ^ 16 + vmid) * 2 ^ 44 + q)) in
    let d : ((10 * 2 ^ 16 + vmid) * 2 ^ 44 + q) / 2 ^ 60 ≡ 10 = omega arith in
    (rw (f, m) (omega arith), rw (f, d) refl)
