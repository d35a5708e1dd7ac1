-- ===== src/Riscv/Tests.antt =====
-- core/architecture/riscv: runs on concrete registers.
use ace_riscv.Base.{◌*◌, ◌≡◌, some, arith}
use ace_riscv.Riscv.Protection.{hgatp_new, hgatp_address, hgatp_mode, hgatp_roundtrip}
use ace_riscv.Riscv.Sbi.{decode}
use ace_riscv.Riscv.Sbi.Decoding.{call_registers, decode_roundtrip}

decode_roundtrip_example : call_registers (decode 0x48534d 3) ≡ (0x48534d, 3)
decode_roundtrip_example = decode_roundtrip 0x48534d 3

hgatp_roundtrip_example :
    (hgatp_address (hgatp_new (0x81234 * 4096) 7) ≡ 0x81234 * 4096)
    × (hgatp_mode (hgatp_new (0x81234 * 4096) 7) ≡ some 10)
hgatp_roundtrip_example = hgatp_roundtrip 0x81234 7 (omega arith) (omega arith)
