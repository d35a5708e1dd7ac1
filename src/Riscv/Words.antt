-- ===== src/Riscv/Words.antt =====
-- core/architecture/riscv/mod.rs: setting, clearing and testing bits of a register.
use ace_riscv.Base.{
  ℕ, zero, suc, ◌-◌, ◌/◌, ◌^◌, ◌<◌, ◌≡◌, Bool, ltb, ◌==◌, bit_and, bit_or, usize_max, arith,
}
use ace_riscv.Base.Bits.{bit, bit-le, bit_and-two_pow}
use native.Mathlib.Nat.{one-le-pow, pow-suc}

unfoldable pub enable_bits : ℕ → ℕ → ℕ
enable_bits register_value bit_mask = bit_or register_value bit_mask

unfoldable pub enable_bit : ℕ → ℕ → ℕ
unfolding enable_bits
enable_bit register_value bit_index = enable_bits register_value (2 ^ bit_index)

-- `!bit_mask` of a 64-bit word is the difference from its greatest value.
unfoldable pub disable_bits : ℕ → ℕ → ℕ
disable_bits register_value bit_mask = bit_and register_value (usize_max - bit_mask)

unfoldable pub disable_bit : ℕ → ℕ → ℕ
unfolding disable_bits
disable_bit register_value bit_index = disable_bits register_value (2 ^ bit_index)

unfoldable pub are_bits_enabled : ℕ → ℕ → Bool
are_bits_enabled register_value bit_mask = ltb 0 (bit_and register_value bit_mask)

unfoldable pub is_bit_enabled : ℕ → ℕ → Bool
unfolding are_bits_enabled
is_bit_enabled register_value bit_index = are_bits_enabled register_value (2 ^ bit_index)

pub bit-complement : (k a j : ℕ) → a < 2 ^ k → j < k → bit (2 ^ k - 1 - a) j ≡ 1 - bit a j
unfolding bit
bit-complement zero a j h g = elim g [ ]
bit-complement (suc k) a zero h g = ground (arith, pow-suc 2 k, one-le-pow k 2)
bit-complement (suc k) a (suc j) h g =
    let e : (2 ^ suc k - 1 - a) / 2 ≡ 2 ^ k - 1 - a / 2 =
      omega (arith, pow-suc 2 k, one-le-pow k 2) in
    rw e (bit-complement k (a / 2) j (omega (arith, pow-suc 2 k)) (omega arith))

pub is_bit_enabled-bit : (a i : ℕ) → is_bit_enabled a i ≡ (bit a i == 1)
unfolding is_bit_enabled
is_bit_enabled-bit a i = ground (arith, bit_and-two_pow i a, bit-le a i, one-le-pow i 2)
