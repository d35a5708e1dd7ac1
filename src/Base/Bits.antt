-- ===== src/Base/Bits.antt =====
-- `&` and `|` on machine words: at single bits, at low masks and at disjoint fields.
use Prim.Native.Nat.{
  ℕ, zero, suc, ◌+◌, ◌-◌, ◌*◌, ◌/◌, ◌%◌, ◌^◌, ◌≤◌, ◌<◌, min, max, bit_and, bit_or, digits, bitwise,
  bit_and-bitwise, bit_or-bitwise,
}
use mathlib.Core.Path.{◌≡◌, refl, ap}
use mathlib.Core.Logic.{◌≢◌}
use native.Mathlib.Nat.{pow-suc, one-le-pow, mul-one, add-zero}
use native.Mathlib.Omega.{arith}

-- `digits` recurs on fuel: any two amounts that bound the first number agree, and the equation for a
-- number follows without fuel.
module _ (rest : ℕ → ℕ) (combine : ℕ → ℕ → ℕ) where
  digits-enough :
      (x y fuel more : ℕ)
      → max x fuel ≤ fuel
      → max x more ≤ more
      → digits rest combine fuel x y ≡ digits rest combine more x y
  digits-enough zero y zero zero _ _ = refl
  digits-enough zero y zero (suc more) _ _ = refl
  digits-enough zero y (suc fuel) zero _ _ = refl
  digits-enough zero y (suc fuel) (suc more) _ _ = refl
  digits-enough (suc x) y zero more bound _ = absurd (omega arith)
  digits-enough (suc x) y (suc fuel) zero _ bound = absurd (omega arith)
  digits-enough (suc x) y (suc fuel) (suc more) bound bound' =
      let halves = digits-enough (suc x / 2) (y / 2) fuel more (omega arith) (omega arith) in
      rw halves

  bitwise-halves :
      (x y : ℕ)
      → 0 < x
      → bitwise rest combine x y
        ≡ combine (x % 2) (y % 2) + 2 * bitwise rest combine (x / 2) (y / 2)
  bitwise-halves zero y positive = absurd (omega arith)
  bitwise-halves (suc x) y positive =
      let halves = digits-enough (suc x / 2) (y / 2) x (suc x / 2) (omega arith) (omega arith) in
      omega (arith, halves)

pub bit_or_step : (a b : ℕ) → bit_or a b ≡ bit_or (a / 2) (b / 2) * 2 + max (a % 2) (b % 2)
bit_or_step a b = simp bit_or-bitwise (by_halves a)
  where
    by_halves :
        (x : ℕ)
        → bitwise (λ y. y) max x b ≡ bitwise (λ y. y) max (x / 2) (b / 2) * 2 + max (x % 2) (b % 2)
    by_halves zero = omega arith
    by_halves (suc x) = omega (arith, bitwise-halves (λ y. y) max (suc x) b (omega arith))

pub bit_and_step : (a b : ℕ) → bit_and a b ≡ bit_and (a / 2) (b / 2) * 2 + min (a % 2) (b % 2)
bit_and_step a b = simp bit_and-bitwise (by_halves a)
  where
    by_halves :
        (x : ℕ)
        → bitwise (λ y. 0) min x b ≡ bitwise (λ y. 0) min (x / 2) (b / 2) * 2 + min (x % 2) (b % 2)
    by_halves zero = omega arith
    by_halves (suc x) = omega (arith, bitwise-halves (λ y. 0) min (suc x) b (omega arith))

-- `n` bounds the number, so the recursion on halves is structural.
bit_and-zero_below : (n a : ℕ) → a ≤ n → bit_and a 0 ≡ 0
bit_and-zero_below n zero h = refl
bit_and-zero_below zero (suc a) h = absurd (omega arith)
bit_and-zero_below (suc n) (suc a) h =
    omega (arith, bit_and_step (suc a) 0, bit_and-zero_below n (suc a / 2) (omega arith))

pub bit_and-zero : (a : ℕ) → bit_and a 0 ≡ 0
bit_and-zero a = bit_and-zero_below a a (omega arith)

bit_or-zero_below : (n a : ℕ) → a ≤ n → bit_or a 0 ≡ a
bit_or-zero_below n zero h = refl
bit_or-zero_below zero (suc a) h = absurd (omega arith)
bit_or-zero_below (suc n) (suc a) h =
    omega (arith, bit_or_step (suc a) 0, bit_or-zero_below n (suc a / 2) (omega arith))

pub bit_or-zero : (a : ℕ) → bit_or a 0 ≡ a
bit_or-zero a = bit_or-zero_below a a (omega arith)

two_pow_suc_double : (k m : ℕ) → m * 2 ^ suc k ≡ m * 2 ^ k + m * 2 ^ k
two_pow_suc_double k m = let e = ap (λ (y : ℕ). m * y) (pow-suc 2 k) in omega (arith, e)

-- `(q << k) | r` is a sum where `r` fits `k` bits.
pub bit_or_fields : (k q r : ℕ) → r < 2 ^ k → bit_or (q * 2 ^ k) r ≡ q * 2 ^ k + r
bit_or_fields zero q r h = let e = bit_or-zero q in ground arith
bit_or_fields (suc k) q r h = ground (
  arith,
  two_pow_suc_double k q,
  bit_or_fields k q (r / 2) (omega arith),
  bit_or_step (q * 2 ^ suc k) r,
)

bit_and_fields : (k q r : ℕ) → r < 2 ^ k → bit_and (q * 2 ^ k + r) (2 ^ k - 1) ≡ r
bit_and_fields zero q r h = rw bit_and-zero (omega arith)
bit_and_fields (suc k) q r h = ground (
  arith,
  pow-suc 2 k,
  two_pow_suc_double k q,
  bit_and_fields k q (r / 2) (omega arith),
  bit_and_step (q * 2 ^ suc k + r) (2 ^ suc k - 1),
)

-- `a & (2 ^ k - 1)` is the remainder.
pub bit_and_mask : (k a : ℕ) → bit_and a (2 ^ k - 1) ≡ a % 2 ^ k
bit_and_mask k a = ground (arith, one-le-pow k 2, bit_and_fields k (a / 2 ^ k) (a % 2 ^ k))

-- The bit of weight `2 ^ j`.
unfoldable pub bit : ℕ → ℕ → ℕ
bit a zero = a % 2
bit a (suc j) = bit (a / 2) j

pub bit-le : (a j : ℕ) → bit a j ≤ 1
unfolding bit
bit-le a zero = omega arith
bit-le a (suc j) = bit-le (a / 2) j

pub bit-bit_or : (j a b : ℕ) → bit (bit_or a b) j ≡ max (bit a j) (bit b j)
unfolding bit
bit-bit_or zero a b = omega (arith, bit_or_step a b)
bit-bit_or (suc j) a b =
    let e : bit_or a b / 2 ≡ bit_or (a / 2) (b / 2) = omega (arith, bit_or_step a b) in
    rw e (bit-bit_or j (a / 2) (b / 2))

pub bit-bit_and : (j a b : ℕ) → bit (bit_and a b) j ≡ min (bit a j) (bit b j)
unfolding bit
bit-bit_and zero a b = omega (arith, bit_and_step a b)
bit-bit_and (suc j) a b =
    let e : bit_and a b / 2 ≡ bit_and (a / 2) (b / 2) = omega (arith, bit_and_step a b) in
    rw e (bit-bit_and j (a / 2) (b / 2))

pub bit-zero : (j : ℕ) → bit 0 j ≡ 0
unfolding bit
bit-zero zero = refl
bit-zero (suc j) = bit-zero j

pub bit-two_pow_self : (i : ℕ) → bit (2 ^ i) i ≡ 1
unfolding bit
bit-two_pow_self zero = refl
bit-two_pow_self (suc i) =
    let e : 2 ^ suc i / 2 ≡ 2 ^ i = omega (arith, pow-suc 2 i) in rw e (bit-two_pow_self i)

pub bit-two_pow_ne : (i j : ℕ) → i ≢ j → bit (2 ^ i) j ≡ 0
unfolding bit
bit-two_pow_ne zero zero h = absurd (h refl)
bit-two_pow_ne zero (suc j) h = bit-zero j
bit-two_pow_ne (suc i) zero h = omega (arith, pow-suc 2 i)
bit-two_pow_ne (suc i) (suc j) h =
    let e : 2 ^ suc i / 2 ≡ 2 ^ i = omega (arith, pow-suc 2 i) in
    rw e (bit-two_pow_ne i j (λ p. h (ap suc p)))

-- `a & (1 << i)` keeps the one bit.
pub bit_and-two_pow : (i a : ℕ) → bit_and a (2 ^ i) ≡ bit a i * 2 ^ i
unfolding bit
bit_and-two_pow zero a = omega (arith, bit_and_step a 1, bit_and-zero (a / 2))
bit_and-two_pow (suc i) a = ground (
  arith,
  bit_and_step a (2 ^ suc i),
  pow-suc 2 i,
  two_pow_suc_double i (bit (a / 2) i),
  bit_and-two_pow i (a / 2),
)

-- The bits of a sum of two fields.
pub bit_below_field : (k q r j : ℕ) → j < k → bit (q * 2 ^ k + r) j ≡ bit r j
unfolding bit
bit_below_field zero q r j h = elim h [ ]
bit_below_field (suc k) q r zero h = omega (arith, two_pow_suc_double k q)
bit_below_field (suc k) q r (suc j) h =
    let e : (q * 2 ^ suc k + r) / 2 ≡ q * 2 ^ k + r / 2 = omega (arith, two_pow_suc_double k q) in
    rw e (bit_below_field k q (r / 2) j (omega arith))

-- `|` and `&` of two numbers that are split at the same bit go field by field.
pub bit_or_split :
    (k p q a b : ℕ)
    → a < 2 ^ k
    → b < 2 ^ k
    → bit_or (p * 2 ^ k + a) (q * 2 ^ k + b) ≡ bit_or p q * 2 ^ k + bit_or a b
bit_or_split zero p q a b h g =
    let ea : a ≡ 0 = omega arith in
    let eb : b ≡ 0 = omega arith in
    rw (ea, eb, bit_or-zero 0, mul-one, mul-one, mul-one, add-zero, add-zero, add-zero)
bit_or_split (suc k) p q a b h g = ground (
  arith,
  bit_or_step (p * 2 ^ suc k + a) (q * 2 ^ suc k + b),
  bit_or_step a b,
  two_pow_suc_double k p,
  two_pow_suc_double k q,
  two_pow_suc_double k (bit_or p q),
  pow-suc 2 k,
  bit_or_split k p q (a / 2) (b / 2) (omega (arith, pow-suc 2 k)) (omega (arith, pow-suc 2 k)),
)

pub bit_and_split :
    (k p q a b : ℕ)
    → a < 2 ^ k
    → b < 2 ^ k
    → bit_and (p * 2 ^ k + a) (q * 2 ^ k + b) ≡ bit_and p q * 2 ^ k + bit_and a b
bit_and_split zero p q a b h g =
    let ea : a ≡ 0 = omega arith in
    let eb : b ≡ 0 = omega arith in
    rw (ea, eb, bit_and-zero 0, mul-one, mul-one, mul-one, add-zero, add-zero, add-zero)
bit_and_split (suc k) p q a b h g = ground (
  arith,
  bit_and_step (p * 2 ^ suc k + a) (q * 2 ^ suc k + b),
  bit_and_step a b,
  two_pow_suc_double k p,
  two_pow_suc_double k q,
  two_pow_suc_double k (bit_and p q),
  pow-suc 2 k,
  bit_and_split k p q (a / 2) (b / 2) (omega (arith, pow-suc 2 k)) (omega (arith, pow-suc 2 k)),
)

pub zero-bit_or : (a : ℕ) → bit_or 0 a ≡ a
zero-bit_or a = bit_or-bitwise 0 a
