-- ===== src/Mmu/Entry/Coding.antt =====
-- Encoding an entry and decoding it: what an aligned address gives back, and what another one does.
use ace_riscv.Base.{ℕ, ◌+◌, ◌-◌, ◌*◌, ◌/◌, ◌^◌, ◌<◌, ◌≡◌, true, bit_and, bit_or, arith}
use ace_riscv.Base.Bits.{
  bit, bit-bit_or, bit_or_split, bit_and_split, bit_and_mask, zero-bit_or, bit_or-zero,
  bit_and-zero,
}
use ace_riscv.Mmu.Entry.{
  PageTableBits, valid, read, write, execute, user, global, accessed, dirty, mask, is_set, is_valid,
  address_mask, decode_address, encode_address, PageTablePermission, decode_permission,
  encode_permission, PageTableConfiguration, decode_configuration, encode_configuration,
  encode_leaf, shared_page_configuration, shared_page_permission,
}

-- The low ten bits of an entry.
flags : PageTableConfiguration → PageTablePermission → ℕ
unfolding encode_configuration encode_permission
flags c p = bit_or (bit_or 1 (encode_configuration c)) (encode_permission p)

encode_configuration-lt : (c : PageTableConfiguration) → encode_configuration c < 1024
unfolding encode_configuration
encode_configuration-lt c = ground arith

configuration_valid-lt : (c : PageTableConfiguration) → bit_or 1 (encode_configuration c) < 1024
unfolding encode_configuration
configuration_valid-lt c = ground arith

mask-lt : (b : PageTableBits) → mask b < 1024
mask-lt b = ground arith

encode_permission-lt : (p : PageTablePermission) → encode_permission p < 1024
unfolding encode_permission
encode_permission-lt p = ground arith

flags-lt : (c : PageTableConfiguration) (p : PageTablePermission) → flags c p < 1024
unfolding flags encode_configuration encode_permission
flags-lt c p = ground arith

-- A small operand meets the low field alone.
bit_or_low : (q a b : ℕ) → a < 1024 → b < 1024 → bit_or (q * 2 ^ 10 + a) b ≡ q * 2 ^ 10 + bit_or a b
bit_or_low q a b h g = ground (arith, bit_or_split 10 q 0 a b h g, bit_or-zero q)

bit_and_low : (q a b : ℕ) → a < 1024 → b < 1024 → bit_and (q * 2 ^ 10 + a) b ≡ bit_and a b
bit_and_low q a b h g = ground (arith, bit_and_split 10 q 0 a b h g, bit_and-zero q)

bit_or_high : (q a : ℕ) → a < 1024 → bit_or a (q * 2 ^ 10) ≡ q * 2 ^ 10 + a
bit_or_high q a h =
    ground (arith, bit_or_split 10 0 q a 0 h (omega arith), zero-bit_or q, bit_or-zero a)

-- An aligned address and the flags are disjoint fields of the entry.
encode_leaf-fields :
    (q : ℕ) (c : PageTableConfiguration) (p : PageTablePermission)
    → encode_leaf (q * 4096) c p ≡ q * 2 ^ 10 + flags c p
unfolding encode_leaf flags encode_address
encode_leaf-fields q c p =
    let e : q * 4096 / 2 ^ 2 ≡ q * 2 ^ 10 = omega arith in
    rw (
      e,
      bit_or_high q 1 (omega arith),
      bit_or_low q 1 (encode_configuration c) (omega arith) (encode_configuration-lt c),
      bit_or_low q (bit_or 1 (encode_configuration c)) (encode_permission p)
          (configuration_valid-lt c) (encode_permission-lt p),
    )

is_set-field : (b : PageTableBits) (q f : ℕ) → f < 1024 → is_set b (q * 2 ^ 10 + f) ≡ is_set b f
unfolding is_set
is_set-field b q f h = rw (bit_and_low q f (mask b) h (mask-lt b))

is_set-leaf :
    (b : PageTableBits) (q : ℕ) (c : PageTableConfiguration) (p : PageTablePermission)
    → is_set b (encode_leaf (q * 4096) c p) ≡ is_set b (flags c p)
is_set-leaf b q c p = rw (encode_leaf-fields q c p) (is_set-field b q (flags c p) (flags-lt c p))

decode_permission-flags :
    (c : PageTableConfiguration) (p : PageTablePermission) → decode_permission (flags c p) ≡ p
unfolding decode_permission flags is_set encode_configuration encode_permission
decode_permission-flags c p = ground arith

-- An entry that holds a page aligned address is valid, and its decoded permission is the encoded one.
pub decode_permission-encode_leaf :
    (q : ℕ) (c : PageTableConfiguration) (p : PageTablePermission)
    → decode_permission (encode_leaf (q * 4096) c p) ≡ p
unfolding decode_permission
decode_permission-encode_leaf q c p =
    rw (is_set-leaf read q c p, is_set-leaf write q c p, is_set-leaf execute q c p)
      (decode_permission-flags c p)

decode_configuration-flags :
    (c : PageTableConfiguration) (p : PageTablePermission) → decode_configuration (flags c p) ≡ c
unfolding decode_configuration flags is_set encode_configuration encode_permission
decode_configuration-flags c p = ground arith

pub decode_configuration-encode_leaf :
    (q : ℕ) (c : PageTableConfiguration) (p : PageTablePermission)
    → decode_configuration (encode_leaf (q * 4096) c p) ≡ c
unfolding decode_configuration
decode_configuration-encode_leaf q c p =
    rw
      (
        is_set-leaf user q c p,
        is_set-leaf accessed q c p,
        is_set-leaf global q c p,
        is_set-leaf dirty q c p,
      )
      (decode_configuration-flags c p)

is_valid-flags :
    (c : PageTableConfiguration) (p : PageTablePermission) → is_set valid (flags c p) ≡ true
unfolding flags is_set encode_configuration encode_permission
is_valid-flags c p = ground arith

is_valid-encode_leaf :
    (q : ℕ) (c : PageTableConfiguration) (p : PageTablePermission)
    → is_valid (encode_leaf (q * 4096) c p) ≡ true
unfolding is_valid
is_valid-encode_leaf q c p = rw (is_set-leaf valid q c p) (is_valid-flags c p)

decode_address-encode_leaf :
    (q : ℕ) (c : PageTableConfiguration) (p : PageTablePermission)
    → q < 2 ^ 52
    → decode_address (encode_leaf (q * 4096) c p) ≡ q * 4096
unfolding decode_address
decode_address-encode_leaf q c p h =
    let e : bit_and (q * 2 ^ 10 + flags c p) ((2 ^ 54 - 1) * 2 ^ 10 + 0)
        ≡ bit_and q (2 ^ 54 - 1) * 2 ^ 10 + bit_and (flags c p) 0 =
      bit_and_split 10 q (2 ^ 54 - 1) (flags c p) 0 (flags-lt c p) (omega arith) in
    let f : bit_and (encode_leaf (q * 4096) c p) address_mask ≡ q * 2 ^ 10 =
      rw (encode_leaf-fields q c p)
        (omega (arith, e, bit_and_mask 54 q, bit_and-zero (flags c p))) in
    rw f (omega arith)

-- An entry that encodes the address `q * 4096` below `2 ^ 64`, any configuration and any permission is
-- valid and decodes to that address, that configuration and that permission.
pub leaf_roundtrip :
    (q : ℕ) (c : PageTableConfiguration) (p : PageTablePermission)
    → q < 2 ^ 52
    → (is_valid (encode_leaf (q * 4096) c p) ≡ true)
      × (decode_address (encode_leaf (q * 4096) c p) ≡ q * 4096)
      × (decode_configuration (encode_leaf (q * 4096) c p) ≡ c)
      × (decode_permission (encode_leaf (q * 4096) c p) ≡ p)
leaf_roundtrip q c p h = (
  is_valid-encode_leaf q c p,
  decode_address-encode_leaf q c p h,
  decode_configuration-encode_leaf q c p,
  decode_permission-encode_leaf q c p,
)

-- The entry of a shared page, whose permission denies execution, has its execute bit set exactly
-- where bit 5 of the address is set: the encoder relies on an aligned address.
pub shared_entry_executable :
    (address : ℕ)
    → bit (encode_leaf address shared_page_configuration shared_page_permission) 3 ≡ bit address 5
unfolding encode_leaf encode_address encode_configuration encode_permission bit
shared_entry_executable address =
    rw
      (
        bit-bit_or 3 (bit_or (bit_or 1 (address / 2 ^ 2)) 208) 6,
        bit-bit_or 3 (bit_or 1 (address / 2 ^ 2)) 208,
        bit-bit_or 3 1 (address / 2 ^ 2),
      )
      (omega arith)
