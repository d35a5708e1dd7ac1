-- ===== src/Memory/Pointer.antt =====
-- rust-crates/pointers_utility/src/lib.rs. A pointer is its 64-bit address; pointer arithmetic wraps.
use ace_riscv.Base.{
  ℕ, ◌+◌, ◌-◌, ◌/◌, ◌%◌, ◌≤◌, ◌<◌, ◌≡◌, Bool, true, false, not, ◌&&◌, ltb, leb, ◌==◌, if◌then◌else◌,
  Outcome, ok, err, panic, ◌>>=◌, pointer, usize_mod, usize_max, mul_usize, arith,
}

-- `size_of::<usize>()`
abbrev pub word : ℕ
word = 8

-- The sign of an `isize` given by its bit pattern. `usize::try_from` refuses negative values.
abbrev pub is_negative : ℕ → Bool
is_negative bits = leb 0x8000_0000_0000_0000 bits

abbrev differ : Bool → Bool → Bool
differ true b = not b
differ false b = b

-- The difference of two addresses as `isize` values, given by its bit pattern; the subtraction
-- panics on overflow.
unfoldable pub ptr_byte_offset : ℕ → ℕ → Outcome ℕ
ptr_byte_offset pointer1 pointer2 =
    let difference = (pointer1 + usize_mod - pointer2) % usize_mod in
    if differ (is_negative pointer1) (is_negative pointer2)
      && differ (is_negative pointer1) (is_negative difference)
    then panic
    else ok difference

unfoldable pub ptr_byte_add_mut : ℕ → ℕ → ℕ → Outcome ℕ
ptr_byte_add_mut p offset_in_bytes owned_region_end =
    let incremented_pointer = (p + offset_in_bytes) % usize_mod in
    if leb owned_region_end incremented_pointer
    then err pointer
    else if ltb 0 offset_in_bytes && leb incremented_pointer p
    then err pointer
    else ok incremented_pointer

-- `pointer.align_offset(align)` of the standard library on a `*mut usize`, for a power of two: the
-- number of 8-byte words to the next aligned address, or `usize::MAX` where there is none.
unfoldable pub align_offset : ℕ → ℕ → ℕ
align_offset p align =
    if p % align == 0
    then 0
    else if ltb word align && (p % word == 0)
    then (align - p % align) / word
    else usize_max

unfoldable pub ptr_align : ℕ → ℕ → ℕ → Outcome ℕ
unfolding align_offset ptr_byte_add_mut
ptr_align p align_in_bytes owned_region_end = do
  offset_to_align ← mul_usize (align_offset p align_in_bytes) word
  ptr_byte_add_mut p offset_to_align owned_region_end

-- Within 64-bit bounds, adding succeeds exactly where the sum stays below the end of the region, and
-- then it is the sum.
pub ptr_byte_add_mut-ok :
    (p offset end : ℕ)
    → p < usize_mod
    → offset < usize_mod
    → end ≤ usize_mod
    → p + offset < end
    → ptr_byte_add_mut p offset end ≡ ok (p + offset)
unfolding ptr_byte_add_mut
ptr_byte_add_mut-ok p offset end hp ho he h = ground arith

pub ptr_byte_add_mut-eq_ok :
    (p offset end : ℕ) {q : ℕ}
    → p < usize_mod
    → offset < usize_mod
    → ptr_byte_add_mut p offset end ≡ ok q
    → (q ≡ p + offset) × (q < end)
unfolding ptr_byte_add_mut
ptr_byte_add_mut-eq_ok p offset end hp ho h = ground arith

pub ptr_byte_add_mut-overflow :
    (p offset end : ℕ)
    → p < usize_mod
    → offset < usize_mod
    → end ≤ usize_mod
    → end ≤ p + offset
    → ptr_byte_add_mut p offset end ≡ err pointer
unfolding ptr_byte_add_mut
ptr_byte_add_mut-overflow p offset end hp ho he h = ground arith
