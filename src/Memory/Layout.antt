-- ===== src/Memory/Layout.antt =====
-- core/memory_layout: the confidential and the non-confidential region of the physical memory. The
-- static MEMORY_LAYOUT is an argument of what reads it.
pub mod Laws
use ace_riscv.Base.{
  ℕ, ◌+◌, ◌*◌, ◌/◌, ◌%◌, Bool, ◌&&◌, ltb, leb, ◌==◌, if◌then◌else◌, Outcome, ok, err, ◌>>=◌, ◌>>◌,
  assure, assure_not, assert, map_err, init, not_enough_memory, memory_access_authorization,
}
use ace_riscv.Memory.Pointer.{ptr_byte_offset, is_negative, ptr_byte_add_mut, ptr_align}
use ace_riscv.Memory.PageSize.{in_bytes, smallest}

pub record MemoryLayout : Type 0 where
  pub non_confidential_memory_start : ℕ
  pub non_confidential_memory_end : ℕ
  pub confidential_memory_start : ℕ
  pub confidential_memory_end : ℕ

-- `*p.is_aligned_to(align)`
abbrev pub is_aligned_to : ℕ → ℕ → Bool
is_aligned_to address align = address % align == 0

-- The end of the confidential memory, moved down to a multiple of the smallest page.
unfoldable pub aligned_end : ℕ → ℕ → Outcome ℕ
unfolding ptr_byte_offset ptr_byte_add_mut in_bytes smallest
aligned_end start end = do
  memory_size ← ptr_byte_offset end start
  assure_not (is_negative memory_size) (init not_enough_memory)
  let memory_size_in_bytes = memory_size / in_bytes smallest * in_bytes smallest
  if ltb memory_size_in_bytes memory_size
      then ptr_byte_add_mut start memory_size_in_bytes end
      else ok end

-- `MemoryLayout::init`, with the layout that the static variable is set to. The address and the end
-- that it returns are those of the layout.
unfoldable pub init_layout : ℕ → ℕ → ℕ → ℕ → Outcome MemoryLayout
unfolding in_bytes smallest
init_layout nc_start nc_end c_start c_end = do
  assert (ltb nc_start nc_end)
  assert (leb nc_end c_start)
  assert (ltb c_start c_end)
  start ← map_err (ptr_align c_start (in_bytes smallest) c_end) (init not_enough_memory)
  end ← aligned_end start c_end
  ok (record {
    non_confidential_memory_start = nc_start;
    non_confidential_memory_end = nc_end;
    confidential_memory_start = start;
    confidential_memory_end = end;
  })

-- `ConfidentialMemoryAddress::add` and `NonConfidentialMemoryAddress::add`.
unfoldable pub address_add : ℕ → ℕ → ℕ → Outcome ℕ
unfolding ptr_byte_add_mut
address_add address offset_in_bytes upper_bound =
    map_err (ptr_byte_add_mut address offset_in_bytes upper_bound) memory_access_authorization

unfoldable pub confidential_address_at_offset : MemoryLayout → ℕ → ℕ → Outcome ℕ
unfolding address_add
confidential_address_at_offset l address offset_in_bytes =
    map_err (address_add address offset_in_bytes l.confidential_memory_end)
      memory_access_authorization

unfoldable pub confidential_address_at_offset_bounded : MemoryLayout → ℕ → ℕ → ℕ → Outcome ℕ
unfolding confidential_address_at_offset
confidential_address_at_offset_bounded l address offset_in_bytes upper_bound = do
  assure (leb upper_bound l.confidential_memory_end) memory_access_authorization
  confidential_address_at_offset l address offset_in_bytes

unfoldable pub non_confidential_address_at_offset : MemoryLayout → ℕ → ℕ → Outcome ℕ
unfolding address_add
non_confidential_address_at_offset l address offset_in_bytes =
    map_err (address_add address offset_in_bytes l.non_confidential_memory_end)
      memory_access_authorization

unfoldable pub is_in_non_confidential_range : MemoryLayout → ℕ → Bool
is_in_non_confidential_range l address =
    leb l.non_confidential_memory_start address && ltb address l.non_confidential_memory_end

-- `NonConfidentialMemoryAddress::new`
unfoldable pub non_confidential_address : MemoryLayout → ℕ → Outcome ℕ
unfolding is_in_non_confidential_range
non_confidential_address l address =
    if is_in_non_confidential_range l address then ok address else err memory_access_authorization
