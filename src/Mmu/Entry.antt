-- ===== src/Mmu/Entry.antt =====
-- core/memory_protector/mmu/page_table_entry.rs: the fields of a raw page table entry.
pub mod Coding
use ace_riscv.Base.{
  ℕ, ◌+◌, ◌-◌, ◌*◌, ◌/◌, ◌%◌, ◌^◌, Bool, true, false, not, ◌||◌, ◌==◌, if◌then◌else◌, bit_and,
  bit_or, usize_mod,
}

pub data PageTableBits : Type 0 where
  valid read write execute user global accessed dirty : PageTableBits

abbrev pub index : PageTableBits → ℕ
index valid = 0
index read = 1
index write = 2
index execute = 3
index user = 4
index global = 5
index accessed = 6
index dirty = 7

abbrev pub mask : PageTableBits → ℕ
mask b = 2 ^ index b

unfoldable pub is_set : PageTableBits → ℕ → Bool
is_set b raw_entry = not (bit_and raw_entry (mask b) == 0)

unfoldable pub is_valid : ℕ → Bool
unfolding is_set
is_valid raw_entry = is_set valid raw_entry

unfoldable pub is_leaf : ℕ → Bool
unfolding is_set
is_leaf raw_entry = is_set read raw_entry || (is_set write raw_entry || is_set execute raw_entry)

-- 0x3ff, the first 10 bits, and its complement in a word.
abbrev pub configuration_bit_mask : ℕ
configuration_bit_mask = 0x3ff

abbrev pub address_mask : ℕ
address_mask = 0xffff_ffff_ffff_fc00

-- `PageTableAddress::decode`; the shift drops what leaves the word.
unfoldable pub decode_address : ℕ → ℕ
decode_address raw_entry = bit_and raw_entry address_mask * 2 ^ 2 % usize_mod

unfoldable pub encode_address : ℕ → ℕ
encode_address address = address / 2 ^ 2

pub record PageTablePermission : Type 0 where
  pub can_read : Bool
  pub can_write : Bool
  pub can_execute : Bool

abbrev pub shared_page_permission : PageTablePermission
shared_page_permission = record { can_read = true; can_write = true; can_execute = false }

unfoldable pub decode_permission : ℕ → PageTablePermission
unfolding is_set
decode_permission raw_entry = record {
  can_read = is_set read raw_entry;
  can_write = is_set write raw_entry;
  can_execute = is_set execute raw_entry;
}

-- One step of an `encode` function.
abbrev pub add_bit : Bool → PageTableBits → ℕ → ℕ
add_bit flag b encoded_value = if flag then bit_or encoded_value (mask b) else encoded_value

unfoldable pub encode_permission : PageTablePermission → ℕ
encode_permission p =
    add_bit p.can_execute execute (add_bit p.can_write write (add_bit p.can_read read 0))

pub record PageTableConfiguration : Type 0 where
  pub is_accessible_to_user : Bool
  pub was_accessed : Bool
  pub is_global_mapping : Bool
  pub is_dirty : Bool

abbrev pub empty_configuration : PageTableConfiguration
empty_configuration = record {
  is_accessible_to_user = false;
  was_accessed = false;
  is_global_mapping = false;
  is_dirty = false;
}

abbrev pub shared_page_configuration : PageTableConfiguration
shared_page_configuration = record {
  is_accessible_to_user = true;
  was_accessed = true;
  is_global_mapping = false;
  is_dirty = true;
}

unfoldable pub decode_configuration : ℕ → PageTableConfiguration
unfolding is_set
decode_configuration raw_entry = record {
  is_accessible_to_user = is_set user raw_entry;
  was_accessed = is_set accessed raw_entry;
  is_global_mapping = is_set global raw_entry;
  is_dirty = is_set dirty raw_entry;
}

unfoldable pub encode_configuration : PageTableConfiguration → ℕ
encode_configuration c = add_bit c.is_dirty dirty (
    add_bit c.is_global_mapping global
      (add_bit c.was_accessed accessed (add_bit c.is_accessible_to_user user 0)))

-- The arms of `PageTableEntry::encode`, by the address that the entry holds: a pointer has no
-- permissions.
unfoldable pub encode_pointer : ℕ → PageTableConfiguration → ℕ
unfolding encode_address encode_configuration
encode_pointer address configuration =
    bit_or (bit_or (mask valid) (encode_address address)) (encode_configuration configuration)

unfoldable pub encode_leaf : ℕ → PageTableConfiguration → PageTablePermission → ℕ
unfolding encode_address encode_configuration encode_permission
encode_leaf address configuration permission =
    bit_or
      (bit_or (bit_or (mask valid) (encode_address address)) (encode_configuration configuration))
      (encode_permission permission)
