-- ===== src/Mmu/Table.antt =====
-- core/memory_protector/mmu/page_table.rs and core/page_allocator/shared_page.rs. A table holds a
-- list of entries and an entry a table, so the entries are a list type of their own.
pub mod Walk
pub mod Mapping
use ace_riscv.Base.{
  ℕ, zero, suc, ◌-◌, ◌==◌, if◌then◌else◌, Bool, true, false, Outcome, ok, err, panic, ◌>>=◌, Error,
  address_translation_failed, page_table_configuration,
}
use ace_riscv.Memory.PageSize.{PageSize, size_4KiB, in_bytes}
use ace_riscv.Memory.Layout.{
  MemoryLayout, non_confidential_address, non_confidential_address_at_offset,
}
use ace_riscv.Memory.Page.{Page, allocated, start_address}
use ace_riscv.Mmu.Entry.{
  PageTableConfiguration, PageTablePermission, encode_leaf, encode_pointer,
  shared_page_configuration, shared_page_permission, empty_configuration,
}
use ace_riscv.Mmu.Paging.{PagingSystem, PageTableLevel, level1, level2, level3, level4, level5, vpn}
use ace_riscv.Mmu.TableMemory
use ace_riscv.Mmu.TableMemory.{
  PageTableMemory, Heap, start_address_of, set_raw_entry, release_allocated, drop_pages,
}

pub record SharedPage : Type 0 where
  pub hypervisor_address : ℕ
  pub confidential_vm_virtual_address : ℕ
  pub page_size : PageSize

mutual
  pub data PageTable : Type 0 where
    page_table : PageTableLevel → PageTableMemory → Entries → PageTable

  pub data PageTableEntry : Type 0 where
    pointer : PageTable → PageTableConfiguration → PageTableEntry
    leaf : Page allocated → PageTableConfiguration → PageTablePermission → PageTableEntry
    shared : SharedPage → PageTableConfiguration → PageTablePermission → PageTableEntry
    not_valid : PageTableEntry

  pub data Entries : Type 0 where
    nil : Entries
    cons : PageTableEntry → Entries → Entries

-- `SharedPage::new` for a `SharePageRequest`, whose page size is 4 KiB.
unfoldable pub new_shared_page : MemoryLayout → ℕ → ℕ → Outcome SharedPage
new_shared_page l hypervisor_address confidential_vm_virtual_address = do
  address ← non_confidential_address l hypervisor_address
  _ ← non_confidential_address_at_offset l address (in_bytes size_4KiB - 1)
  ok (record {
    hypervisor_address = address;
    confidential_vm_virtual_address = confidential_vm_virtual_address;
    page_size = size_4KiB;
  })

-- `PageTable::address`
unfoldable pub address : PageTable → Outcome ℕ
unfolding start_address_of
address (page_table level m es) = start_address_of m

-- `PageTableEntry::encode`
unfoldable pub encode : PageTableEntry → Outcome ℕ
unfolding address
encode (pointer t c) = do a ← address t; ok (encode_pointer a c)
encode (leaf page c p) = ok (encode_leaf (start_address page) c p)
encode (shared s c p) = ok (encode_leaf s.hypervisor_address c p)
encode not_valid = ok 0

unfoldable mutual
  pub translate : PagingSystem → ℕ → PageTable → Outcome ℕ
  translate s a (page_table level m es) = translate_at s a (vpn s a level) es

  pub translate_at : PagingSystem → ℕ → ℕ → Entries → Outcome ℕ
  translate_at s a i nil = err page_table_configuration
  translate_at s a zero (cons e es) = translate_entry s a e
  translate_at s a (suc i) (cons e es) = translate_at s a i es

  pub translate_entry : PagingSystem → ℕ → PageTableEntry → Outcome ℕ
  translate_entry s a (pointer t c) = translate s a t
  translate_entry s a (leaf page c p) = ok (start_address page)
  translate_entry s a (shared page c p) = err address_translation_failed
  translate_entry s a not_valid = err address_translation_failed

-- `matches!(level, PageTableLevel::Level1)`, the derived equality with the last level.
unfoldable pub is_level1 : PageTableLevel → Bool
is_level1 level1 = true
is_level1 level2 = false
is_level1 level3 = false
is_level1 level4 = false
is_level1 level5 = false

-- The entry of a shared page that `map_shared_page` creates.
abbrev pub shared_entry : SharedPage → PageTableEntry
shared_entry page = shared page shared_page_configuration shared_page_permission

-- The rest of `set_entry`, once the vector holds the new entry.
unfoldable pub release_entry : PageTableEntry → Heap → Outcome Heap
release_entry (leaf page c p) h = release_allocated page h
release_entry (pointer t c) h = ok h
release_entry (shared page c p) h = ok h
release_entry not_valid h = ok h

-- `set_entry` on the memory; the caller stores the new entry, which is returned.
unfoldable pub set_entry :
    PageTableMemory
    → ℕ
    → PageTableEntry
    → PageTableEntry
    → Heap
    → Outcome (Outcome (Unit {0}) × PageTableEntry × Heap)
unfolding encode
set_entry m index new_entry old_entry h = do
  value ← encode new_entry
  memory ← set_raw_entry m index value h.memory
  h' ← release_entry old_entry (record h { memory = memory })
  ok (ok tt, new_entry, h')

-- What `map_shared_page` does in a table without an entry at the index.
unfoldable pub missing_entry : Heap → Outcome (Outcome (Unit {0}) × Entries × Heap)
missing_entry h = ok (err page_table_configuration, nil, h)

-- The branch of `map_shared_page` for an entry that is not valid above the last level: the table
-- it creates has no entries yet, and its pages are released when the mapping in it fails.
unfoldable pub create_table :
    MemoryLayout
    → PagingSystem
    → SharedPage
    → PageTableLevel
    → PageTableMemory
    → ℕ
    → Heap
    → Outcome (Outcome (Unit {0}) × PageTableEntry × Heap)
unfolding missing_entry
create_table l s page level m index h = do
  (next, h') ← TableMemory.empty l s level h
  elim next [
    | err e ↦ ok (err e, not_valid, h')
    | panic ↦ panic
    | ok next_memory ↦ do
      (mapped, next_entries, h'') ← missing_entry h'
      elim mapped [
        | err e ↦ do h''' ← drop_pages next_memory.pages h''; ok (err e, not_valid, h''')
        | panic ↦ panic
        | ok _ ↦
            set_entry m index
              (pointer (page_table level next_memory next_entries) empty_configuration) not_valid
              h''
      ]
  ]

-- `map_shared_page`. The first component of what it returns is the result of the Rust function.
module _ (l : MemoryLayout) (s : PagingSystem) (page : SharedPage) where
  unfoldable mutual
    pub map_shared_page : PageTable → Heap → Outcome (Outcome (Unit {0}) × PageTable × Heap)
    map_shared_page (page_table level m es) h = do
      let index = vpn s page.confidential_vm_virtual_address level
      (r, es', h') ← map_at level m index index es h
      ok (r, page_table level m es', h')

    pub map_at :
        PageTableLevel
        → PageTableMemory
        → ℕ
        → ℕ
        → Entries
        → Heap
        → Outcome (Outcome (Unit {0}) × Entries × Heap)
    map_at level m index i nil h = missing_entry h
    map_at level m index zero (cons e es) h = do
      (r, e', h') ← map_entry level m index e h
      ok (r, cons e' es, h')
    map_at level m index (suc i) (cons e es) h = do
      (r, es', h') ← map_at level m index i es h
      ok (r, cons e es', h')

    pub map_entry :
        PageTableLevel
        → PageTableMemory
        → ℕ
        → PageTableEntry
        → Heap
        → Outcome (Outcome (Unit {0}) × PageTableEntry × Heap)
    map_entry level m index (pointer t c) h = do
      (r, t', h') ← map_shared_page t h
      ok (r, pointer t' c, h')
    map_entry level m index (leaf old c p) h =
        set_entry m index (shared_entry page) (leaf old c p) h
    map_entry level m index (shared old c p) h =
        set_entry m index (shared_entry page) (shared old c p) h
    map_entry level m index not_valid h =
        if is_level1 level
        then set_entry m index (shared_entry page) not_valid h
        else create_table l s page level m index h
