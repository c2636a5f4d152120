-- ===== src/Paging.antt =====
-- src/memory/paging/paging.c: two-level page tables in memory. A `struct paging_4gb_chunk` is one
-- word that holds the address of its directory; a directory and a table are 1024 words each.
pub mod Words
pub mod Align
pub mod Entries
pub mod Ranges
pub mod Translate
pub mod Succeeds
pub mod Chunks
use mathlib.Core.Option
use Words.{read32, write32}
use marrow_os.Base.{
  ℕ, zero, suc, ◌+◌, ◌-◌, ◌*◌, ◌/◌, ◌%◌, ◌^◌, bit_and, bit_or, Bool, not, ◌||◌, Option, none, some,
  ltb, ◌==◌, if◌then◌else◌,
}
use marrow_os.Memory.{Mem}
use marrow_os.Kheap.{Kernel, kzalloc, kfree}

abbrev pub page_size : ℕ
page_size = 4096

abbrev pub entries_per_table : ℕ
entries_per_table = 1024

-- The bits of an entry that hold an address.
abbrev pub address_mask : ℕ
address_mask = 0xfffff000

-- The status codes of status.h that paging returns.
pub data Status : Type 0 where
  all_ok einvarg : Status

pub paging_is_aligned : ℕ → Bool
paging_is_aligned addr = addr % page_size == 0

-- The two indexes, or `none` for -EINVARG, which leaves both outputs as they were.
pub paging_get_indexes : ℕ → Option (ℕ × ℕ)
paging_get_indexes virt =
    if not (paging_is_aligned virt)
    then none
    else some
        (virt / (entries_per_table * page_size), virt % (entries_per_table * page_size) / page_size)

unfoldable pub paging_align_address : ℕ → ℕ
paging_align_address ptr =
    if not (ptr % page_size == 0) then (ptr + page_size - ptr % page_size) % 2 ^ 32 else ptr

unfoldable pub paging_align_to_lower_page : ℕ → ℕ
paging_align_to_lower_page addr = addr - addr % page_size

-- The table that the directory at `directory` has at an index.
unfoldable pub table_of : ℕ → ℕ → Mem → ℕ
table_of directory index m = bit_and (read32 m (directory + 4 * index)) address_mask

pub paging_set : ℕ → ℕ → ℕ → Mem → Status × Mem
paging_set directory virt val m =
    if not (paging_is_aligned virt) then (einvarg, m) else elim (paging_get_indexes virt) [
      | none ↦ (einvarg, m)
      | some (directory_index, table_index) ↦
          (all_ok, write32 m (table_of directory directory_index m + 4 * table_index) val)
    ]

-- The result of `paging_get_indexes` is not checked: both indexes stay 0 for a misaligned address.
pub paging_get : ℕ → ℕ → Mem → ℕ
paging_get directory virt m =
    let (directory_index, table_index) = Option.get_or (paging_get_indexes virt) (0, 0) in
    read32 m (table_of directory directory_index m + 4 * table_index)

-- `chunk->directory_entry`
unfoldable pub paging_4gb_chunk_get_directory : ℕ → Mem → ℕ
paging_4gb_chunk_get_directory chunk m = read32 m chunk

pub paging_map : ℕ → ℕ → ℕ → ℕ → Mem → Status × Mem
paging_map chunk virt phys flags m =
    if not (virt % page_size == 0) || not (phys % page_size == 0)
    then (einvarg, m)
    else paging_set (paging_4gb_chunk_get_directory chunk m) virt (bit_or phys flags) m

-- The loop with `count` rounds to go; both addresses are 32-bit pointers and wrap.
pub paging_map_range : ℕ → ℕ → ℕ → ℕ → ℕ → Mem → Status × Mem
paging_map_range chunk virt phys zero flags m = (all_ok, m)
paging_map_range chunk virt phys (suc count) flags m =
    let (res, m') = paging_map chunk virt phys flags m in
    elim res [
      | einvarg ↦ (einvarg, m')
      | all_ok ↦
          paging_map_range chunk ((virt + page_size) % 2 ^ 32) ((phys + page_size) % 2 ^ 32) count
            flags m'
    ]

pub paging_map_to : ℕ → ℕ → ℕ → ℕ → ℕ → Mem → Status × Mem
paging_map_to chunk virt phys phys_end flags m =
    if not (virt % page_size == 0)
    then (einvarg, m)
    else if not (phys % page_size == 0)
    then (einvarg, m)
    else if not (phys_end % page_size == 0)
    then (einvarg, m)
    else if ltb phys_end phys
    then (einvarg, m)
    else paging_map_range chunk virt phys ((phys_end - phys) / page_size) flags m

pub paging_get_physical_address : ℕ → ℕ → Mem → ℕ
paging_get_physical_address directory virt m =
    let virt_addr_new : ℕ = paging_align_to_lower_page virt in
    let difference : ℕ = virt - virt_addr_new in
    (bit_and (paging_get directory virt_addr_new m) address_mask + difference) % 2 ^ 32
