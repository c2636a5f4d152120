-- ===== src/Heap.antt =====
-- src/memory/heap/heap.c and heap.h: the block heap. A heap is its table of block entries and the
-- address of its first block. `none` is an access outside the table.
pub mod FirstFit
pub mod Marks
pub mod Segments
pub mod Malloc
pub mod Free
pub mod Overrun
pub mod Create
use mathlib.Core.Option
use marrow_os.Base.{
  ℕ, zero, suc, ◌+◌, ◌-◌, ◌*◌, ◌/◌, ◌%◌, ◌^◌, bit_and, bit_or, Bool, not, ◌||◌, Option, none, some,
  List, [], ◌∷◌, get_elem?, store, ltb, ◌==◌, if◌then◌else◌,
}

abbrev pub block_size : ℕ
block_size = 4096

abbrev pub entry_taken : ℕ
entry_taken = 0x01

abbrev pub entry_free : ℕ
entry_free = 0x00

abbrev pub has_next : ℕ
has_next = 0b10000000

abbrev pub is_first : ℕ
is_first = 0b01000000

-- `struct heap_table`; an entry is a byte.
pub record HeapTable : Type 0 where
  pub entries : List ℕ
  pub total : ℕ

-- `struct heap`
pub record Heap : Type 0 where
  pub table : HeapTable
  pub saddr : ℕ

-- The status codes of status.h that the heap returns.
pub data Status : Type 0 where
  all_ok einvarg : Status

pub heap_validate_table : ℕ → ℕ → HeapTable → Status
heap_validate_table ptr end table =
    let table_size : ℕ = (end + 2 ^ 32 - ptr) % 2 ^ 32 in
    let total_blocks : ℕ = table_size / block_size in
    if table.total == total_blocks then all_ok else einvarg

pub heap_validate_alignment : ℕ → Bool
heap_validate_alignment ptr = ptr % block_size == 0

-- `memset(table->entries, FREE, total)` writes the first `total` entries.
pub clear_entries : ℕ → List ℕ → Option (List ℕ)
clear_entries zero es = some es
clear_entries (suc n) [] = none
clear_entries (suc n) (e ∷ es) = Option.map (λ rest. entry_free ∷ rest) (clear_entries n es)

-- `heap_create` writes through `heap` before it validates the table, so an error may leave the
-- new fields in place.
pub heap_create : Heap → ℕ → ℕ → HeapTable → Option (Status × Heap)
heap_create heap ptr end table =
    if not (heap_validate_alignment ptr) || not (heap_validate_alignment end)
    then some (einvarg, heap)
    else let made : Heap = record { table = table; saddr = ptr } in
      elim (heap_validate_table ptr end table) [
        | einvarg ↦ some (einvarg, made)
        | all_ok ↦
            Option.map (λ es. (all_ok, record made { table = record table { entries = es } }))
              (clear_entries table.total table.entries)
      ]

-- `uint32_t` arithmetic: the sum wraps.
pub heap_align_value_to_upper : ℕ → ℕ
heap_align_value_to_upper val =
    if val % block_size == 0 then val else (val - val % block_size + block_size) % 2 ^ 32

unfoldable pub heap_get_entry_type : ℕ → ℕ
heap_get_entry_type entry = bit_and entry 0x0f

-- The loop of `heap_get_start_block` at index `i`, with `left` rounds to go: `start` is
-- `block_start` (`none` for -1) and `current` is `block_current`.
pub scan_blocks : ℕ → List ℕ → ℕ → Option ℕ → ℕ → ℕ → Option (Option ℕ)
scan_blocks zero es i start current total_blocks = some start
scan_blocks (suc left) [] i start current total_blocks = none
scan_blocks (suc left) (e ∷ es) i start current total_blocks =
    let restart = scan_blocks left es (i + 1) none 0 total_blocks in
    let start' : Option ℕ = some (Option.get_or start i) in
    let more = scan_blocks left es (i + 1) start' (current + 1) total_blocks in
    if heap_get_entry_type e == entry_free
    then (if current + 1 == total_blocks then some start' else more)
    else restart

-- The inner `none` is -ENOMEM.
pub heap_get_start_block : Heap → ℕ → Option (Option ℕ)
heap_get_start_block heap total_blocks =
    scan_blocks heap.table.total heap.table.entries 0 none 0 total_blocks

pub heap_block_to_address : Heap → ℕ → ℕ
heap_block_to_address heap block = (heap.saddr + block * block_size) % 2 ^ 32

-- The loop of `heap_mark_blocks_taken` at index `i`, with `left` rounds to go and `end` the index
-- one past the last block.
pub mark_taken : ℕ → ℕ → ℕ → ℕ → List ℕ → Option (List ℕ)
mark_taken zero i end entry es = some es
mark_taken (suc left) i end entry es =
    let next : ℕ = if i + 2 == end then entry_taken else bit_or entry_taken has_next in
    Option.bind (store es i entry) (mark_taken left (i + 1) end next)

pub heap_mark_blocks_taken : Heap → ℕ → ℕ → Option Heap
heap_mark_blocks_taken heap start_block total_blocks =
    let first : ℕ = bit_or entry_taken is_first in
    let entry : ℕ = if ltb 1 total_blocks then bit_or first has_next else first in
    Option.map (λ es. record heap { table = record heap.table { entries = es } })
      (mark_taken total_blocks start_block (start_block + total_blocks) entry heap.table.entries)

-- The address, 0 where no block is found, and the heap after the call.
pub heap_malloc_blocks : Heap → ℕ → Option (ℕ × Heap)
heap_malloc_blocks heap total_blocks = Option.bind (heap_get_start_block heap total_blocks) λ start.
    elim start [
      | none ↦ some (0, heap)
      | some block ↦
          Option.map (λ h. (heap_block_to_address heap block, h))
            (heap_mark_blocks_taken heap block total_blocks)
    ]

-- The loop of `heap_mark_blocks_free` at index `i`, with `left` rounds to go.
unfoldable pub mark_free : ℕ → ℕ → List ℕ → Option (List ℕ)
mark_free zero i es = some es
mark_free (suc left) i es = Option.bind (get_elem? es i) λ entry.
    Option.bind (store es i entry_free) λ es'.
      let rest = mark_free left (i + 1) es' in
      if bit_and entry has_next == 0 then some es' else rest

-- An index below 0 is outside the table; at or past `total` the loop makes no round.
unfoldable pub heap_mark_blocks_free : Heap → ℕ → Option Heap
heap_mark_blocks_free heap starting_block =
    Option.map (λ es. record heap { table = record heap.table { entries = es } })
      (mark_free (heap.table.total - starting_block) starting_block heap.table.entries)

-- `(int)(address - saddr) / 4096` rounds towards 0; `none` is a negative block.
unfoldable pub heap_address_to_block : Heap → ℕ → Option ℕ
heap_address_to_block heap address =
    let offset : ℕ = (address + 2 ^ 32 - heap.saddr) % 2 ^ 32 in
    if ltb offset (2 ^ 31)
    then some (offset / block_size)
    else (if ltb (2 ^ 32 - offset) block_size then some 0 else none)

pub heap_malloc : Heap → ℕ → Option (ℕ × Heap)
heap_malloc heap size = heap_malloc_blocks heap (heap_align_value_to_upper size / block_size)

unfoldable pub heap_free : Heap → ℕ → Option Heap
heap_free heap ptr = Option.bind (heap_address_to_block heap ptr) (heap_mark_blocks_free heap)
