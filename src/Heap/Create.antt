-- ===== src/Heap/Create.antt =====
-- `heap_create` of src/memory/heap/heap.c: which arguments it takes, and what it makes of them.
use marrow_os.Base.{
  ℕ, ◌+◌, ◌-◌, ◌*◌, ◌%◌, ◌^◌, ◌≤◌, ◌<◌, ◌≡◌, refl, sym, true, some, List, [], ◌∷◌, length,
  length-replicate, replicate, arith, ◌≢◌, ◌⊎◌,
}
use marrow_os.Heap.{
  Heap, HeapTable, all_ok, einvarg, block_size, entry_free, clear_entries, heap_create,
  heap_validate_table, heap_validate_alignment,
}
use marrow_os.Heap.Segments.{render-gaps, gaps, IsFormed}

clear_entries-all :
    (es : List ℕ) → clear_entries (length es) es ≡ some (replicate (length es) entry_free)
unfolding clear_entries
clear_entries-all [] = refl
clear_entries-all (e ∷ es) = rw (clear_entries-all es)

aligned : (p : ℕ) → p % block_size ≡ 0 → heap_validate_alignment p ≡ true
unfolding heap_validate_alignment
aligned p h = ground arith

table_fits :
    (ptr blocks : ℕ) (table : HeapTable)
    → ptr + blocks * block_size ≤ 2 ^ 32 - 1
    → table.total ≡ blocks
    → heap_validate_table ptr (ptr + blocks * block_size) table ≡ all_ok
unfolding heap_validate_table
table_fits ptr blocks table h t = ground arith

-- `heap_create` over an aligned range of as many blocks as the table has entries succeeds, and
-- the heap is formed with every block free.
pub heap_create-IsFormed :
    (heap : Heap) (ptr blocks : ℕ) (table : HeapTable)
    → ptr % block_size ≡ 0
    → ptr + blocks * block_size ≤ 2 ^ 32 - 1
    → blocks * block_size < 2 ^ 31
    → table.total ≡ blocks
    → length table.entries ≡ blocks
    → (h : Heap) × (heap_create heap ptr (ptr + blocks * block_size) table ≡ some (all_ok, h))
      × (h.saddr ≡ ptr)
      × IsFormed h (gaps blocks)
unfolding heap_create
heap_create-IsFormed heap ptr blocks table a space reach t l = (
  made,
  rw
      (
        aligned ptr a,
        aligned (ptr + blocks * block_size) (omega arith),
        table_fits ptr blocks table space t,
      )
      (rw (t, ← l, clear_entries-all table.entries)),
  refl,
  record {
    entries_eq = sym (render-gaps blocks);
    total_eq = sym (length-replicate blocks entry_free);
    space = omega arith;
    reach = reach;
  },
)
  where
    made : Heap
    made = record {
      table = record { entries = replicate blocks entry_free; total = blocks };
      saddr = ptr;
    }

-- A misaligned bound is refused, and the heap stays as it was.
pub heap_create-misaligned :
    (heap : Heap) (ptr end : ℕ) (table : HeapTable)
    → ((ptr % block_size ≢ 0) ⊎ (end % block_size ≢ 0))
    → heap_create heap ptr end table ≡ some (einvarg, heap)
unfolding heap_create heap_validate_alignment
heap_create-misaligned heap ptr end table h = ground arith

-- A table whose size does not fit the range is refused.
pub heap_create-wrong_total :
    (heap : Heap) (ptr end : ℕ) (table : HeapTable)
    → ptr % block_size ≡ 0
    → end % block_size ≡ 0
    → ptr ≤ end
    → end < 2 ^ 32
    → table.total * block_size ≢ end - ptr
    → heap_create heap ptr end table ≡ some (einvarg, record { table = table; saddr = ptr })
unfolding heap_create heap_validate_alignment heap_validate_table
heap_create-wrong_total heap ptr end table a b le lt ne = ground arith
