-- ===== src/Tests/Blocks.antt =====
-- A heap of eight blocks at 1 MiB: an allocation of two blocks, two free ones, an allocation of one,
-- and three free ones.
use mathlib.Core.Option
use marrow_os.Base.{
  ℕ, suc, ◌+◌, ◌*◌, ◌≡◌, refl, none, some, List, [], ◌∷◌, ◌++◌, length, replicate, arith, ltb, leb,
  ◌&&◌, if◌then◌else◌,
}
use marrow_os.Heap.{Heap, HeapTable, block_size, heap_malloc, heap_free, heap_get_entry_type}
use marrow_os.Heap.FirstFit.{first_fit, last_run, run_free, all_free}
use marrow_os.Heap.Segments.{Segment, gap, used, gaps, render, Split, IsFormed}
use marrow_os.Heap.Malloc.{more_blocks, allocated, heap_malloc-fits}
use marrow_os.Heap.Free.{heap_free-heap_malloc}
use marrow_os.Heap.Overrun.{heap_malloc-overruns}
use marrow_os.Kheap.{Kernel, kzalloc}
use marrow_os.Kheap.Laws.{kzalloc-fits}

abbrev layout : List Segment
layout = used 1 ∷ (gap ∷ (gap ∷ (used 0 ∷ (gap ∷ (gap ∷ (gap ∷ []))))))

abbrev heap_of : List Segment → Heap
heap_of segs = record {
  table = record { entries = render segs; total = length (render segs) };
  saddr = 0x100000;
}

abbrev kernel : Kernel
kernel = record { heap = heap_of layout; mem = λ p. 7 }

layout-IsFormed : IsFormed (heap_of layout) layout
layout-IsFormed = record {
  entries_eq = refl;
  total_eq = refl;
  space = omega arith;
  reach = omega arith;
}

fits3 : first_fit (heap_of layout).table.entries (suc (more_blocks 10000)) 0 ≡ some 5
unfolding first_fit run_free heap_get_entry_type
fits3 = refl

heap_malloc-fits_example :
    (t : Split layout (suc (more_blocks 10000)) 5 0) × (heap_malloc (heap_of layout) 10000
      ≡ some (allocated (heap_of layout) t))
    × IsFormed (allocated (heap_of layout) t).1 (t.before ++ used (more_blocks 10000) ∷ t.after)
heap_malloc-fits_example =
    heap_malloc-fits (heap_of layout) layout 10000 5 layout-IsFormed (omega arith) (omega arith)
      fits3

-- Four blocks are free in no row, and the last block is taken.
abbrev taken_layout : List Segment
taken_layout = gap ∷ (gap ∷ (gap ∷ (used 0 ∷ [])))

taken_layout-IsFormed : IsFormed (heap_of taken_layout) taken_layout
taken_layout-IsFormed = record {
  entries_eq = refl;
  total_eq = refl;
  space = omega arith;
  reach = omega arith;
}

no_fit4 : first_fit (heap_of taken_layout).table.entries (suc (more_blocks 16384)) 0 ≡ none
unfolding first_fit run_free heap_get_entry_type
no_fit4 = refl

no_tail : last_run (heap_of taken_layout).table.entries 0 ≡ none
unfolding last_run all_free heap_get_entry_type
no_tail = refl

no_fit5 : first_fit (heap_of layout).table.entries (suc (more_blocks 16385)) 0 ≡ none
unfolding first_fit run_free heap_get_entry_type
no_fit5 = refl

tail5 : last_run (heap_of layout).table.entries 0 ≡ some 5
unfolding last_run all_free heap_get_entry_type
tail5 = refl

heap_malloc-overruns_example : heap_malloc (heap_of layout) 16385 ≡ none
heap_malloc-overruns_example =
    heap_malloc-overruns (heap_of layout) layout 16385 5 layout-IsFormed (omega arith) (omega arith)
      no_fit5 tail5

heap_free-heap_malloc_example :
    Option.bind (heap_malloc (heap_of layout) 10000) (λ r. heap_free r.1 r.0)
    ≡ some (heap_of layout)
heap_free-heap_malloc_example =
    heap_free-heap_malloc (heap_of layout) layout 10000 5 layout-IsFormed (omega arith)
      (omega arith) fits3

abbrev before : List Segment
before = used 1 ∷ (gap ∷ (gap ∷ []))

abbrev after : List Segment
after = gap ∷ (gap ∷ (gap ∷ []))

abbrev freed : List Segment
freed = before ++ (gaps 1 ++ after)

abbrev two_entries : HeapTable
two_entries = record { entries = 5 ∷ (9 ∷ []); total = 2 }

abbrev dirty : List ℕ
dirty = replicate 25600 0xff

kzalloc-fits_example :
    (t : Split layout (suc (more_blocks 10000)) 5 0) × (k' : Kernel) × (kzalloc 10000 kernel
      ≡ some ((allocated kernel.heap t).0, k'))
    × (k'.heap ≡ (allocated kernel.heap t).1)
    × IsFormed k'.heap (t.before ++ used (more_blocks 10000) ∷ t.after)
    × ((q : ℕ)
        → k'.mem q ≡ (
            if leb (0x100000 + 5 * block_size) q && ltb q (0x100000 + 5 * block_size + 10000)
            then 0
            else 7))
kzalloc-fits_example =
    kzalloc-fits kernel layout 10000 5 layout-IsFormed (omega arith) (omega arith) (omega arith)
      fits3
