-- ===== src/Process/Allocations.antt =====
-- `process_malloc` and `process_free` of src/task/process.c against the heap and the allocation table.
use mathlib.Core.Option
use mathlib.Core.Option.{some-injective}
use marrow_os.Base.{
  ℕ, zero, suc, ◌+◌, ◌*◌, ◌%◌, ◌^◌, ◌≤◌, ◌<◌, ◌≡◌, ◌≢◌, refl, sym, ap, subst, ◌∙◌, none, some, ◌++◌,
  List, [], ◌∷◌, length, ◌==◌, set, arith, ==_ne, ==_refl, ℕ_discrete,
}
use marrow_os.Heap.{Heap, block_size, heap_free}
use marrow_os.Heap.FirstFit.{first_fit}
use marrow_os.Heap.Segments.{Segment, used, Split, IsFormed}
use marrow_os.Heap.Malloc.{max_request, more_blocks, allocated, split-inside}
use marrow_os.Heap.Free.{heap_free-allocated}
use marrow_os.Heap.Overrun.{heap_free-null}
use marrow_os.Kheap.{Kernel, kzalloc, kfree}
use marrow_os.Kheap.Laws.{kzalloc-fits}
use marrow_os.Paging.{page_size, paging_map_to, paging_align_address}
use marrow_os.Paging.Succeeds.{paging_map_to-succeeds}
use marrow_os.Paging.Align.{paging_align_address_lem}
use marrow_os.Memory.{Mem}
use marrow_os.Process.{
  ProcessAllocation, no_allocation, Process, map_flags, free_allocation_from,
  process_find_free_allocation_index, give_back, process_malloc, unjoin, allocation_at,
  process_get_allocation_by_addr, process_allocation_unjoin, process_free,
}

-- The table of allocations.
free_allocation_from-inside :
    (es : List ProcessAllocation) (j i : ℕ)
    → free_allocation_from es j ≡ some i
    → (n : ℕ) × (i ≡ j + n) × (n < length es)
unfolding free_allocation_from
free_allocation_from-inside [] j i h = cc
free_allocation_from-inside (a ∷ es) j i h = elim (ℕ_discrete a.ptr 0) [
  | yes e ↦ (0, some-injective _ _ (sym (rw (e, ◌==◌) at h)) ∙ omega arith, omega arith)
  | no ne ↦
      let (n, at, inside) = free_allocation_from-inside es (j + 1) i (rw (==_ne a.ptr 0 ne) at h) in
      (suc n, omega arith, omega arith)
]

-- The pointer stands in no entry.
absent :
    (e : ProcessAllocation) (es : List ProcessAllocation) (ptr : ℕ)
    → allocation_at ptr (e ∷ es) ≡ none
    → (e.ptr ≢ ptr) × (allocation_at ptr es ≡ none)
unfolding allocation_at
absent e es ptr f = elim (ℕ_discrete e.ptr ptr) [
  | yes same ↦
      let same_ptr : allocation_at e.ptr (e ∷ es) ≡ none =
        subst (λ (q : ℕ). allocation_at q (e ∷ es) ≡ none) (sym same) f in
      let found : some e ≡ none = rw (==_refl e.ptr) at same_ptr in cc
  | no ne ↦ (ne, rw (==_ne e.ptr ptr ne) at f)
]

allocation_at-set :
    (es : List ProcessAllocation) (i : ℕ) (a : ProcessAllocation)
    → i < length es
    → allocation_at a.ptr es ≡ none
    → allocation_at a.ptr (set es i a) ≡ some a
unfolding allocation_at
allocation_at-set [] i a h f = absurd (omega arith)
allocation_at-set (e ∷ es) zero a h f = rw (==_refl a.ptr) refl
allocation_at-set (e ∷ es) (suc i) a h f =
    let (ne, f') = absent e es a.ptr f in
    rw (==_ne e.ptr a.ptr ne) (allocation_at-set es i a (omega arith) f')

unjoin-absent :
    (es : List ProcessAllocation) (ptr : ℕ) → allocation_at ptr es ≡ none → unjoin ptr es ≡ es
unfolding allocation_at unjoin
unjoin-absent [] ptr f = refl
unjoin-absent (e ∷ es) ptr f =
    let (ne, f') = absent e es ptr f in
    rw (==_ne e.ptr ptr ne) (ap (λ xs. e ∷ xs) (unjoin-absent es ptr f'))

unjoin-set :
    (es : List ProcessAllocation) (i : ℕ) (a : ProcessAllocation)
    → allocation_at a.ptr es ≡ none
    → unjoin a.ptr (set es i a) ≡ set es i no_allocation
unfolding allocation_at unjoin
unjoin-set [] i a f = refl
unjoin-set (e ∷ es) zero a f =
    rw (==_refl a.ptr)
      (ap (λ xs. no_allocation ∷ xs) (unjoin-absent es a.ptr (absent e es a.ptr f).1))
unjoin-set (e ∷ es) (suc i) a f =
    let (ne, f') = absent e es a.ptr f in
    rw (==_ne e.ptr a.ptr ne) (ap (λ xs. e ∷ xs) (unjoin-set es i a f'))

-- What `process_malloc` finds in the heap: its address is a page, and the request ends below the top
-- of the address space.
mapped_range :
    (heap : Heap) (segs : List Segment) (size b : ℕ) (t : Split segs (suc (more_blocks size)) b 0)
    → IsFormed heap segs
    → heap.saddr % page_size ≡ 0
    → heap.saddr + heap.table.total * block_size < 2 ^ 32
    → 0 < size
    → let ptr = (allocated heap t).0 in
      let end = paging_align_address ((ptr + size) % 2 ^ 32) in
      (ptr % page_size ≡ 0) × (end % page_size ≡ 0) × (ptr ≤ end)
mapped_range heap segs size b t v a top p =
    let inside = split-inside heap segs (more_blocks size) b v t in
    let no_wrap : (heap.saddr + b * block_size + size) % 2 ^ 32
        ≡ heap.saddr + b * block_size + size =
      omega arith in
    let (e, l, _) =
      paging_align_address_lem ((heap.saddr + b * block_size + size) % 2 ^ 32) (omega arith) in
    (omega arith, e, omega (arith, l, no_wrap))

-- `process_malloc` up to the choice of an entry.
process_malloc-kzalloc :
    (size ptr : ℕ) (process : Process) (k k' : Kernel)
    → kzalloc size k ≡ some (ptr, k')
    → ptr ≢ 0
    → process_find_free_allocation_index process ≡ none
    → process_malloc size process k ≡ give_back ptr process k'
unfolding process_malloc Option.bind
process_malloc-kzalloc size ptr process k k' e ne full = rw (e, ==_ne ptr 0 ne, full) refl

freed_again :
    (k k' : Kernel) (segs : List Segment) (n b : ℕ) (t : Split segs (suc n) b 0)
    → IsFormed k.heap segs
    → k'.heap ≡ (allocated k.heap t).1
    → IsFormed k'.heap (t.before ++ used n ∷ t.after)
    → heap_free k'.heap (allocated k.heap t).0 ≡ some k.heap
freed_again k k' segs n b t v same w =
    subst (λ h. heap_free h (allocated k.heap t).0 ≡ some k.heap) (sym same)
      (heap_free-allocated k.heap segs n b t v
        (subst (λ h. IsFormed h (t.before ++ used n ∷ t.after)) same w))

-- Where every entry of the allocation table is in use, `process_malloc` of a request that the heap has
-- room for returns 0, leaves the table as it was, and gives the blocks back to the heap.
pub process_malloc-full :
    (size b : ℕ) (process : Process) (k : Kernel) (segs : List Segment)
    → IsFormed k.heap segs
    → 0 < k.heap.saddr
    → 0 < size
    → size ≤ max_request
    → first_fit k.heap.table.entries (suc (more_blocks size)) 0 ≡ some b
    → process_find_free_allocation_index process ≡ none
    → (k' : Kernel) × (process_malloc size process k ≡ some (0, process, k')) × (k'.heap ≡ k.heap)
unfolding give_back kfree
process_malloc-full size b process k segs v s p q fit full =
    let (t, k', run, same, w, _) = kzalloc-fits k segs size b v s p q fit in
    let freed = freed_again k k' segs (more_blocks size) b t v same w in
    (
      record k' { heap = k.heap },
      process_malloc-kzalloc size (allocated k.heap t).0 process k k' run (omega arith) full
          ∙ rw freed refl,
      refl,
    )

-- The steps of the two calls where an entry is free.
process_malloc-entry :
    (size ptr i : ℕ) (process : Process) (k k' : Kernel)
    → kzalloc size k ≡ some (ptr, k')
    → ptr ≢ 0
    → process_find_free_allocation_index process ≡ some i
    → ptr % page_size ≡ 0
    → paging_align_address ((ptr + size) % 2 ^ 32) % page_size ≡ 0
    → ptr ≤ paging_align_address ((ptr + size) % 2 ^ 32)
    → (mem : Mem) × (process_malloc size process k
        ≡ some (
          ptr,
          record process {
            allocations = set process.allocations i (record { ptr = ptr; size = size });
          },
          record k' { mem = mem },
        ))
unfolding process_malloc Option.bind
process_malloc-entry size ptr i process k k' e ne free a a' le = (
  (paging_map_to process.page_directory ptr ptr (paging_align_address ((ptr + size) % 2 ^ 32))
      map_flags k'.mem).1,
  rw
      (
        e,
        ==_ne ptr 0 ne,
        free,
        paging_map_to-succeeds process.page_directory ptr ptr
            (paging_align_address ((ptr + size) % 2 ^ 32)) map_flags k'.mem a a a' le,
      )
      refl,
)

process_free-entry :
    (process : Process) (allocation : ProcessAllocation) (k : Kernel) (h : Heap)
    → process_get_allocation_by_addr process allocation.ptr ≡ some allocation
    → allocation.ptr % page_size ≡ 0
    → paging_align_address ((allocation.ptr + allocation.size) % 2 ^ 32) % page_size ≡ 0
    → allocation.ptr ≤ paging_align_address ((allocation.ptr + allocation.size) % 2 ^ 32)
    → heap_free k.heap allocation.ptr ≡ some h
    → (mem : Mem) × (process_free process allocation.ptr k
        ≡ some (process_allocation_unjoin process allocation.ptr, record k { heap = h; mem = mem }))
unfolding process_free kfree
process_free-entry process allocation k h found a a' le freed = (
  (paging_map_to process.page_directory allocation.ptr allocation.ptr
      (paging_align_address ((allocation.ptr + allocation.size) % 2 ^ 32)) 0 k.mem).1,
  rw
      (
        found,
        process_free,
        paging_map_to-succeeds process.page_directory allocation.ptr allocation.ptr
            (paging_align_address ((allocation.ptr + allocation.size) % 2 ^ 32)) 0 k.mem a a a' le,
        freed,
      )
      refl,
)

-- Where the heap has room on pages below the top of the address space, an entry of the allocation table
-- is free, and the address that the heap hands out stands in no entry, `process_malloc` returns that
-- address; `process_free` of it then gives the blocks back to the heap and clears the entry.
pub process_free-process_malloc :
    (size b i : ℕ) (process : Process) (k : Kernel) (segs : List Segment)
    → IsFormed k.heap segs
    → 0 < k.heap.saddr
    → k.heap.saddr % page_size ≡ 0
    → k.heap.saddr + k.heap.table.total * block_size < 2 ^ 32
    → 0 < size
    → size ≤ max_request
    → first_fit k.heap.table.entries (suc (more_blocks size)) 0 ≡ some b
    → process_find_free_allocation_index process ≡ some i
    → process_get_allocation_by_addr process (k.heap.saddr + b * block_size) ≡ none
    → let ptr = k.heap.saddr + b * block_size in
      (process' : Process) × (k' : Kernel) × (k'' : Kernel) × (process_malloc size process k
        ≡ some (ptr, process', k'))
      × (process_get_allocation_by_addr process' ptr ≡ some (record { ptr = ptr; size = size }))
      × (process_free process' ptr k'
          ≡ some (record process { allocations = set process.allocations i no_allocation }, k''))
      × (k''.heap ≡ k.heap)
unfolding process_find_free_allocation_index process_get_allocation_by_addr
    process_allocation_unjoin
process_free-process_malloc size b i process k segs v s a top p q fit free fresh =
    let (t, k', run, same, w, _) = kzalloc-fits k segs size b v s p q fit in
    let (aligned, end_aligned, le) = mapped_range k.heap segs size b t v a top p in
    let ptr = k.heap.saddr + b * block_size in
    let entry : ProcessAllocation = record { ptr = ptr; size = size } in
    let (n, at, inside) = free_allocation_from-inside process.allocations 0 i free in
    let held : Process = record process { allocations = set process.allocations i entry } in
    let found = allocation_at-set process.allocations i entry (omega (arith, at, inside)) fresh in
    let (mem, got) =
      process_malloc-entry size ptr i process k k' run (omega arith) free aligned end_aligned le in
    let (mem', gone) =
      process_free-entry held entry (record k' { mem = mem }) k.heap found aligned end_aligned le
        (freed_again k k' segs (more_blocks size) b t v same w) in
    (
      held,
      record k' { mem = mem },
      record { heap = k.heap; mem = mem' },
      got,
      found,
      gone
          ∙ ap
              (λ es.
                some (record process { allocations = es }, record { heap = k.heap; mem = mem' }))
              (unjoin-set process.allocations i entry fresh),
      refl,
    )

-- `process_free` of a null pointer takes a cleared entry for its allocation and hands the null pointer
-- to the heap, which then clears entries before its table.
pub process_free-null :
    (process : Process) (k : Kernel)
    → process_get_allocation_by_addr process 0 ≡ some no_allocation
    → block_size ≤ k.heap.saddr
    → k.heap.saddr ≤ 2 ^ 31
    → process_free process 0 k ≡ none
unfolding kfree paging_align_address process_free
process_free-null process k found a b =
    rw
      (
        found,
        process_free,
        paging_map_to-succeeds process.page_directory 0 0 (paging_align_address 0) 0 k.mem refl refl
            refl (omega arith),
        heap_free-null k.heap a b,
      )
      refl
