-- ===== src/Heap/Free.antt =====
-- `heap_free` of src/memory/heap/heap.c, and that it undoes `heap_malloc`.
use mathlib.Core.Option
use marrow_os.Base.{
  ℕ, suc, ◌+◌, ◌-◌, ◌*◌, ◌%◌, ◌^◌, ◌≤◌, ◌<◌, ◌≡◌, sym, ap, ◌∙◌, some, true, List, ◌∷◌, ◌++◌, length,
  length-append, arith, ltb, lt→ltb,
}
use marrow_os.Heap.{Heap, block_size, heap_malloc, heap_free, heap_address_to_block}
use marrow_os.Heap.FirstFit.{first_fit}
use marrow_os.Heap.Segments.{
  Segment, used, render, render-append, gaps, Split, IsFormed, with_entries,
  heap_mark_blocks_free-used,
}
use marrow_os.Heap.Malloc.{
  with_entries-IsFormed, length-used, max_request, more_blocks, allocated, heap_malloc-fits,
}

-- The block of the address that `heap_malloc` returns for it.
block_of_address :
    {heap : Heap} {segs : List Segment} (b : ℕ)
    → IsFormed heap segs
    → b < heap.table.total
    → heap_address_to_block heap (heap.saddr + b * block_size) ≡ some b
unfolding heap_address_to_block
block_of_address {heap} b v h =
    let offset : (heap.saddr + b * block_size + 2 ^ 32 - heap.saddr) % 2 ^ 32 ≡ b * block_size =
      omega (arith, v.reach, h) in
    let small : ltb (b * block_size) (2 ^ 31) ≡ true = lt→ltb _ _ (omega (arith, v.reach, h)) in
    rw (offset, small) (ap some (omega arith))

-- `heap_free` at the address of an allocation's first block gives all its blocks back, leaves
-- every other block as it was, and keeps the table formed.
pub heap_free-used :
    (heap : Heap) (before after : List Segment) (n : ℕ)
    → IsFormed heap (before ++ used n ∷ after)
    → let freed = before ++ (gaps (suc n) ++ after) in
      (heap_free heap (heap.saddr + length (render before) * block_size)
        ≡ some (with_entries heap (render freed)))
      × IsFormed (with_entries heap (render freed)) freed
unfolding heap_free Option.bind
heap_free-used heap before after n v = (
  rw (block_of_address (length (render before)) v inside)
      (heap_mark_blocks_free-used heap before after n v.entries_eq v.total_eq),
  with_entries-IsFormed (before ++ (gaps (suc n) ++ after)) v (sym (length-used n before after)),
)
  where
    inside : length (render before) < heap.table.total
    inside = omega (
      arith,
      v.total_eq,
      ap length v.entries_eq,
      ap length (render-append before (used n ∷ after)),
      length-append (render before) (render (used n ∷ after)),
    )

-- Freeing the allocation made at a run of gaps gives the heap before it.
pub heap_free-allocated :
    (heap : Heap) (segs : List Segment) (n b : ℕ) (t : Split segs (suc n) b 0)
    → IsFormed heap segs
    → IsFormed (allocated heap t).1 (t.before ++ used n ∷ t.after)
    → heap_free (allocated heap t).1 (allocated heap t).0 ≡ some heap
heap_free-allocated heap segs n b t v w =
    ap (λ k. heap_free (allocated heap t).1 (heap.saddr + k * block_size)) (omega (arith, t.at))
    ∙ (heap_free-used (allocated heap t).1 t.before t.after n w).0
    ∙ ap (λ es. some (with_entries heap es)) (ap render (sym t.whole) ∙ sym v.entries_eq)

-- `heap_free` of what `heap_malloc` returned gives back the heap before the allocation.
pub heap_free-heap_malloc :
    (heap : Heap) (segs : List Segment) (size b : ℕ)
    → IsFormed heap segs
    → 0 < size
    → size ≤ max_request
    → first_fit heap.table.entries (suc (more_blocks size)) 0 ≡ some b
    → Option.bind (heap_malloc heap size) (λ r. heap_free r.1 r.0) ≡ some heap
unfolding Option.bind
heap_free-heap_malloc heap segs size b v p q h =
    let (t, e, w) = heap_malloc-fits heap segs size b v p q h in
    rw e (heap_free-allocated heap segs (more_blocks size) b t v w)
