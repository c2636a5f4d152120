-- ===== src/Heap/Malloc.antt =====
-- `heap_malloc` and `heap_free` of src/memory/heap/heap.c on a formed table.
use mathlib.Core.Option
use marrow_os.Base.{
  ℕ, suc, ◌+◌, ◌-◌, ◌*◌, ◌/◌, ◌^◌, ◌≤◌, ◌<◌, ◌≡◌, refl, sym, ap, ◌∙◌, none, some, List, ◌∷◌, ◌++◌,
  length, length-append, length-replicate, replicate, arith,
}
use marrow_os.Heap.{
  Heap, block_size, heap_malloc, heap_malloc_blocks, heap_mark_blocks_taken, heap_block_to_address,
  heap_align_value_to_upper, heap_get_start_block, entry_free,
}
use marrow_os.Heap.FirstFit.{first_fit, last_run, fit_or_tail, heap_get_start_block_lem}
use marrow_os.Heap.Marks.{length-links, links}
use marrow_os.Heap.Segments.{
  Segment, used, render, render-append, gaps, Split, first_fit-Split, IsFormed, with_entries,
  heap_mark_blocks_taken-gaps, render-split,
}

-- A request of `size` bytes, from 1 up, takes one block more than this.
abbrev pub more_blocks : ℕ → ℕ
more_blocks size = (size - 1) / block_size

-- The largest request that does not wrap when it is rounded up.
abbrev pub max_request : ℕ
max_request = 2 ^ 32 - block_size

pub blocks_of_request :
    (size : ℕ)
    → 0 < size
    → size ≤ max_request
    → heap_align_value_to_upper size / block_size ≡ suc (more_blocks size)
unfolding heap_align_value_to_upper
blocks_of_request size p h = ground arith

-- An allocation has the length of the gaps that it replaces.
pub length-used :
    (n : ℕ) (pre post : List Segment)
    → length (render (pre ++ used n ∷ post)) ≡ length (render (pre ++ (gaps (suc n) ++ post)))
length-used n pre post = omega (
  arith,
  ap length (render-append pre (used n ∷ post)),
  ap length (render-split pre post (suc n)),
  length-append (render pre) (render (used n ∷ post)),
  length-append (links n) (render post),
  length-links n,
  length-append (render pre) (replicate (suc n) entry_free ++ render post),
  length-append (replicate n entry_free) (render post),
  length-replicate n entry_free,
)

pub with_entries-IsFormed :
    {heap : Heap} {segs : List Segment} (segs' : List Segment)
    → IsFormed heap segs
    → length (render segs') ≡ length (render segs)
    → IsFormed (with_entries heap (render segs')) segs'
with_entries-IsFormed segs' v e = record {
  entries_eq = refl;
  total_eq = omega (arith, v.total_eq, ap length v.entries_eq);
  space = v.space;
  reach = v.reach;
}

pub heap_malloc_blocks-start :
    (heap : Heap) (n b : ℕ)
    → heap_get_start_block heap n ≡ some (some b)
    → heap_malloc_blocks heap n
      ≡ Option.map (λ h. (heap_block_to_address heap b, h)) (heap_mark_blocks_taken heap b n)
unfolding heap_malloc_blocks Option.bind
heap_malloc_blocks-start heap n b h = rw h

-- The address of a block of the table does not wrap.
address_of_block :
    {heap : Heap} {segs : List Segment} (b : ℕ)
    → IsFormed heap segs
    → b < heap.table.total
    → heap_block_to_address heap b ≡ heap.saddr + b * block_size
unfolding heap_block_to_address
address_of_block b v h = omega (arith, v.space, h)

-- The heap and the address that `heap_malloc` gives, at the run of gaps that `t` splits off.
abbrev pub allocated :
    (heap : Heap) {segs : List Segment} {n b : ℕ} → Split segs (suc n) b 0 → ℕ × Heap
allocated heap {segs} {n} {b} t =
    (heap.saddr + b * block_size, with_entries heap (render (t.before ++ used n ∷ t.after)))

module _ (heap : Heap) (segs : List Segment) (n b : ℕ) (v : IsFormed heap segs)
    (t : Split segs (suc n) b 0) where
  pub split-inside : b + suc n ≤ heap.table.total
  split-inside = omega (
    arith,
    v.total_eq,
    ap length v.entries_eq,
    ap (λ xs. length (render xs)) t.whole,
    ap length (render-split t.before t.after (suc n)),
    length-append (render t.before) (replicate (suc n) entry_free ++ render t.after),
    length-append (replicate n entry_free) (render t.after),
    length-replicate n entry_free,
    t.at,
  )

  split-marked :
      heap_mark_blocks_taken heap b (suc n)
      ≡ some (with_entries heap (render (t.before ++ used n ∷ t.after)))
  split-marked =
      let at' : b ≡ length (render t.before) = omega (arith, t.at) in
      ap (λ k. heap_mark_blocks_taken heap k (suc n)) at'
      ∙ heap_mark_blocks_taken-gaps heap t.before t.after n (v.entries_eq ∙ ap render t.whole)

  split-malloc :
      heap_get_start_block heap (suc n) ≡ some (some b)
      → heap_malloc_blocks heap (suc n) ≡ some (allocated heap t)
  split-malloc h =
      heap_malloc_blocks-start heap (suc n) b h
      ∙ rw split-marked (rw (address_of_block b v (omega (arith, split-inside))))

-- Where that many blocks of a formed table are free in a row, `heap_malloc` takes the first such
-- run, returns the address of its first block, and marks exactly that run as one allocation.
pub heap_malloc-fits :
    (heap : Heap) (segs : List Segment) (size b : ℕ)
    → IsFormed heap segs
    → 0 < size
    → size ≤ max_request
    → first_fit heap.table.entries (suc (more_blocks size)) 0 ≡ some b
    → (t : Split segs (suc (more_blocks size)) b 0) × (heap_malloc heap size
        ≡ some (allocated heap t))
      × IsFormed (allocated heap t).1 (t.before ++ used (more_blocks size) ∷ t.after)
unfolding heap_malloc fit_or_tail
heap_malloc-fits heap segs size b v p q h =
    let n = more_blocks size in
    let t : Split segs (suc n) b 0 = first_fit-Split segs n b 0 (rw (← v.entries_eq) h) in
    (
      t,
      ap (heap_malloc_blocks heap) (blocks_of_request size p q)
          ∙ split-malloc heap segs n b v t
              (heap_get_start_block_lem heap (suc n) v.total_eq (omega arith) ∙ rw h),
      with_entries-IsFormed (t.before ++ used n ∷ t.after) v
          (length-used n t.before t.after ∙ ap (λ xs. length (render xs)) (sym t.whole)),
    )

-- Where the table has no such run and its last block is taken, `heap_malloc` returns 0 and leaves
-- the heap as it was.
pub heap_malloc-full :
    (heap : Heap) (segs : List Segment) (size : ℕ)
    → IsFormed heap segs
    → 0 < size
    → size ≤ max_request
    → first_fit heap.table.entries (suc (more_blocks size)) 0 ≡ none
    → last_run heap.table.entries 0 ≡ none
    → heap_malloc heap size ≡ some (0, heap)
unfolding heap_malloc heap_malloc_blocks fit_or_tail Option.bind
heap_malloc-full heap segs size v p q h l =
    ap (heap_malloc_blocks heap) (blocks_of_request size p q)
    ∙ rw (heap_get_start_block_lem heap (suc (more_blocks size)) v.total_eq (omega arith), h, l)
