-- ===== src/Heap/Overrun.antt =====
-- The request that `heap_get_start_block` answers with a run of free blocks that is too short.
use mathlib.Core.Option
use marrow_os.Base.{
  ℕ, zero, suc, ◌+◌, ◌≤◌, ◌<◌, ◌^◌, ◌≡◌, refl, ap, ◌∙◌, true, none, some, List, [], ◌∷◌, length,
  store, store-past, Bool-cases, inl, inr, arith, Option-cases,
}
use marrow_os.Heap.{
  Heap, heap_malloc, heap_free, heap_address_to_block, block_size, heap_malloc_blocks,
  heap_mark_blocks_taken, mark_taken,
}
use marrow_os.Heap.FirstFit.{
  first_fit, last_run, run_free, all_free, fit_or_tail, heap_get_start_block_lem,
}
use marrow_os.Heap.Segments.{Segment, IsFormed}
use marrow_os.Heap.Malloc.{max_request, more_blocks, blocks_of_request, heap_malloc_blocks-start}

length-store : (es es' : List ℕ) (i v : ℕ) → store es i v ≡ some es' → length es' ≡ length es
length-store [] es' i v h = cc
length-store (e ∷ es) es' zero v h = ground arith
length-store (e ∷ es) es' (suc i) v h = elim (Option-cases (store es i v)) [
  | inl out ↦ cc
  | inr (es'', e') ↦ ground (arith, length-store es es'' i v e')
]

-- Marking a run that ends behind the table writes outside it.
mark_taken-past :
    (left i end e : ℕ) (es : List ℕ)
    → length es < i + left
    → 0 < left
    → mark_taken left i end e es ≡ none
unfolding mark_taken Option.bind
mark_taken-past zero i end e es h l = absurd (omega arith)
mark_taken-past (suc zero) i end e es h l = rw (store-past es i e (omega arith))
mark_taken-past (suc (suc left)) i end e es h l = elim (Option-cases (store es i e)) [
  | inl out ↦ rw out
  | inr (es', e') ↦ rw e' (
      mark_taken-past (suc left) (i + 1) end _ es' (omega (arith, length-store es es' i e e'))
        (omega arith))
]

run_free-all : (es : List ℕ) (n : ℕ) → all_free es ≡ true → n ≤ length es → run_free es n ≡ true
unfolding all_free run_free
run_free-all es zero a h = refl
run_free-all [] (suc n) a h = absurd (omega arith)
run_free-all (e ∷ es) (suc n) a h = ground (arith, run_free-all es n)

-- If no run of `n` fits, the free blocks at the end are fewer than `n`.
last_run-short :
    (es : List ℕ) (n s b : ℕ)
    → first_fit es n s ≡ none
    → last_run es s ≡ some b
    → s + length es < b + n
unfolding first_fit last_run
last_run-short [] n s b f l = cc
last_run-short (e ∷ es) n s b f l = elim (Bool-cases (all_free (e ∷ es))) [
  | inl a ↦ ground (arith, run_free-all (e ∷ es) n a)
  | inr a ↦ ground (arith, last_run-short es n (s + 1) b)
]

-- Where a formed table has no run of free blocks long enough but its last block is free,
-- `heap_malloc` marks blocks behind the end of the table.
pub heap_malloc-overruns :
    (heap : Heap) (segs : List Segment) (size b : ℕ)
    → IsFormed heap segs
    → 0 < size
    → size ≤ max_request
    → first_fit heap.table.entries (suc (more_blocks size)) 0 ≡ none
    → last_run heap.table.entries 0 ≡ some b
    → heap_malloc heap size ≡ none
unfolding heap_malloc heap_mark_blocks_taken fit_or_tail
heap_malloc-overruns heap segs size b v p q f l =
    let n = suc (more_blocks size) in
    ap (heap_malloc_blocks heap) (blocks_of_request size p q)
    ∙ heap_malloc_blocks-start heap n b
        (heap_get_start_block_lem heap n v.total_eq (omega arith) ∙ rw (f, l))
    ∙ rw (
        mark_taken-past n b (b + n) _ heap.table.entries
          (omega (arith, last_run-short heap.table.entries n 0 b f l)) (omega arith))

-- A null pointer lies before the heap, so releasing it clears entries before the table.
pub heap_free-null :
    (heap : Heap) → block_size ≤ heap.saddr → heap.saddr ≤ 2 ^ 31 → heap_free heap 0 ≡ none
unfolding heap_free heap_address_to_block Option.bind
heap_free-null heap a b = ground arith
