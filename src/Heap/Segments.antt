-- ===== src/Heap/Segments.antt =====
-- A formed heap table: free blocks and whole allocations, one after another. On such a table
-- `heap_malloc` turns the first run of free blocks that is long enough into an allocation, and
-- `heap_free` turns an allocation back.
use mathlib.Core.Option
use marrow_os.Base.{
  ℕ, zero, suc, ◌+◌, ◌*◌, ◌^◌, ◌≤◌, ◌<◌, ◌≡◌, refl, sym, ap, ◌∙◌, true, false, some, List, [], ◌∷◌,
  ◌++◌, append_assoc, length, length-append, length-replicate, replicate, ◌==◌, if◌then◌else◌,
  Bool-cases, inl, inr, arith, ltb, lt→ltb, bit_or, bit_and,
}
use marrow_os.Heap.{
  Heap, block_size, heap_mark_blocks_taken, heap_mark_blocks_free, mark_taken, entry_free,
  heap_get_entry_type, entry_taken, is_first, has_next, mark_free,
}
use marrow_os.Heap.FirstFit.{first_fit, run_free, is_free}
use marrow_os.Heap.Marks.{link, header, links, length-links, mark_taken_run, mark_free_run, is_last}

-- A free block, or an allocation of `n + 1` blocks.
pub data Segment : Type 0 where
  gap : Segment
  used : ℕ → Segment

abbrev pub render : List Segment → List ℕ
render [] = []
render (gap ∷ segs) = entry_free ∷ render segs
render (used n ∷ segs) = header n ∷ (links n ++ render segs)

pub render-append : (xs ys : List Segment) → render (xs ++ ys) ≡ render xs ++ render ys
render-append [] ys = refl
render-append (gap ∷ xs) ys = ap (λ es. entry_free ∷ es) (render-append xs ys)
render-append (used n ∷ xs) ys =
    ap (λ es. header n ∷ es)
      (ap (λ es. links n ++ es) (render-append xs ys)
        ∙ sym (append_assoc (links n) (render xs) (render ys)))

pub render-gaps : (n : ℕ) → render (replicate n gap) ≡ replicate n entry_free
render-gaps zero = refl
render-gaps (suc n) = ap (λ es. entry_free ∷ es) (render-gaps n)

-- The part of a table from which a run of blocks can be taken.
pub record Split (segs : List Segment) (n b s : ℕ) : Type 0 where
  pub before : List Segment
  pub after : List Segment
  pub whole : segs ≡ before ++ (replicate n gap ++ after)
  pub at : b ≡ s + length (render before)

is_free-link : (n : ℕ) → is_free (link n) ≡ false
unfolding heap_get_entry_type
is_free-link zero = refl
is_free-link (suc n) = refl

is_free-header : (n : ℕ) → is_free (header n) ≡ false
unfolding heap_get_entry_type
is_free-header zero = refl
is_free-header (suc n) = refl

-- No run starts inside an allocation.
first_fit-links :
    (k : ℕ) (es : List ℕ) (n s : ℕ)
    → first_fit (links k ++ es) (suc n) s ≡ first_fit es (suc n) (s + k)
unfolding first_fit run_free
first_fit-links zero es n s = ap (first_fit es (suc n)) (omega arith)
first_fit-links (suc k) es n s =
    rw (is_free-link k) (first_fit-links k es n (s + 1) ∙ ap (first_fit es (suc n)) (omega arith))

pub first_fit-used :
    (k : ℕ) (es : List ℕ) (n s : ℕ)
    → first_fit (header k ∷ (links k ++ es)) (suc n) s ≡ first_fit es (suc n) (s + suc k)
unfolding first_fit run_free
first_fit-used k es n s =
    rw (is_free-header k) (first_fit-links k es n (s + 1) ∙ ap (first_fit es (suc n)) (omega arith))

-- A run of free entries is a run of gaps.
pub run_gaps :
    (segs : List Segment) (n : ℕ)
    → run_free (render segs) n ≡ true
    → (rest : List Segment) × (segs ≡ replicate n gap ++ rest)
unfolding run_free
run_gaps segs zero h = (segs, refl)
run_gaps [] (suc n) h = cc
run_gaps (gap ∷ segs) (suc n) h =
    let (rest, e) = run_gaps segs n (ground (arith, h)) in (rest, ap (λ xs. gap ∷ xs) e)
run_gaps (used k ∷ segs) (suc n) h = absurd (ground (arith, is_free-header k))

pub first_fit-Split :
    (segs : List Segment) (n b s : ℕ)
    → first_fit (render segs) (suc n) s ≡ some b
    → Split segs (suc n) b s
unfolding first_fit run_free
first_fit-Split [] n b s h = cc
first_fit-Split (gap ∷ segs) n b s h = elim (Bool-cases (run_free (render (gap ∷ segs)) (suc n))) [
  | inl fits ↦
      let (rest, e) = run_gaps (gap ∷ segs) (suc n) fits in
      record { before = []; after = rest; whole = e; at = ground arith }
  | inr past ↦
      let t : Split segs (suc n) b (s + 1) = first_fit-Split segs n b (s + 1) (ground (arith, h)) in
      record {
        before = gap ∷ t.before;
        after = t.after;
        whole = ap (λ xs. gap ∷ xs) t.whole;
        at = omega (arith, t.at);
      }
]
first_fit-Split (used k ∷ segs) n b s h =
    let t : Split segs (suc n) b (s + suc k) =
      first_fit-Split segs n b (s + suc k) (sym (first_fit-used k (render segs) n s) ∙ h) in
    record {
      before = used k ∷ t.before;
      after = t.after;
      whole = ap (λ xs. used k ∷ xs) t.whole;
      at = omega (arith, t.at, length-append (links k) (render t.before), length-links k);
    }

-- The heap with other entries.
abbrev pub with_entries : Heap → List ℕ → Heap
with_entries heap es = record heap { table = record heap.table { entries = es } }

-- The table is well formed, and its blocks lie in the 32-bit address space, in reach of an `int`.
pub record IsFormed (heap : Heap) (segs : List Segment) : Type 0 where
  pub entries_eq : heap.table.entries ≡ render segs
  pub total_eq : heap.table.total ≡ length heap.table.entries
  pub space : heap.saddr + heap.table.total * block_size ≤ 2 ^ 32
  pub reach : heap.table.total * block_size < 2 ^ 31

abbrev pub gaps : ℕ → List Segment
gaps n = replicate n gap

pub render-split :
    (pre post : List Segment) (n : ℕ)
    → render (pre ++ (gaps n ++ post)) ≡ render pre ++ (replicate n entry_free ++ render post)
render-split pre post n =
    render-append pre (gaps n ++ post)
    ∙ ap (λ es. render pre ++ es)
        (render-append (gaps n) post ∙ ap (λ es. es ++ render post) (render-gaps n))

header_ends : (n : ℕ) → (bit_and (header n) has_next == 0) ≡ is_last n
header_ends zero = refl
header_ends (suc n) = refl

first_entry :
    (n : ℕ)
    → (if ltb 1 (suc n)
        then bit_or (bit_or entry_taken is_first) has_next
        else bit_or entry_taken is_first)
      ≡ header n
first_entry zero = refl
first_entry (suc n) = rw (lt→ltb 1 (suc (suc n)) (omega arith))

mark_taken_list :
    (pre post : List Segment) (n : ℕ)
    → mark_taken
        (suc n)
        (length (render pre))
        (length (render pre) + suc n)
        (header n)
        (render (pre ++ (gaps (suc n) ++ post)))
      ≡ some (render (pre ++ used n ∷ post))
mark_taken_list pre post n =
    rw (render-split pre post (suc n), render-append pre (used n ∷ post))
      (rw (length-replicate n entry_free) at (
        mark_taken_run (replicate n entry_free) (render pre) (render post) entry_free
          (length (render pre)) (length (render pre) + suc n) (header n) refl
          (omega (arith, length-replicate n entry_free))))

mark_free_list :
    (pre post : List Segment) (n left : ℕ)
    → suc n ≤ left
    → mark_free left (length (render pre)) (render (pre ++ used n ∷ post))
      ≡ some (render (pre ++ (gaps (suc n) ++ post)))
mark_free_list pre post n left h =
    rw (render-split pre post (suc n), render-append pre (used n ∷ post))
      (mark_free_run n (render pre) (render post) (header n) (length (render pre)) left refl h
        (header_ends n))

-- Marking a run of gaps gives an allocation.
pub heap_mark_blocks_taken-gaps :
    (heap : Heap) (pre post : List Segment) (n : ℕ)
    → heap.table.entries ≡ render (pre ++ (gaps (suc n) ++ post))
    → heap_mark_blocks_taken heap (length (render pre)) (suc n)
      ≡ some (with_entries heap (render (pre ++ used n ∷ post)))
unfolding heap_mark_blocks_taken
heap_mark_blocks_taken-gaps heap pre post n e =
    rw (e, first_entry n) (ap (Option.map (with_entries heap)) (mark_taken_list pre post n))

-- Freeing an allocation gives a run of gaps.
pub heap_mark_blocks_free-used :
    (heap : Heap) (pre post : List Segment) (n : ℕ)
    → heap.table.entries ≡ render (pre ++ used n ∷ post)
    → heap.table.total ≡ length heap.table.entries
    → heap_mark_blocks_free heap (length (render pre))
      ≡ some (with_entries heap (render (pre ++ (gaps (suc n) ++ post))))
unfolding heap_mark_blocks_free
heap_mark_blocks_free-used heap pre post n e t = rw e (
    ap (Option.map (with_entries heap)) (
      mark_free_list pre post n _ (
        omega (
          arith,
          ap length e,
          ap length (render-append pre (used n ∷ post)),
          length-append (render pre) (render (used n ∷ post)),
          length-append (links n) (render post),
          length-links n,
        ))))
