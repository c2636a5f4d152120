-- ===== src/Kheap/Room.antt =====
-- The kernel heap as an allocator for the other components: while free blocks are left, small
-- requests succeed, and giving a block back leaves as much room as there was.
use mathlib.Core.Option.{some-injective}
use marrow_os.Base.{
  ℕ, suc, ◌+◌, ◌≤◌, ◌<◌, ◌≡◌, refl, sym, ap, subst, ◌∙◌, ◌≢◌, some, List, [], ◌∷◌, ◌++◌, arith, ltb,
  leb, ◌&&◌, if◌then◌else◌, ◌*◌,
}
use marrow_os.Allocator.{Allocator, small_request}
use marrow_os.Heap.{block_size, heap_free, heap_get_entry_type}
use marrow_os.Heap.FirstFit.{first_fit, run_free}
use marrow_os.Heap.Free.{heap_free-allocated}
use marrow_os.Heap.Malloc.{more_blocks, allocated}
use marrow_os.Heap.Segments.{Segment, gap, used, render, gaps, Split, IsFormed, first_fit-used}
use marrow_os.Kheap.Laws.{kzalloc-fits}
use marrow_os.Kheap.{Kernel, kzalloc, kfree}

abbrev pub gap_count : List Segment → ℕ
gap_count [] = 0
gap_count (gap ∷ segs) = suc (gap_count segs)
gap_count (used n ∷ segs) = gap_count segs

gap_count-append : (xs ys : List Segment) → gap_count (xs ++ ys) ≡ gap_count xs + gap_count ys
gap_count-append [] ys = omega arith
gap_count-append (gap ∷ xs) ys = omega (arith, gap_count-append xs ys)
gap_count-append (used n ∷ xs) ys = gap_count-append xs ys

-- A free block is a run of one.
pub first_fit-gap :
    (segs : List Segment) (s : ℕ)
    → 0 < gap_count segs
    → (b : ℕ) × (first_fit (render segs) 1 s ≡ some b)
unfolding first_fit run_free heap_get_entry_type
first_fit-gap [] s h = absurd (omega arith)
first_fit-gap (gap ∷ segs) s h = (s, refl)
first_fit-gap (used n ∷ segs) s h =
    let (b, e) = first_fit-gap segs (s + suc n) h in (b, first_fit-used n (render segs) 0 s ∙ e)

-- The heap is formed, does not start at address 0, and has at least `n` free blocks.
pub record Room (n : ℕ) (k : Kernel) : Type 0 where
  pub segs : List Segment
  pub formed : IsFormed k.heap segs
  pub above_zero : 0 < k.heap.saddr
  pub enough : n ≤ gap_count segs

-- What a request of at most one block gives.
record Granted (n size : ℕ) (k : Kernel) : Type 0 where
  p : ℕ
  k' : Kernel
  run : kzalloc size k ≡ some (p, k')
  nonzero : p ≢ 0
  left : Room n k'
  back : heap_free k'.heap p ≡ some k.heap

small_blocks : (size : ℕ) → 0 < size → size ≤ small_request → more_blocks size ≡ 0
small_blocks size p q = omega arith

-- A request of at most one block, where the number of blocks is written out.
pub kzalloc_small :
    (k : Kernel) (segs : List Segment) (size b : ℕ)
    → IsFormed k.heap segs
    → 0 < k.heap.saddr
    → 0 < size
    → size ≤ small_request
    → first_fit k.heap.table.entries 1 0 ≡ some b
    → (t : Split segs 1 b 0) × (k' : Kernel) × (kzalloc size k ≡ some ((allocated k.heap t).0, k'))
      × (k'.heap ≡ (allocated k.heap t).1)
      × IsFormed (allocated k.heap t).1 (t.before ++ used 0 ∷ t.after)
      × ((q' : ℕ)
          → k'.mem q' ≡ (
              if leb (k.heap.saddr + b * block_size) q'
                && ltb q' (k.heap.saddr + b * block_size + size)
              then 0
              else k.mem q'))
kzalloc_small k segs size b v s p q =
    subst
      (λ n.
        first_fit k.heap.table.entries (suc n) 0 ≡ some b
        → (t : Split segs (suc n) b 0) × (k' : Kernel) × (kzalloc size k
            ≡ some ((allocated k.heap t).0, k'))
          × (k'.heap ≡ (allocated k.heap t).1)
          × IsFormed (allocated k.heap t).1 (t.before ++ used n ∷ t.after)
          × ((q' : ℕ)
              → k'.mem q' ≡ (
                  if leb (k.heap.saddr + b * block_size) q'
                    && ltb q' (k.heap.saddr + b * block_size + size)
                  then 0
                  else k.mem q')))
      (small_blocks size p q)
      (λ h.
        let (t, k', run, same, w, clears) = kzalloc-fits k segs size b v s p (omega arith) h in
        (
          t,
          k',
          run,
          same,
          subst (λ g. IsFormed g (t.before ++ used (more_blocks size) ∷ t.after)) same w,
          clears,
        ))

pub gap_count-Split :
    (segs : List Segment) (n b : ℕ) (t : Split segs 1 b 0)
    → gap_count (t.before ++ used n ∷ t.after) + 1 ≡ gap_count segs
gap_count-Split segs n b t = omega (
  arith,
  ap gap_count t.whole,
  gap_count-append t.before (used n ∷ t.after),
  gap_count-append t.before (gaps 1 ++ t.after),
)

granting :
    (n size b : ℕ) (k k' : Kernel) (r : Room (suc n) k) (t : Split r.segs 1 b 0)
    → kzalloc size k ≡ some ((allocated k.heap t).0, k')
    → k'.heap ≡ (allocated k.heap t).1
    → IsFormed (allocated k.heap t).1 (t.before ++ used 0 ∷ t.after)
    → Granted n size k
granting n size b k k' r t run same w = record {
  p = (allocated k.heap t).0;
  k' = k';
  run = run;
  nonzero = omega (arith, r.above_zero);
  left = record {
    segs = t.before ++ used 0 ∷ t.after;
    formed = subst (λ h. IsFormed h (t.before ++ used 0 ∷ t.after)) (sym same) w;
    above_zero = subst (λ h. 0 < h.saddr) (sym same) r.above_zero;
    enough = omega (arith, r.enough, gap_count-Split r.segs 0 b t);
  };
  back = rw same (heap_free-allocated k.heap r.segs 0 b t r.formed w);
}

granted :
    (n size : ℕ) (k : Kernel) → Room (suc n) k → 0 < size → size ≤ small_request → Granted n size k
granted n size k r p q =
    let (b, e) = first_fit-gap r.segs 0 (omega (arith, r.enough)) in
    let (t, k', run, same, w, _) =
      kzalloc_small k r.segs size b r.formed r.above_zero p q (rw r.formed.entries_eq e) in
    granting n size b k k' r t run same w

pub kernel_kzalloc :
    (n size : ℕ) (k : Kernel)
    → Room (suc n) k
    → 0 < size
    → size ≤ small_request
    → (p : ℕ) × (k' : Kernel) × (kzalloc size k ≡ some (p, k')) × (p ≢ 0) × Room n k'
kernel_kzalloc n size k r p q =
    let g = granted n size k r p q in (g.p, g.k', g.run, g.nonzero, g.left)

-- What is given back leaves the heap as it was.
pub kernel_kfree-back :
    (n size p : ℕ) (k k' : Kernel)
    → Room (suc n) k
    → 0 < size
    → size ≤ small_request
    → kzalloc size k ≡ some (p, k')
    → (k'' : Kernel) × (kfree p k' ≡ some k'') × Room (suc n) k'' × (k''.heap ≡ k.heap)
unfolding kfree
kernel_kfree-back n size p k k' r a b e =
    let g = granted n size k r a b in
    let same : ◌≡◌ {A = ℕ × Kernel} (g.p, g.k') (p, k') = some-injective _ _ (sym g.run ∙ e) in
    let freed : heap_free k'.heap p ≡ some k.heap =
      subst (λ r'. heap_free r'.1.heap r'.0 ≡ some k.heap) same g.back in
    (
      record k' { heap = k.heap },
      rw freed,
      record { segs = r.segs; formed = r.formed; above_zero = r.above_zero; enough = r.enough },
      refl,
    )

pub kernel_kfree :
    (n size p : ℕ) (k k' : Kernel)
    → Room (suc n) k
    → 0 < size
    → size ≤ small_request
    → kzalloc size k ≡ some (p, k')
    → (k'' : Kernel) × (kfree p k' ≡ some k'') × Room (suc n) k''
kernel_kfree n size p k k' r a b e =
    let (k'', run, room, _) = kernel_kfree-back n size p k k' r a b e in (k'', run, room)

-- `kzalloc` and `kfree` of the kernel heap are an allocator.
abbrev pub kernel_allocator : Allocator
kernel_allocator = record {
  State = Kernel;
  kzalloc = kzalloc;
  kfree = kfree;
  Room = Room;
  room_kzalloc = kernel_kzalloc;
  room_kfree = kernel_kfree;
}
