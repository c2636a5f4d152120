-- ===== src/Kheap/Pages.antt =====
-- The pages that `kzalloc` hands out: none of them is handed out twice.
use marrow_os.Base.{
  ℕ, zero, suc, ◌+◌, ◌*◌, ◌^◌, ◌≤◌, ◌<◌, ◌≡◌, ◌≢◌, ◌⊎◌, refl, sym, ap, ◌∙◌, some, List, [], ◌∷◌,
  ◌++◌, length, get_or, ltb, leb, ◌&&◌, if◌then◌else◌, arith,
}
use marrow_os.Allocator.{small_request}
use marrow_os.Heap.{block_size}
use marrow_os.Heap.Segments.{Segment, used, render, render-append, render-split, Split, IsFormed}
use marrow_os.Heap.Malloc.{allocated, split-inside}
use marrow_os.Kheap.Room.{Room, first_fit-gap, kzalloc_small, gap_count-Split}
use marrow_os.Kheap.{Kernel, kzalloc}

-- A block of the heap starts at `p`, and is taken.
pub record Held (k : Kernel) (p : ℕ) : Type 0 where
  pub block : ℕ
  pub at : p ≡ k.heap.saddr + block * block_size
  pub taken : get_or k.heap.table.entries block 0 ≢ 0

-- What a request of at most one block gives.
pub record Page (n size : ℕ) (k : Kernel) : Type 0 where
  pub p : ℕ
  pub k' : Kernel
  pub run : kzalloc size k ≡ some (p, k')
  pub left : Room n k'
  pub above_zero : 0 < p
  pub inside : p + block_size ≤ 2 ^ 32
  pub start : k'.heap.saddr ≡ k.heap.saddr
  pub held : Held k' p
  pub keeps : (q : ℕ) → Held k q → Held k' q
  pub apart : (q : ℕ) → Held k q → (p + block_size ≤ q) ⊎ (q + block_size ≤ p)
  pub cleared : (q : ℕ) → k'.mem q ≡ (if leb p q && ltb q (p + size) then 0 else k.mem q)

-- The entry between two parts of a table.
module _ (xs ys : List ℕ) (y y' : ℕ) where
  get_or-at : get_or (xs ++ y ∷ ys) (length xs) 0 ≡ y
  get_or-at = at xs
    where
      at : (zs : List ℕ) → get_or (zs ++ y ∷ ys) (length zs) 0 ≡ y
      at [] = refl
      at (z ∷ zs) = at zs

  get_or-beside :
      (zs : List ℕ) (j : ℕ) → j ≢ length zs → get_or (zs ++ y ∷ ys) j 0 ≡ get_or (zs ++ y' ∷ ys) j 0
  get_or-beside [] zero ne = absurd (ne refl)
  get_or-beside [] (suc j) ne = refl
  get_or-beside (z ∷ zs) zero ne = refl
  get_or-beside (z ∷ zs) (suc j) ne = get_or-beside zs j (λ e. ne (ap suc e))

-- The table before and after a block is taken.
module _ {segs : List Segment} {b : ℕ} (t : Split segs 1 b 0) where
  entries_before : render segs ≡ render t.before ++ 0 ∷ render t.after
  entries_before = ap render t.whole ∙ render-split t.before t.after 1

  entries_after : render (t.before ++ used 0 ∷ t.after) ≡ render t.before ++ 0x41 ∷ render t.after
  entries_after = render-append t.before (used 0 ∷ t.after)

  at_block : b ≡ length (render t.before)
  at_block = omega (arith, t.at)

  free_before : get_or (render segs) b 0 ≡ 0
  free_before = rw (entries_before, at_block) (get_or-at (render t.before) (render t.after) 0 0)

  taken_after : get_or (render (t.before ++ used 0 ∷ t.after)) b 0 ≡ 0x41
  taken_after = rw (entries_after, at_block) (get_or-at (render t.before) (render t.after) 0x41 0)

  others_after :
      (j : ℕ)
      → j ≢ b
      → get_or (render (t.before ++ used 0 ∷ t.after)) j 0 ≡ get_or (render segs) j 0
  others_after j ne =
      rw (entries_after, entries_before)
        (get_or-beside (render t.before) (render t.after) 0x41 0 (render t.before) j
          (λ e. ne (e ∙ sym at_block)))

apart_at :
    (saddr b q c : ℕ)
    → q ≡ saddr + c * block_size
    → c ≢ b
    → (saddr + b * block_size + block_size ≤ q) ⊎ (q + block_size ≤ saddr + b * block_size)
apart_at saddr b q c e ne = omega arith

module _ {n b : ℕ} {k : Kernel} (r : Room (suc n) k) (t : Split r.segs 1 b 0) where
  free_block : get_or k.heap.table.entries b 0 ≡ 0
  free_block = rw r.formed.entries_eq (free_before t)

  fresh : (q : ℕ) (h : Held k q) → h.block ≢ b
  fresh q h e = h.taken (rw e free_block)

module _ {n b : ℕ} {k k' : Kernel} (r : Room (suc n) k) (t : Split r.segs 1 b 0)
    (same : k'.heap ≡ (allocated k.heap t).1)
    (w : IsFormed (allocated k.heap t).1 (t.before ++ used 0 ∷ t.after)) where
  Held-new : Held k' (k.heap.saddr + b * block_size)
  Held-new = record { block = b; at = rw same refl; taken = rw (same, taken_after t) (omega arith) }

  Held-old : (q : ℕ) → Held k q → Held k' q
  Held-old q h = record {
    block = h.block;
    at = rw same h.at;
    taken = rw (same, others_after t h.block (fresh r t q h), ← r.formed.entries_eq) h.taken;
  }

  pub Room-left : Room n k'
  Room-left = record {
    segs = t.before ++ used 0 ∷ t.after;
    formed = rw same w;
    above_zero = rw same r.above_zero;
    enough = omega (arith, r.enough, gap_count-Split r.segs 0 b t);
  }

  Page-at :
      (size : ℕ)
      → kzalloc size k ≡ some ((allocated k.heap t).0, k')
      → ((q : ℕ)
          → k'.mem q ≡ (
              if leb (k.heap.saddr + b * block_size) q
                && ltb q (k.heap.saddr + b * block_size + size)
              then 0
              else k.mem q))
      → Page n size k
  Page-at size run cleared = record {
    p = k.heap.saddr + b * block_size;
    k' = k';
    run = run;
    left = Room-left;
    above_zero = omega (arith, r.above_zero);
    inside = omega (arith, r.formed.space, split-inside k.heap r.segs 0 b r.formed t);
    start = rw same refl;
    held = Held-new;
    keeps = Held-old;
    apart = λ q h. apart_at k.heap.saddr b q h.block h.at (fresh r t q h);
    cleared = cleared;
  }

-- A request of at most one block is met with a page that was not handed out before, and clears it.
pub kzalloc-Page :
    (n size : ℕ) (k : Kernel) → Room (suc n) k → 0 < size → size ≤ small_request → Page n size k
kzalloc-Page n size k r p q =
    let (b, e) = first_fit-gap r.segs 0 (omega (arith, r.enough)) in
    let (t, k', run, same, w, clears) =
      kzalloc_small k r.segs size b r.formed r.above_zero p q (rw r.formed.entries_eq e) in
    Page-at r t same w size run clears

-- Less room is there too.
pub Room-le : {n : ℕ} (m : ℕ) {k : Kernel} → Room n k → m ≤ n → Room m k
Room-le m r h = record {
  segs = r.segs;
  formed = r.formed;
  above_zero = r.above_zero;
  enough = omega (arith, r.enough);
}
