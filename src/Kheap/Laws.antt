-- ===== src/Kheap/Laws.antt =====
-- What `kheap_init`, `kzalloc` and `kfree` of src/memory/heap/kheap.c do.
use mathlib.Core.Option
use marrow_os.Base.{
  ℕ, suc, ◌+◌, ◌*◌, ◌≤◌, ◌<◌, ◌≡◌, refl, some, List, ◌++◌, ◌∷◌, length, arith, ==_ne, if◌then◌else◌,
  ltb, leb, ◌&&◌,
}
use marrow_os.Heap.{all_ok, block_size}
use marrow_os.Heap.Create.{heap_create-IsFormed}
use marrow_os.Heap.FirstFit.{first_fit}
use marrow_os.Heap.Segments.{Segment, used, gaps, Split, IsFormed}
use marrow_os.Heap.Malloc.{max_request, more_blocks, allocated, split-inside, heap_malloc-fits}
use marrow_os.Memory.{memset}
use marrow_os.Memory.Laws.{memset-get}
use marrow_os.Kheap.{Kernel, heap_address, kheap_init, kmalloc, kzalloc}

-- `kheap_init` succeeds on the 25600 entries that it is configured for, and leaves a formed heap
-- at HEAP_ADDRESS with every block free.
pub kheap_init-IsFormed :
    (k : Kernel) (entries : List ℕ)
    → length entries ≡ 25600
    → (k' : Kernel) × (kheap_init k entries ≡ some (all_ok, k'))
      × (k'.heap.saddr ≡ heap_address)
      × IsFormed k'.heap (gaps 25600)
      × (k'.mem ≡ k.mem)
unfolding kheap_init
kheap_init-IsFormed k entries l =
    let (h, run, at, v) =
      heap_create-IsFormed k.heap heap_address 25600 (record { entries = entries; total = 25600 })
        refl (omega arith) (omega arith) refl l in
    (record k { heap = h }, rw run, at, v, refl)

-- Where `heap_malloc` finds room above address 0, `kzalloc` returns the same address and heap, the heap
-- stays formed, and
-- the `size` bytes from there on read 0 while all others are as before.
pub kzalloc-fits :
    (k : Kernel) (segs : List Segment) (size b : ℕ)
    → IsFormed k.heap segs
    → 0 < k.heap.saddr
    → 0 < size
    → size ≤ max_request
    → first_fit k.heap.table.entries (suc (more_blocks size)) 0 ≡ some b
    → (t : Split segs (suc (more_blocks size)) b 0) × (k' : Kernel) × (kzalloc size k
        ≡ some ((allocated k.heap t).0, k'))
      × (k'.heap ≡ (allocated k.heap t).1)
      × IsFormed k'.heap (t.before ++ used (more_blocks size) ∷ t.after)
      × ((q : ℕ)
          → k'.mem q ≡ (
              if leb (k.heap.saddr + b * block_size) q
                && ltb q (k.heap.saddr + b * block_size + size)
              then 0
              else k.mem q))
unfolding kzalloc kmalloc Option.bind
kzalloc-fits k segs size b v s p q h =
    let (t, e, w) = heap_malloc-fits k.heap segs size b v p q h in
    (
      t,
      record { heap = (allocated k.heap t).1; mem = memset (allocated k.heap t).0 0 size k.mem },
      rw (e, ==_ne (k.heap.saddr + b * block_size) 0 (omega arith)),
      refl,
      w,
      λ q'.
          memset-get _ 0 size k.mem q'
            (omega (arith, v.space, split-inside k.heap segs (more_blocks size) b v t)),
    )
