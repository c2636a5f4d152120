-- ===== src/Kheap/Low.antt =====
-- The kernel heap where it ends below 2 ^ 31: its addresses are no error codes.
use mathlib.Core.Option.{some-injective}
use marrow_os.Allocator.{Allocator, small_request}
use marrow_os.Base.{ℕ, suc, ◌+◌, ◌*◌, ◌^◌, ◌≤◌, ◌<◌, ◌≡◌, ◌≢◌, sym, subst, ◌∙◌, some, arith}
use marrow_os.Heap.{block_size}
use marrow_os.Heap.Malloc.{allocated, split-inside}
use marrow_os.Kheap.Pages.{Room-left}
use marrow_os.Kheap.Room.{Room, first_fit-gap, kzalloc_small, kernel_kfree-back}
use marrow_os.Kheap.{Kernel, kzalloc, kfree}

-- The heap has room, and ends below 2 ^ 31.
abbrev pub LowRoom : ℕ → Kernel → Type 0
LowRoom n k = Room n k × (k.heap.saddr + k.heap.table.total * block_size ≤ 2 ^ 31)

record LowBlock (n size : ℕ) (k : Kernel) : Type 0 where
  p : ℕ
  k' : Kernel
  run : kzalloc size k ≡ some (p, k')
  above_zero : p ≢ 0
  below : p < 2 ^ 31
  left : LowRoom n k'

low_block :
    (n size : ℕ) (k : Kernel)
    → LowRoom (suc n) k
    → 0 < size
    → size ≤ small_request
    → LowBlock n size k
low_block n size k r p q =
    let room = r.0 in
    let (b, e) = first_fit-gap room.segs 0 (omega (arith, room.enough)) in
    let (t, k', run, same, w, _) =
      kzalloc_small k room.segs size b room.formed room.above_zero p q
        (rw room.formed.entries_eq e) in
    record {
      p = (allocated k.heap t).0;
      k' = k';
      run = run;
      above_zero = omega (arith, room.above_zero);
      below = omega (arith, r.1, split-inside k.heap room.segs 0 b room.formed t);
      left = (Room-left room t same w, rw same r.1);
    }

pub low_kzalloc :
    (n size : ℕ) (k : Kernel)
    → LowRoom (suc n) k
    → 0 < size
    → size ≤ small_request
    → (p : ℕ) × (k' : Kernel) × (kzalloc size k ≡ some (p, k')) × (p ≢ 0) × LowRoom n k'
low_kzalloc n size k r p q =
    let g = low_block n size k r p q in (g.p, g.k', g.run, g.above_zero, g.left)

pub low_kfree :
    (n size p : ℕ) (k k' : Kernel)
    → LowRoom (suc n) k
    → 0 < size
    → size ≤ small_request
    → kzalloc size k ≡ some (p, k')
    → (k'' : Kernel) × (kfree p k' ≡ some k'') × LowRoom (suc n) k''
low_kfree n size p k k' r a b e =
    let (k'', run, room, same) = kernel_kfree-back n size p k k' r.0 a b e in
    (k'', run, (room, rw same r.1))

-- `kzalloc` and `kfree` of such a heap are an allocator.
abbrev pub low_allocator : Allocator
low_allocator = record {
  State = Kernel;
  kzalloc = kzalloc;
  kfree = kfree;
  Room = LowRoom;
  room_kzalloc = low_kzalloc;
  room_kfree = low_kfree;
}

pub kzalloc-low :
    (n size p : ℕ) (k k' : Kernel)
    → LowRoom (suc n) k
    → 0 < size
    → size ≤ small_request
    → kzalloc size k ≡ some (p, k')
    → p < 2 ^ 31
kzalloc-low n size p k k' r a b e =
    let g = low_block n size k r a b in
    let same : ◌≡◌ {A = ℕ × Kernel} (g.p, g.k') (p, k') = some-injective _ _ (sym g.run ∙ e) in
    subst (λ r'. r'.0 < 2 ^ 31) same g.below
