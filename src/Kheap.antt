-- ===== src/Kheap.antt =====
-- src/memory/heap/kheap.c: the kernel's one heap, and the memory that `kzalloc` clears.
pub mod Laws
pub mod Low
pub mod Room
pub mod Pages
use mathlib.Core.Option
use marrow_os.Base.{ℕ, ◌+◌, ◌/◌, Option, none, some, List, ◌==◌, if◌then◌else◌}
use marrow_os.Heap.{Heap, HeapTable, Status, block_size, heap_create, heap_malloc, heap_free}
use marrow_os.Memory.{Mem, memset}

abbrev pub heap_size_bytes : ℕ
heap_size_bytes = 104857600

abbrev pub heap_address : ℕ
heap_address = 0x01000000

-- `kernel_heap` with its table, and the memory. The table's entries at 0x7E00 are kept in the heap.
pub record Kernel : Type 0 where
  pub heap : Heap
  pub mem : Mem

-- `entries` is what stands at HEAP_TABLE_ADDRESS before the call.
pub kheap_init : Kernel → List ℕ → Option (Status × Kernel)
kheap_init k entries =
    let table : HeapTable = record { entries = entries; total = heap_size_bytes / block_size } in
    Option.map (λ r. (r.0, record k { heap = r.1 }))
      (heap_create k.heap heap_address (heap_address + heap_size_bytes) table)

unfoldable pub kmalloc : ℕ → Kernel → Option (ℕ × Kernel)
kmalloc size k = Option.map (λ r. (r.0, record k { heap = r.1 })) (heap_malloc k.heap size)

unfoldable pub kzalloc : ℕ → Kernel → Option (ℕ × Kernel)
kzalloc size k = Option.bind (kmalloc size k) λ r.
    let k' : Kernel = r.1 in
    if r.0 == 0 then some (0, k') else some (r.0, record k' { mem = memset r.0 0 size k'.mem })

unfoldable pub kfree : ℕ → Kernel → Option Kernel
kfree ptr k = Option.map (λ h. record k { heap = h }) (heap_free k.heap ptr)
