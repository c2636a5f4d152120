-- ===== src/Process.antt =====
-- src/task/process.c: the table of processes, and the memory that a process asks for. The kernel heap
-- and the memory are the state that the calls work on; `none` is a fault.
pub mod Allocations
pub mod Table
pub mod Mapping
pub mod Arguments
use mathlib.Core.Option
use marrow_os.Base.{
  ℕ, zero, suc, ◌+◌, ◌*◌, ◌%◌, ◌^◌, Option, none, some, List, [], ◌∷◌, length, ltb, leb, not, ◌||◌,
  ◌==◌, if◌then◌else◌, get_elem?, set, get_or,
}
use marrow_os.Kheap.{Kernel, kzalloc, kfree}
use marrow_os.Paging.{Status, all_ok, einvarg, paging_map_to, paging_align_address}

abbrev pub max_processes : ℕ
max_processes = 12

-- PAGING_IS_WRITABLE | PAGING_IS_PRESENT | PAGING_ACCESS_FROM_ALL
abbrev pub map_flags : ℕ
map_flags = 0b00000111

-- `struct process_allocation`
pub record ProcessAllocation : Type 0 where
  pub ptr : ℕ
  pub size : ℕ

abbrev pub no_allocation : ProcessAllocation
no_allocation = record { ptr = 0; size = 0 }

-- What the calls below read and write of `struct process`: the array of allocations and the page
-- directory of its task.
pub record Process : Type 0 where
  pub allocations : List ProcessAllocation
  pub page_directory : ℕ

-- The loop of `process_find_free_allocation_index` from index `i` on; `none` is -ENOMEM.
unfoldable pub free_allocation_from : List ProcessAllocation → ℕ → Option ℕ
free_allocation_from [] i = none
free_allocation_from (a ∷ allocations) i =
    let rest = free_allocation_from allocations (i + 1) in if a.ptr == 0 then some i else rest

unfoldable pub process_find_free_allocation_index : Process → Option ℕ
process_find_free_allocation_index process = free_allocation_from process.allocations 0

-- The label `out_err` of `process_malloc`, for a pointer that is not null.
pub give_back : ℕ → Process → Kernel → Option (ℕ × Process × Kernel)
give_back ptr process k = Option.map (λ k'. (0, process, k')) (kfree ptr k)

pub process_malloc : ℕ → Process → Kernel → Option (ℕ × Process × Kernel)
process_malloc size process k = Option.bind (kzalloc size k) λ r.
    let (ptr, k') = r in
    if ptr == 0 then some (0, process, k') else elim (process_find_free_allocation_index process) [
      | none ↦ give_back ptr process k'
      | some index ↦
          let (res, mem) =
            paging_map_to process.page_directory ptr ptr
              (paging_align_address ((ptr + size) % 2 ^ 32)) map_flags k'.mem in
          let mapped : Kernel = record k' { mem = mem } in
          elim res [
            | einvarg ↦ give_back ptr process mapped
            | all_ok ↦ some (
              ptr,
              record process {
                allocations = set process.allocations index (record { ptr = ptr; size = size });
              },
              mapped,
            )
          ]
    ]

-- The loop of `process_allocation_unjoin`: every entry with the pointer is cleared.
unfoldable pub unjoin : ℕ → List ProcessAllocation → List ProcessAllocation
unjoin ptr [] = []
unjoin ptr (a ∷ allocations) = (if a.ptr == ptr then no_allocation else a) ∷ unjoin ptr allocations

pub process_allocation_unjoin : Process → ℕ → Process
process_allocation_unjoin process ptr = record process {
  allocations = unjoin ptr process.allocations;
}

-- The loop of `process_get_allocation_by_addr`.
unfoldable pub allocation_at : ℕ → List ProcessAllocation → Option ProcessAllocation
allocation_at addr [] = none
allocation_at addr (a ∷ allocations) =
    let rest = allocation_at addr allocations in if a.ptr == addr then some a else rest

unfoldable pub process_get_allocation_by_addr : Process → ℕ → Option ProcessAllocation
process_get_allocation_by_addr process addr = allocation_at addr process.allocations

pub process_free : Process → ℕ → Kernel → Option (Process × Kernel)
process_free process ptr k = elim (process_get_allocation_by_addr process ptr) [
  | none ↦ some (process, k)
  | some allocation ↦
      let (res, mem) =
        paging_map_to process.page_directory allocation.ptr allocation.ptr
          (paging_align_address ((allocation.ptr + allocation.size) % 2 ^ 32)) 0 k.mem in
      let unmapped : Kernel = record k { mem = mem } in
      elim res [
        | einvarg ↦ some (process, unmapped)
        | all_ok ↦
            Option.map (λ k'. (process_allocation_unjoin process ptr, k')) (kfree ptr unmapped)
      ]
]

-- The loop of `process_terminate_allocations` at index `i`, with `left` rounds to go.
pub terminate_from : ℕ → ℕ → Process → Kernel → Option (Process × Kernel)
terminate_from zero i process k = some (process, k)
terminate_from (suc left) i process k =
    let ptr = (get_or process.allocations i no_allocation).ptr in
    Option.bind (if ptr == 0 then some (process, k) else process_free process ptr k)
      λ r. terminate_from left (i + 1) r.0 r.1

pub process_terminate_allocations : Process → Kernel → Option (Process × Kernel)
process_terminate_allocations process k = terminate_from (length process.allocations) 0 process k
