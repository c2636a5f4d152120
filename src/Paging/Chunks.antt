-- ===== src/Paging/Chunks.antt =====
-- `paging_new_4gb` and `paging_free_4gb` of src/memory/paging/paging.c over the kernel heap. A store through
-- a null pointer, where the heap is full, is a fault.

pub mod Tables
pub mod Loop
pub mod Identity
use mathlib.Core.Option
use marrow_os.Base.{
  ℕ, zero, suc, ◌+◌, ◌*◌, ◌%◌, ◌^◌, bit_and, bit_or, Option, none, some, ◌==◌, if◌then◌else◌,
}
use marrow_os.Memory.{Mem}
use marrow_os.Kheap.{Kernel, kzalloc, kfree}
use marrow_os.Paging.Words.{read32, write32}
use marrow_os.Paging.{page_size, entries_per_table, table_of, paging_4gb_chunk_get_directory}

-- PAGING_IS_WRITABLE
abbrev pub is_writable : ℕ
is_writable = 0b00000010

-- The loop over the entries of a table at index `b`, with `left` rounds to go.
pub fill_entries : ℕ → ℕ → ℕ → ℕ → ℕ → Mem → Mem
fill_entries zero b entry offset flags m = m
fill_entries (suc left) b entry offset flags m =
    fill_entries left (b + 1) entry offset flags
      (write32 m (entry + 4 * b) (bit_or ((offset + b * page_size) % 2 ^ 32) flags))

-- The loop over the tables at index `i`; `offset` is the pattern of an `int`.
pub new_tables : ℕ → ℕ → ℕ → ℕ → ℕ → Kernel → Option Kernel
new_tables zero i offset directory flags k = some k
new_tables (suc left) i offset directory flags k =
    Option.bind (kzalloc (4 * entries_per_table) k) λ r.
      let (entry, k') = r in
      let filled = fill_entries entries_per_table 0 entry offset flags k'.mem in
      if entry == 0
      then none
      else new_tables left (i + 1) ((offset + entries_per_table * page_size) % 2 ^ 32) directory
          flags
          (record k' {
            mem = write32 filled (directory + 4 * i) (bit_or (bit_or entry flags) is_writable);
          })

-- The address of the new chunk.
pub paging_new_4gb : ℕ → Kernel → Option (ℕ × Kernel)
paging_new_4gb flags k = Option.bind (kzalloc (4 * entries_per_table) k) λ r.
    if r.0 == 0
    then none
    else Option.bind (new_tables entries_per_table 0 0 r.0 flags r.1) λ k'.
      Option.bind (kzalloc 4 k')
        λ c. if c.0 == 0 then none else some (c.0, record c.1 { mem = write32 c.1.mem c.0 r.0 })

-- The loop of `paging_free_4gb` at index `i`, with `left` rounds to go.
pub free_tables : ℕ → ℕ → ℕ → Kernel → Option Kernel
free_tables zero i directory k = some k
free_tables (suc left) i directory k =
    Option.bind (kfree (table_of directory i k.mem) k) (free_tables left (i + 1) directory)

pub paging_free_4gb : ℕ → Kernel → Option Kernel
paging_free_4gb chunk k =
    let directory = paging_4gb_chunk_get_directory chunk k.mem in
    if chunk == 0
    then none
    else Option.bind (free_tables entries_per_table 0 directory k)
        (λ k'. Option.bind (kfree directory k') (kfree chunk))
