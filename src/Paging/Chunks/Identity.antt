-- ===== src/Paging/Chunks/Identity.antt =====
-- The chunk that `paging_new_4gb` makes maps every address to itself.
use mathlib.Core.Option
use marrow_os.Base.{
  ℕ, suc, ◌+◌, ◌-◌, ◌*◌, ◌/◌, ◌%◌, ◌^◌, ◌≤◌, ◌<◌, ◌≡◌, ◌≢◌, ◌⊎◌, refl, ap, ◌∙◌, bit_and, some,
  arith, ==_ne,
}
use marrow_os.Base.Bits.{bit_and_page}
use marrow_os.Kheap.{Kernel}
use marrow_os.Kheap.Room.{Room}
use marrow_os.Kheap.Pages.{Page, kzalloc-Page, Room-le}
use marrow_os.Memory.{Mem}
use marrow_os.Paging.Chunks.{paging_new_4gb}
use marrow_os.Paging.Chunks.Tables.{read32-cleared}
use marrow_os.Paging.Chunks.Loop.{Built-nil, Tabled, new_tables-Tabled, Room-in}
use marrow_os.Paging.Entries.{Apart, IsPage, directory_index, table_index, paging_get-slot}
use marrow_os.Paging.Ranges.{IsChunk}
use marrow_os.Paging.Words.{read32, write32, read32-write32, read32-write32_disjoint}
use marrow_os.Paging.{
  page_size, entries_per_table, table_of, paging_get, paging_get_physical_address,
  paging_align_to_lower_page, paging_4gb_chunk_get_directory,
}

-- A chunk whose tables do not overlap and which maps each page to itself with the flags.
pub record IsIdentity (chunk directory flags : ℕ) (m : Mem) : Type 0 where
  pub chunk_some : chunk ≢ 0
  pub formed : IsChunk chunk directory m
  pub entries : (virt : ℕ) → IsPage virt → paging_get directory virt m ≡ virt + flags

module _ {spare saddr : ℕ} {k : Kernel} (directory flags : ℕ)
    (t : Tabled directory flags (suc spare) saddr k) (g : Page spare 4 k)
    (small : directory < 2 ^ 32) where
  abbrev finished : Mem
  finished = write32 g.k'.mem g.p directory

  finished-other :
      (q : ℕ) → ((q + 4 ≤ g.p) ⊎ (g.p + page_size ≤ q)) → read32 finished q ≡ read32 k.mem q
  finished-other q out =
      read32-write32_disjoint g.k'.mem g.p directory q (omega arith)
      ∙ read32-cleared g q (omega arith) out

  finished-table :
      (i : ℕ) → i < entries_per_table → table_of directory i finished ≡ table_of directory i k.mem
  unfolding table_of
  finished-table i h =
      ap (λ w. bit_and w 0xfffff000)
        (finished-other (directory + 4 * i) (omega (arith, g.apart directory t.directory_held)))

  table-Apart_chunk : (i : ℕ) → i < entries_per_table → Apart (table_of directory i k.mem) g.p
  table-Apart_chunk i h = omega (arith, g.apart _ (t.built.held i h))

  finished-IsChunk : IsChunk g.p directory finished
  unfolding paging_4gb_chunk_get_directory
  finished-IsChunk = record {
    points = read32-write32 g.k'.mem g.p directory small;
    formed = record {
      tables_apart =
          λ i j h l ne. rw (finished-table i h, finished-table j l) (t.built.apart i j h l ne);
      directory_apart = λ i h. rw (finished-table i h) (t.built.directory_apart i h);
    };
    chunk_apart = λ i h. rw (finished-table i h) (omega (arith, table-Apart_chunk i h));
  }

  finished-entry : (virt : ℕ) → IsPage virt → paging_get directory virt finished ≡ virt + flags
  finished-entry virt page =
      let i = directory_index virt in
      let c = table_index virt in
      let l : i < entries_per_table = omega arith in
      paging_get-slot directory virt finished page.0
      ∙ ap (λ x. read32 finished (x + 4 * c)) (finished-table i l)
      ∙ finished-other (table_of directory i k.mem + 4 * c) (omega (arith, table-Apart_chunk i l))
      ∙ t.built.entries i c l (omega arith)
      ∙ omega arith

  finished-IsIdentity : IsIdentity g.p directory flags finished
  finished-IsIdentity = record {
    chunk_some = omega (arith, g.above_zero);
    formed = finished-IsChunk;
    entries = finished-entry;
  }

-- An address translates to itself through such a chunk.
translate-IsIdentity :
    (chunk directory flags addr : ℕ) (m : Mem)
    → IsIdentity chunk directory flags m
    → flags < page_size
    → addr < 2 ^ 32
    → paging_get_physical_address directory addr m ≡ addr
unfolding paging_get_physical_address paging_align_to_lower_page
translate-IsIdentity chunk directory flags addr m d f h = omega (
  arith,
  ap (λ w. bit_and w 0xfffff000) (d.entries (addr - addr % page_size) (omega arith, omega arith)),
  ap (λ w. bit_and w 0xfffff000) {x = addr - addr % page_size + flags}
      {y = addr / 4096 * 4096 + flags} (omega arith),
  bit_and_page (addr / 4096) flags f (omega arith),
)

-- Where a formed heap of aligned pages has 1026 free blocks and more, paging_new_4gb returns a
-- chunk whose tables do not overlap, every address translates to itself through it, each page's
-- entry has the flags, and the other free blocks are left.
pub paging_new_4gb-IsIdentity :
    (flags spare : ℕ) (k : Kernel)
    → Room (1026 + spare) k
    → k.heap.saddr % page_size ≡ 0
    → flags < page_size
    → (chunk directory : ℕ) × (k' : Kernel) × (paging_new_4gb flags k ≡ some (chunk, k'))
      × IsIdentity chunk directory flags k'.mem
      × ((addr : ℕ) → addr < 2 ^ 32 → paging_get_physical_address directory addr k'.mem ≡ addr)
      × Room spare k'
unfolding paging_new_4gb Option.bind
paging_new_4gb-IsIdentity flags spare k r a f =
    let g : Page (1025 + spare) 4096 k =
      kzalloc-Page (1025 + spare) 4096 k (Room-le (suc (1025 + spare)) r (omega arith))
        (omega arith) (omega arith) in
    let (k1, run, t) =
      new_tables-Tabled 1024 (suc spare) 0 0 g.p flags g.k' (omega arith) (omega arith)
        (Room-le (1024 + suc spare) g.left (omega arith)) g.held (omega (arith, g.start)) f
        (Built-nil g.p flags g.k') in
    let c : Page spare 4 k1 = kzalloc-Page spare 4 k1 t.room (omega arith) (omega arith) in
    let identity = finished-IsIdentity g.p flags t c (omega (arith, g.inside)) in
    (
      c.p,
      g.p,
      record c.k' { mem = finished g.p flags t c (omega (arith, g.inside)) },
      rw
          (
            g.run,
            ==_ne g.p 0 (omega (arith, g.above_zero)),
            run,
            c.run,
            ==_ne c.p 0 (omega (arith, c.above_zero)),
          )
          refl,
      identity,
      λ addr h. translate-IsIdentity c.p g.p flags addr _ identity f h,
      Room-in c.left,
    )
