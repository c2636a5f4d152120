-- ===== src/Paging/Chunks/Tables.antt =====
-- What `paging_new_4gb` writes for one table: its entries, and its own entry in the directory.
use marrow_os.Base.{
  ℕ, zero, suc, ◌+◌, ◌*◌, ◌/◌, ◌%◌, ◌^◌, ◌≤◌, ◌<◌, ◌≡◌, ◌≢◌, ◌⊎◌, refl, ap, ◌∙◌, bit_and, bit_or,
  arith, ℕ_discrete,
}
use marrow_os.Base.Bits.{bit_or_low, bit_or_fields, bit_and_page}
use marrow_os.Kheap.{Kernel}
use marrow_os.Kheap.Pages.{Page}
use marrow_os.Memory.{Mem}
use marrow_os.Paging.Chunks.{is_writable, fill_entries}
use marrow_os.Paging.Entries.{Apart}
use marrow_os.Paging.Words.{read32, write32, read32-write32, read32-write32_disjoint}
use marrow_os.Paging.{page_size, entries_per_table, table_of}

-- Words outside the entries that are filled are as before.
fill_entries-outside :
    (left b entry offset flags q : ℕ) (m : Mem)
    → ((q + 4 ≤ entry + 4 * b) ⊎ (entry + 4 * (b + left) ≤ q))
    → read32 (fill_entries left b entry offset flags m) q ≡ read32 m q
unfolding fill_entries
fill_entries-outside zero b entry offset flags q m h = refl
fill_entries-outside (suc left) b entry offset flags q m h =
    let v = bit_or ((offset + b * page_size) % 2 ^ 32) flags in
    fill_entries-outside left (b + 1) entry offset flags q (write32 m (entry + 4 * b) v)
      (omega arith)
    ∙ read32-write32_disjoint m (entry + 4 * b) v q (omega arith)

entry_value :
    (offset b flags : ℕ)
    → offset % page_size ≡ 0
    → flags < page_size
    → bit_or ((offset + b * page_size) % 2 ^ 32) flags ≡ (offset + b * page_size) % 2 ^ 32 + flags
entry_value offset b flags a f =
    let at = (offset + b * page_size) % 2 ^ 32 in
    let e : at / 4096 * 2 ^ 12 ≡ at = omega arith in
    omega (arith, bit_or_low 12 (at / 4096) flags f, ap (λ p. bit_or p flags) e)

-- Entry `c` holds the page at its place behind `offset`, with the flags.
fill_entries-entry :
    (left b entry offset flags c : ℕ) (m : Mem)
    → offset % page_size ≡ 0
    → flags < page_size
    → b ≤ c
    → c < b + left
    → read32 (fill_entries left b entry offset flags m) (entry + 4 * c)
      ≡ (offset + c * page_size) % 2 ^ 32 + flags
unfolding fill_entries
fill_entries-entry zero b entry offset flags c m a f l u = absurd (omega arith)
fill_entries-entry (suc left) b entry offset flags c m a f l u =
    let v = bit_or ((offset + b * page_size) % 2 ^ 32) flags in
    elim (ℕ_discrete c b) [
      | yes same ↦ rw same (
          fill_entries-outside left (b + 1) entry offset flags (entry + 4 * b)
            (write32 m (entry + 4 * b) v) (omega arith)
          ∙ read32-write32 m (entry + 4 * b) v (omega (arith, entry_value offset b flags a f))
          ∙ entry_value offset b flags a f)
      | no ne ↦
          fill_entries-entry left (b + 1) entry offset flags c (write32 m (entry + 4 * b) v) a f
            (omega arith) (omega arith)
    ]

-- The directory's entry for the table at a page.
directory_entry :
    (p flags : ℕ)
    → p % page_size ≡ 0
    → p + page_size ≤ 2 ^ 32
    → flags < page_size
    → let v = bit_or (bit_or p flags) is_writable in (v < 2 ^ 32) × (bit_and v 0xfffff000 ≡ p)
directory_entry p flags a h f =
    let e : p / 4096 * 2 ^ 12 ≡ p = omega arith in
    let first : bit_or p flags ≡ p / 4096 * 2 ^ 12 + flags =
      omega (arith, bit_or_low 12 (p / 4096) flags f, ap (λ x. bit_or x flags) e) in
    let (whole, small) = bit_or_fields 12 (p / 4096) flags is_writable f (omega arith) in
    rw (first, whole)
      (
        omega arith,
        bit_and_page (p / 4096) (bit_or flags is_writable) small (omega arith) ∙ omega arith,
      )

-- A word outside a page that `kzalloc` clears.
pub read32-cleared :
    {n size : ℕ} {k : Kernel} (g : Page n size k) (q : ℕ)
    → size ≤ page_size
    → ((q + 4 ≤ g.p) ⊎ (g.p + page_size ≤ q))
    → read32 g.k'.mem q ≡ read32 k.mem q
unfolding read32
read32-cleared g q h =
    ground (arith, g.cleared q, g.cleared (q + 1), g.cleared (q + 2), g.cleared (q + 3))

-- The memory after a round of the loop over the tables.
abbrev pub after_table : ℕ → ℕ → ℕ → ℕ → ℕ → Mem → Mem
after_table i offset directory flags entry m =
    write32 (fill_entries entries_per_table 0 entry offset flags m) (directory + 4 * i)
      (bit_or (bit_or entry flags) is_writable)

module _ {n : ℕ} {k : Kernel} (g : Page n 4096 k) (i offset directory flags : ℕ)
    (h : i < entries_per_table) (apart : Apart directory g.p) (aligned : g.p % page_size ≡ 0)
    (f : flags < page_size) where
  abbrev filled : Mem
  filled = after_table i offset directory flags g.p g.k'.mem

  -- Words outside the new table and its entry in the directory are as before.
  pub after_table-outside :
      (q : ℕ)
      → ((q + 4 ≤ g.p) ⊎ (g.p + page_size ≤ q))
      → ((q + 4 ≤ directory + 4 * i) ⊎ (directory + 4 * i + 4 ≤ q))
      → read32 filled q ≡ read32 k.mem q
  after_table-outside q out other =
      read32-write32_disjoint (fill_entries entries_per_table 0 g.p offset flags g.k'.mem)
        (directory + 4 * i) (bit_or (bit_or g.p flags) is_writable) q other
      ∙ fill_entries-outside entries_per_table 0 g.p offset flags q g.k'.mem (omega arith)
      ∙ read32-cleared g q (omega arith) out

  pub table_of-other :
      (j : ℕ)
      → j < entries_per_table
      → j ≢ i
      → table_of directory j filled ≡ table_of directory j k.mem
  unfolding table_of
  table_of-other j l ne =
      ap (λ w. bit_and w 0xfffff000)
        (after_table-outside (directory + 4 * j) (omega arith) (omega arith))

  pub table_of-new : table_of directory i filled ≡ g.p
  unfolding table_of
  table_of-new =
      let (small, masked) = directory_entry g.p flags aligned g.inside f in
      ap (λ w. bit_and w 0xfffff000)
        (read32-write32 (fill_entries entries_per_table 0 g.p offset flags g.k'.mem)
          (directory + 4 * i) (bit_or (bit_or g.p flags) is_writable) small)
      ∙ masked

  pub new_table-entry :
      (c : ℕ)
      → offset % page_size ≡ 0
      → c < entries_per_table
      → read32 filled (g.p + 4 * c) ≡ (offset + c * page_size) % 2 ^ 32 + flags
  new_table-entry c a l =
      read32-write32_disjoint (fill_entries entries_per_table 0 g.p offset flags g.k'.mem)
        (directory + 4 * i) (bit_or (bit_or g.p flags) is_writable) (g.p + 4 * c) (omega arith)
      ∙ fill_entries-entry entries_per_table 0 g.p offset flags c g.k'.mem a f (omega arith)
          (omega arith)
