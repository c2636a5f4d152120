-- ===== src/Paging/Entries.antt =====
-- `paging_set` and `paging_get` on a directory whose tables do not overlap.
use marrow_os.Base.{
  ℕ, ◌+◌, ◌*◌, ◌/◌, ◌%◌, ◌^◌, ◌≤◌, ◌<◌, ◌≡◌, refl, sym, ap, ◌∙◌, ◌≢◌, ◌⊎◌, arith, bit_and,
  ℕ_discrete,
}
use marrow_os.Memory.{Mem}
use marrow_os.Paging.Words.{read32, write32, read32-write32, read32-write32_disjoint}
use marrow_os.Paging.{
  page_size, entries_per_table, all_ok, einvarg, paging_is_aligned, paging_get_indexes, table_of,
  paging_set, paging_get,
}

-- Two ranges of one page each have no byte in common.
abbrev pub Apart : ℕ → ℕ → Type 0
Apart a b = (a + page_size ≤ b) ⊎ (b + page_size ≤ a)

-- The 1024 tables of the directory lie apart from it and from one another.
pub record IsDirectory (directory : ℕ) (m : Mem) : Type 0 where
  pub tables_apart :
      (i j : ℕ)
      → i < entries_per_table
      → j < entries_per_table
      → i ≢ j
      → Apart (table_of directory i m) (table_of directory j m)
  pub directory_apart : (i : ℕ) → i < entries_per_table → Apart directory (table_of directory i m)

abbrev pub directory_index : ℕ → ℕ
directory_index virt = virt / (entries_per_table * page_size)

abbrev pub table_index : ℕ → ℕ
table_index virt = virt % (entries_per_table * page_size) / page_size

-- Where the entry of a page is kept.
abbrev pub slot : ℕ → ℕ → Mem → ℕ
slot directory virt m = table_of directory (directory_index virt) m + 4 * table_index virt

-- An address of a page of the 32-bit space.
abbrev pub IsPage : ℕ → Type 0
IsPage virt = (virt % page_size ≡ 0) × (virt < 2 ^ 32)

pub paging_set-slot :
    (directory virt val : ℕ) (m : Mem)
    → virt % page_size ≡ 0
    → paging_set directory virt val m ≡ (all_ok, write32 m (slot directory virt m) val)
unfolding paging_set paging_get_indexes paging_is_aligned
paging_set-slot directory virt val m h = ground arith

pub paging_get-slot :
    (directory virt : ℕ) (m : Mem)
    → virt % page_size ≡ 0
    → paging_get directory virt m ≡ read32 m (slot directory virt m)
unfolding paging_get paging_get_indexes paging_is_aligned
paging_get-slot directory virt m h = ground arith

-- A misaligned address is refused and writes nothing.
pub paging_set-misaligned :
    (directory virt val : ℕ) (m : Mem)
    → virt % page_size ≢ 0
    → paging_set directory virt val m ≡ (einvarg, m)
unfolding paging_set paging_is_aligned
paging_set-misaligned directory virt val m h = ground arith

module _ (directory virt val : ℕ) (m : Mem) (d : IsDirectory directory m) (page : IsPage virt) where
  -- The write leaves every table where it was.
  pub table_of-set :
      (i : ℕ)
      → i < entries_per_table
      → table_of directory i (write32 m (slot directory virt m) val) ≡ table_of directory i m
  unfolding table_of
  table_of-set i h =
      ap (λ w. bit_and w 0xfffff000)
        (read32-write32_disjoint m (slot directory virt m) val (directory + 4 * i)
          (omega (arith, d.directory_apart (directory_index virt) (omega arith))))

  set-IsDirectory : IsDirectory directory (write32 m (slot directory virt m) val)
  set-IsDirectory = record {
    tables_apart =
        λ i j hi hj ne. rw (table_of-set i hi, table_of-set j hj) (d.tables_apart i j hi hj ne);
    directory_apart = λ i hi. rw (table_of-set i hi) (d.directory_apart i hi);
  }

  slot-set :
      (other : ℕ)
      → IsPage other
      → slot directory other (write32 m (slot directory virt m) val) ≡ slot directory other m
  slot-set other q =
      ap (λ t. t + 4 * table_index other) (table_of-set (directory_index other) (omega arith))

  slots_apart :
      (other : ℕ)
      → IsPage other
      → other ≢ virt
      → (slot directory other m + 4 ≤ slot directory virt m)
        ⊎ (slot directory virt m + 4 ≤ slot directory other m)
  slots_apart other q ne = elim (ℕ_discrete (directory_index other) (directory_index virt)) [
    | yes e ↦ omega (arith, ap (λ i. table_of directory i m) e)
    | no differ ↦ omega (
      arith,
      d.tables_apart (directory_index other) (directory_index virt) (omega arith) (omega arith)
          differ,
    )
  ]

-- On a directory whose tables do not overlap, `paging_set` at a page succeeds, `paging_get` then
-- returns the value there and what it did before at every other page, and the tables stay apart.
pub paging_get-paging_set :
    (directory virt val : ℕ) (m : Mem)
    → IsDirectory directory m
    → IsPage virt
    → val < 2 ^ 32
    → let (res, m') = paging_set directory virt val m in
      (res ≡ all_ok)
      × (paging_get directory virt m' ≡ val)
      × ((other : ℕ)
          → IsPage other
          → other ≢ virt
          → paging_get directory other m' ≡ paging_get directory other m)
      × IsDirectory directory m'
paging_get-paging_set directory virt val m d page small =
    rw (paging_set-slot directory virt val m page.0) (
      refl,
      paging_get-slot directory virt _ page.0
          ∙ ap (read32 (write32 m (slot directory virt m) val))
              (slot-set directory virt val m d page virt page)
          ∙ read32-write32 m (slot directory virt m) val small,
      λ other q ne.
          paging_get-slot directory other _ q.0
          ∙ ap (read32 (write32 m (slot directory virt m) val))
              (slot-set directory virt val m d page other q)
          ∙ read32-write32_disjoint m (slot directory virt m) val (slot directory other m)
              (slots_apart directory virt val m d page other q ne)
          ∙ sym (paging_get-slot directory other m q.0),
      set-IsDirectory directory virt val m d page,
    )
