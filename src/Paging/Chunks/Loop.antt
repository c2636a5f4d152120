-- ===== src/Paging/Chunks/Loop.antt =====
-- The loop of `paging_new_4gb` over the tables: each gets a page of its own, with its pages in order.
use mathlib.Core.Option
use marrow_os.Base.{
  ℕ, zero, suc, ◌+◌, ◌*◌, ◌%◌, ◌^◌, ◌<◌, ◌≡◌, ◌≢◌, ◌⊎◌, inl, inr, refl, sym, ap, subst, ◌∙◌, some,
  arith, ==_ne,
}
use marrow_os.Kheap.{Kernel}
use marrow_os.Kheap.Room.{Room}
use marrow_os.Kheap.Pages.{Held, Page, kzalloc-Page, Room-le}
use marrow_os.Memory.{Mem}
use marrow_os.Paging.Chunks.{new_tables}
use marrow_os.Paging.Chunks.Tables.{
  after_table, after_table-outside, table_of-other, table_of-new, new_table-entry,
}
use marrow_os.Paging.Entries.{Apart}
use marrow_os.Paging.Words.{read32}
use marrow_os.Paging.{page_size, entries_per_table, table_of}

-- The bytes that a table maps.
abbrev pub table_span : ℕ
table_span = entries_per_table * page_size

-- The first `i` tables stand in pages of their own, and their entries are the pages in order.
pub record Built (i directory flags : ℕ) (k : Kernel) : Type 0 where
  pub held : (j : ℕ) → j < i → Held k (table_of directory j k.mem)
  pub directory_apart : (j : ℕ) → j < i → Apart directory (table_of directory j k.mem)
  pub apart :
      (j l : ℕ)
      → j < i
      → l < i
      → j ≢ l
      → Apart (table_of directory j k.mem) (table_of directory l k.mem)
  pub entries :
      (j c : ℕ)
      → j < i
      → c < entries_per_table
      → read32 k.mem (table_of directory j k.mem + 4 * c) ≡ j * table_span + c * page_size + flags

pub Room-in : {n : ℕ} {k : Kernel} {m : Mem} → Room n k → Room n (record k { mem = m })
Room-in r = record {
  segs = r.segs;
  formed = r.formed;
  above_zero = r.above_zero;
  enough = r.enough;
}

-- What is held does not depend on the memory.
pub Held-in : {k : Kernel} {p : ℕ} {m : Mem} → Held k p → Held (record k { mem = m }) p
Held-in h = record { block = h.block; at = h.at; taken = h.taken }

module _ {n : ℕ} {k : Kernel} (g : Page n 4096 k) (i directory flags : ℕ)
    (h : i < entries_per_table) (d : Held k directory) (aligned : k.heap.saddr % page_size ≡ 0)
    (f : flags < page_size) (built : Built i directory flags k) where
  abbrev next : Kernel
  next = record g.k' { mem = after_table i (i * table_span) directory flags g.p g.k'.mem }

  new-Apart : Apart directory g.p
  new-Apart = omega (arith, g.apart directory d)

  new_aligned : g.p % page_size ≡ 0
  new_aligned = omega (arith, g.held.at, g.start)

  table_old : (j : ℕ) → j < i → table_of directory j next.mem ≡ table_of directory j k.mem
  table_old j l =
      table_of-other g i (i * table_span) directory flags h new-Apart new_aligned f j (omega arith)
        (omega arith)

  table_new : table_of directory i next.mem ≡ g.p
  table_new = table_of-new g i (i * table_span) directory flags h new-Apart new_aligned f

  -- A table is an old one or the new one.
  which : (j : ℕ) → j < suc i → (j < i) ⊎ (j ≡ i)
  which j l = omega arith

  old-Apart_new : (j : ℕ) → j < i → Apart (table_of directory j k.mem) g.p
  old-Apart_new j l = omega (arith, g.apart (table_of directory j k.mem) (built.held j l))

  next-Held : (j : ℕ) → j < suc i → Held next (table_of directory j next.mem)
  next-Held j l = elim (which j l) [
    | inl old ↦ rw (table_old j old) (Held-in (g.keeps _ (built.held j old)))
    | inr new ↦ rw (new, table_new) (Held-in g.held)
  ]

  next-directory-Apart : (j : ℕ) → j < suc i → Apart directory (table_of directory j next.mem)
  next-directory-Apart j l = elim (which j l) [
    | inl old ↦ rw (table_old j old) (built.directory_apart j old)
    | inr new ↦ rw (new, table_new) new-Apart
  ]

  next-entries :
      (j c : ℕ)
      → j < suc i
      → c < entries_per_table
      → read32 next.mem (table_of directory j next.mem + 4 * c)
        ≡ j * table_span + c * page_size + flags
  next-entries j c l m = elim (which j l) [
    | inl old ↦ rw (table_old j old) (
        after_table-outside g i (i * table_span) directory flags h new-Apart new_aligned f
          (table_of directory j k.mem + 4 * c) (omega (arith, old-Apart_new j old))
          (omega (arith, built.directory_apart j old))
        ∙ built.entries j c old m)
    | inr new ↦
        rw (new, table_new)
          (new_table-entry g i (i * table_span) directory flags h new-Apart new_aligned f c
              (omega arith) m
            ∙ omega arith)
  ]

  next-Apart :
      (j l : ℕ)
      → j < suc i
      → l < suc i
      → j ≢ l
      → Apart (table_of directory j next.mem) (table_of directory l next.mem)
  next-Apart j l p q ne = elim (which j p) [
    | inl old ↦ elim (which l q) [
      | inl old' ↦ rw (table_old j old, table_old l old') (built.apart j l old old' ne)
      | inr new' ↦ rw (new', table_old j old, table_new) (old-Apart_new j old)
    ]
    | inr new ↦ elim (which l q) [
      | inl old' ↦ rw (new, table_old l old', table_new) (omega (arith, old-Apart_new l old'))
      | inr new' ↦ absurd (ne (new ∙ sym new'))
    ]
  ]

  next-Built : Built (suc i) directory flags next
  next-Built = record {
    held = next-Held;
    directory_apart = next-directory-Apart;
    apart = next-Apart;
    entries = next-entries;
  }

  new_tables-step :
      (left : ℕ)
      → new_tables (suc left) i (i * table_span) directory flags k
        ≡ new_tables left (i + 1) ((i * table_span + table_span) % 2 ^ 32) directory flags next
  unfolding new_tables Option.bind
  new_tables-step left = rw (g.run, ==_ne g.p 0 (omega (arith, g.above_zero))) refl

-- What the loop over the tables leaves, with room for `spare` more requests.
pub record Tabled (directory flags spare saddr : ℕ) (k : Kernel) : Type 0 where
  pub built : Built entries_per_table directory flags k
  pub room : Room spare k
  pub directory_held : Held k directory
  pub start : k.heap.saddr ≡ saddr

pub new_tables-Tabled :
    (left spare i offset directory flags : ℕ) (k : Kernel)
    → i + left ≡ entries_per_table
    → offset ≡ i * table_span % 2 ^ 32
    → Room (left + spare) k
    → Held k directory
    → k.heap.saddr % page_size ≡ 0
    → flags < page_size
    → Built i directory flags k
    → (k' : Kernel) × (new_tables left i offset directory flags k ≡ some k')
      × Tabled directory flags spare k.heap.saddr k'
unfolding new_tables Option.bind
new_tables-Tabled zero spare i offset directory flags k e o r d a f built = (
  k,
  refl,
  record {
    built = subst (λ j. Built j directory flags k) (omega arith) built;
    room = Room-le spare r (omega arith);
    directory_held = d;
    start = refl;
  },
)
new_tables-Tabled (suc left) spare i offset directory flags k e o r d a f built =
    let g : Page (left + spare) 4096 k =
      kzalloc-Page (left + spare) 4096 k (Room-le (suc (left + spare)) r (omega arith))
        (omega arith) (omega arith) in
    let at : offset ≡ i * table_span = omega arith in
    let h : i < entries_per_table = omega arith in
    let (k', run, t) =
      new_tables-Tabled left spare (i + 1) ((i * table_span + table_span) % 2 ^ 32) directory flags
        (next g i directory flags h d a f built) (omega arith) (omega arith) (Room-in g.left)
        (Held-in (g.keeps directory d)) (omega (arith, g.start)) f
        (subst (λ j. Built j directory flags (next g i directory flags h d a f built)) (omega arith)
          (next-Built g i directory flags h d a f built)) in
    (
      k',
      ap (λ o'. new_tables (suc left) i o' directory flags k) at
          ∙ new_tables-step g i directory flags h d a f built left
          ∙ run,
      subst (λ x. Tabled directory flags spare x k') g.start t,
    )

pub Built-nil : (directory flags : ℕ) (k : Kernel) → Built 0 directory flags k
Built-nil directory flags k = record {
  held = λ j h. absurd (omega arith);
  directory_apart = λ j h. absurd (omega arith);
  apart = λ j l h. absurd (omega arith);
  entries = λ j c h. absurd (omega arith);
}
