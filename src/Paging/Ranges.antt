-- ===== src/Paging/Ranges.antt =====
-- `paging_map`, `paging_map_range` and `paging_map_to`: the translation that they set up.
use marrow_os.Base.{
  ℕ, zero, suc, ◌+◌, ◌-◌, ◌*◌, ◌/◌, ◌%◌, ◌^◌, ◌≤◌, ◌<◌, ◌≡◌, refl, ap, ◌∙◌, ◌⊎◌, inl, inr, arith,
  dec_lt, bit_or, ℕ_discrete,
}
use marrow_os.Base.Bits.{bit_or_low}
use marrow_os.Memory.{Mem}
use marrow_os.Paging.Words.{read32-write32_disjoint}
use marrow_os.Paging.Entries.{
  IsDirectory, IsPage, slot, directory_index, paging_set-slot, paging_get-paging_set, table_of-set,
}
use marrow_os.Paging.{
  page_size, entries_per_table, all_ok, table_of, paging_set, paging_get, paging_map,
  paging_map_range, paging_4gb_chunk_get_directory,
}

-- `chunk` points at a directory whose tables do not overlap, nor the chunk itself.
pub record IsChunk (chunk directory : ℕ) (m : Mem) : Type 0 where
  pub points : paging_4gb_chunk_get_directory chunk m ≡ directory
  pub formed : IsDirectory directory m
  pub chunk_apart :
      (i : ℕ)
      → i < entries_per_table
      → (chunk + 4 ≤ table_of directory i m) ⊎ (table_of directory i m + page_size ≤ chunk)

entry_value :
    (phys flags : ℕ) → phys % page_size ≡ 0 → flags < page_size → bit_or phys flags ≡ phys + flags
entry_value phys flags a f =
    let e : phys / 4096 * 2 ^ 12 ≡ phys = omega arith in
    omega (arith, bit_or_low 12 (phys / 4096) flags f, ap (λ p. bit_or p flags) e)

chunk-set :
    (chunk directory virt val : ℕ) (m : Mem)
    → IsChunk chunk directory m
    → IsPage virt
    → paging_4gb_chunk_get_directory chunk (paging_set directory virt val m).1 ≡ directory
unfolding paging_4gb_chunk_get_directory
chunk-set chunk directory virt val m c page = rw (paging_set-slot directory virt val m page.0) (
    read32-write32_disjoint m (slot directory virt m) val chunk
      (omega (arith, c.chunk_apart (directory_index virt) (omega arith)))
    ∙ c.points)

-- The pages from `virt` on are mapped to those from `phys` on, all others as before.
pub record Mapped (directory virt phys count flags : ℕ) (m m' : Mem) : Type 0 where
  pub mapped :
      (i : ℕ)
      → i < count
      → paging_get directory (virt + i * page_size) m' ≡ phys + i * page_size + flags
  pub others :
      (other : ℕ)
      → IsPage other
      → ((other < virt) ⊎ (virt + count * page_size ≤ other))
      → paging_get directory other m' ≡ paging_get directory other m

IsChunk-moved :
    (chunk directory virt val : ℕ) (m : Mem)
    → IsChunk chunk directory m
    → IsPage virt
    → val < 2 ^ 32
    → IsChunk chunk directory (paging_set directory virt val m).1
IsChunk-moved chunk directory virt val m c page small = record {
  points = chunk-set chunk directory virt val m c page;
  formed = (paging_get-paging_set directory virt val m c.formed page small).3;
  chunk_apart = λ i h.
      rw (paging_set-slot directory virt val m page.0)
        (rw (table_of-set directory virt val m c.formed page i h) (c.chunk_apart i h));
}

paging_map-eq :
    (chunk directory virt phys flags : ℕ) (m : Mem)
    → IsChunk chunk directory m
    → virt % page_size ≡ 0
    → phys % page_size ≡ 0
    → flags < page_size
    → paging_map chunk virt phys flags m ≡ paging_set directory virt (phys + flags) m
unfolding paging_map
paging_map-eq chunk directory virt phys flags m c a b f =
    rw (a, b) (rw (c.points, entry_value phys flags b f))

-- `paging_map` at a page enters the frame and the flags there, and changes no other page.
pub paging_map-Mapped :
    (chunk directory virt phys flags : ℕ) (m : Mem)
    → IsChunk chunk directory m
    → IsPage virt
    → IsPage phys
    → flags < page_size
    → let (res, m') = paging_map chunk virt phys flags m in
      (res ≡ all_ok) × Mapped directory virt phys 1 flags m m' × IsChunk chunk directory m'
paging_map-Mapped chunk directory virt phys flags m c p q f =
    let small : phys + flags < 2 ^ 32 = omega arith in
    let (done, got, kept, formed) =
      paging_get-paging_set directory virt (phys + flags) m c.formed p small in
    rw (paging_map-eq chunk directory virt phys flags m c p.0 q.0 f) (
      done,
      record {
        mapped = λ i h.
            ap (λ k. paging_get directory k (paging_set directory virt (phys + flags) m).1)
              {x = virt + i * page_size} {y = virt} (omega arith)
            ∙ got
            ∙ omega arith;
        others = λ other o away. kept other o (omega arith);
      },
      IsChunk-moved chunk directory virt (phys + flags) m c p small,
    )

apart_of_next :
    (virt count other : ℕ)
    → IsPage other
    → virt % page_size ≡ 0
    → virt + suc count * page_size ≤ 2 ^ 32
    → ((other ≤ virt) ⊎ (virt + suc count * page_size ≤ other))
    → (other < (virt + page_size) % 2 ^ 32)
      ⊎ ((virt + page_size) % 2 ^ 32 + count * page_size ≤ other)
apart_of_next virt count other o a v away = elim (dec_lt (virt + page_size) (2 ^ 32)) [
  | yes room ↦ elim away [ inl below ↦ inl (omega arith) | inr above ↦ inr (omega arith) ]
  | no wraps ↦ inr (omega arith)
]

Mapped-cons :
    (directory virt phys count flags : ℕ) (m m1 m2 : Mem)
    → virt % page_size ≡ 0
    → virt + suc count * page_size ≤ 2 ^ 32
    → phys + suc count * page_size ≤ 2 ^ 32
    → Mapped directory virt phys 1 flags m m1
    → Mapped directory ((virt + page_size) % 2 ^ 32) ((phys + page_size) % 2 ^ 32) count flags m1 m2
    → Mapped directory virt phys (suc count) flags m m2
Mapped-cons directory virt phys count flags m m1 m2 a v p one rest = record {
  mapped = λ i h. elim (ℕ_discrete i 0) [
    | yes z ↦
        rest.others (virt + i * page_size) (omega arith)
          (apart_of_next virt count (virt + i * page_size) (omega arith) a v (inl (omega arith)))
        ∙ one.mapped i (omega arith)
    | no s ↦
        ap (λ k. paging_get directory k m2) {x = virt + i * page_size}
          {y = (virt + page_size) % 2 ^ 32 + (i - 1) * page_size} (omega arith)
        ∙ rest.mapped (i - 1) (omega arith)
        ∙ omega arith
  ];
  others = λ other o away.
      rest.others other o (apart_of_next virt count other o a v (omega arith))
      ∙ one.others other o (omega arith);
}

range_step :
    (chunk virt phys count flags : ℕ) (m : Mem)
    → (paging_map chunk virt phys flags m).0 ≡ all_ok
    → paging_map_range chunk virt phys (suc count) flags m
      ≡ paging_map_range chunk
          ((virt + page_size) % 2 ^ 32)
          ((phys + page_size) % 2 ^ 32)
          count
          flags
          (paging_map chunk virt phys flags m).1
unfolding paging_map_range
range_step chunk virt phys count flags m e = rw (e, paging_map_range)

-- On a chunk whose tables do not overlap, `paging_map_range` over pages inside the address space
-- succeeds, maps each of the `count` pages to its frame with the flags, and changes no other page.
pub paging_map_range-Mapped :
    (count chunk directory virt phys flags : ℕ) (m : Mem)
    → IsChunk chunk directory m
    → virt % page_size ≡ 0
    → phys % page_size ≡ 0
    → virt + count * page_size ≤ 2 ^ 32
    → phys + count * page_size ≤ 2 ^ 32
    → flags < page_size
    → let (res, m') = paging_map_range chunk virt phys count flags m in
      (res ≡ all_ok) × Mapped directory virt phys count flags m m' × IsChunk chunk directory m'
paging_map_range-Mapped zero chunk directory virt phys flags m c a b v p f =
    unfold paging_map_range in
    (refl, record { mapped = λ i h. absurd (omega arith); others = λ other o away. refl }, c)
paging_map_range-Mapped (suc count) chunk directory virt phys flags m c a b v p f =
    let virt' = (virt + page_size) % 2 ^ 32 in
    let phys' = (phys + page_size) % 2 ^ 32 in
    let (ok1, one, c1) =
      paging_map-Mapped chunk directory virt phys flags m c (omega arith) (omega arith) f in
    let (ok2, rest, c2) =
      paging_map_range-Mapped count chunk directory virt' phys' flags
        (paging_map chunk virt phys flags m).1 c1 (omega arith) (omega arith) (omega arith)
        (omega arith) f in
    rw (range_step chunk virt phys count flags m ok1)
      (ok2, Mapped-cons directory virt phys count flags m _ _ a v p one rest, c2)
