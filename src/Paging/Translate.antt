-- ===== src/Paging/Translate.antt =====
-- `paging_map_to`, and `paging_get_physical_address` through the mapping that it made.
use marrow_os.Base.{
  ℕ, ◌+◌, ◌-◌, ◌*◌, ◌/◌, ◌%◌, ◌^◌, ◌≤◌, ◌<◌, ◌≡◌, ap, ◌≢◌, ◌⊎◌, arith, bit_and, ltb_le,
}
use marrow_os.Base.Bits.{bit_and_page}
use marrow_os.Memory.{Mem}
use marrow_os.Paging.Ranges.{IsChunk, Mapped, paging_map_range-Mapped}
use marrow_os.Paging.{
  page_size, all_ok, einvarg, paging_get, paging_map_to, paging_map_range,
  paging_get_physical_address, paging_align_to_lower_page,
}

paging_map_to-range :
    (chunk virt phys phys_end flags : ℕ) (m : Mem)
    → virt % page_size ≡ 0
    → phys % page_size ≡ 0
    → phys_end % page_size ≡ 0
    → phys ≤ phys_end
    → paging_map_to chunk virt phys phys_end flags m
      ≡ paging_map_range chunk virt phys ((phys_end - phys) / page_size) flags m
unfolding paging_map_to
paging_map_to-range chunk virt phys phys_end flags m a b c le =
    rw (a, b, c, ltb_le phys_end phys le)

-- `paging_map_to` refuses a misaligned address and an end below its start, and writes nothing.
pub paging_map_to-refuses :
    (chunk virt phys phys_end flags : ℕ) (m : Mem)
    → ((virt % page_size ≢ 0)
        ⊎ (phys % page_size ≢ 0)
        ⊎ (phys_end % page_size ≢ 0)
        ⊎ (phys_end < phys))
    → paging_map_to chunk virt phys phys_end flags m ≡ (einvarg, m)
unfolding paging_map_to
paging_map_to-refuses chunk virt phys phys_end flags m h = ground arith

-- An address in a mapped page translates to the byte at the same offset of its frame.
translate-Mapped :
    (directory virt phys count flags k : ℕ) (m m' : Mem)
    → Mapped directory virt phys count flags m m'
    → virt % page_size ≡ 0
    → phys % page_size ≡ 0
    → phys + count * page_size ≤ 2 ^ 32
    → flags < page_size
    → k < count * page_size
    → paging_get_physical_address directory (virt + k) m' ≡ phys + k
unfolding paging_get_physical_address paging_align_to_lower_page
translate-Mapped directory virt phys count flags k m m' d a b p f h = omega (
  arith,
  ap (λ v. bit_and (paging_get directory v m') 0xfffff000) {x = virt + k - (virt + k) % page_size}
      {y = virt + k / page_size * page_size} (omega arith),
  ap (λ w. bit_and w 0xfffff000) (d.mapped (k / page_size) (omega arith)),
  ap (λ w. bit_and w 0xfffff000) {x = phys + k / page_size * page_size + flags}
      {y = (phys / 4096 + k / 4096) * 4096 + flags} (omega arith),
  bit_and_page (phys / 4096 + k / 4096) flags f (omega arith),
)

-- `paging_map_to` over aligned addresses succeeds, and after it every address in the mapped range
-- translates to the physical byte at the same distance, while the pages outside keep their entries.
pub paging_map_to-translates :
    (chunk directory virt phys phys_end flags : ℕ) (m : Mem)
    → IsChunk chunk directory m
    → virt % page_size ≡ 0
    → phys % page_size ≡ 0
    → phys_end % page_size ≡ 0
    → phys ≤ phys_end
    → phys_end < 2 ^ 32
    → virt + (phys_end - phys) ≤ 2 ^ 32
    → flags < page_size
    → let (res, m') = paging_map_to chunk virt phys phys_end flags m in
      (res ≡ all_ok)
      × ((k : ℕ)
          → k < phys_end - phys
          → paging_get_physical_address directory (virt + k) m' ≡ phys + k)
      × Mapped directory virt phys ((phys_end - phys) / page_size) flags m m'
      × IsChunk chunk directory m'
paging_map_to-translates chunk directory virt phys phys_end flags m c a b e le top room f =
    let n = (phys_end - phys) / page_size in
    let (done, mapped, kept) =
      paging_map_range-Mapped n chunk directory virt phys flags m c a b (omega arith) (omega arith)
        f in
    rw (paging_map_to-range chunk virt phys phys_end flags m a b e le) (
      done,
      λ k h.
          translate-Mapped directory virt phys n flags k m _ mapped a b (omega arith) f
            (omega arith),
      mapped,
      kept,
    )

-- An address whose page keeps its entry translates as before.
pub same_entry-translates :
    (directory virt : ℕ) (m m' : Mem)
    → paging_get directory (virt - virt % page_size) m'
      ≡ paging_get directory (virt - virt % page_size) m
    → paging_get_physical_address directory virt m' ≡ paging_get_physical_address directory virt m
unfolding paging_get_physical_address paging_align_to_lower_page
same_entry-translates directory virt m m' e =
    ap (λ w. (bit_and w 0xfffff000 + (virt - (virt - virt % page_size))) % 2 ^ 32) e
