-- ===== src/Paging/Succeeds.antt =====
-- The mapping calls fail on misaligned addresses only, whatever the directory holds.
use marrow_os.Base.{ℕ, zero, suc, ◌+◌, ◌-◌, ◌/◌, ◌%◌, ◌^◌, ◌≤◌, ◌≡◌, refl, bit_or, arith, ltb_le}
use marrow_os.Memory.{Mem}
use marrow_os.Paging.{
  all_ok, page_size, paging_map, paging_map_range, paging_map_to, paging_4gb_chunk_get_directory,
}
use marrow_os.Paging.Entries.{paging_set-slot}

paging_map-succeeds :
    (chunk virt phys flags : ℕ) (m : Mem)
    → virt % page_size ≡ 0
    → phys % page_size ≡ 0
    → (paging_map chunk virt phys flags m).0 ≡ all_ok
unfolding paging_map
paging_map-succeeds chunk virt phys flags m v p =
    rw (v, p, paging_set-slot (paging_4gb_chunk_get_directory chunk m) virt (bit_or phys flags) m v)
      refl

paging_map_range-succeeds :
    (count chunk virt phys flags : ℕ) (m : Mem)
    → virt % page_size ≡ 0
    → phys % page_size ≡ 0
    → (paging_map_range chunk virt phys count flags m).0 ≡ all_ok
unfolding paging_map_range
paging_map_range-succeeds zero chunk virt phys flags m v p = refl
paging_map_range-succeeds (suc count) chunk virt phys flags m v p =
    rw (paging_map-succeeds chunk virt phys flags m v p, paging_map_range)
      (paging_map_range-succeeds count chunk ((virt + page_size) % 2 ^ 32)
        ((phys + page_size) % 2 ^ 32) flags (paging_map chunk virt phys flags m).1 (omega arith)
        (omega arith))

-- Over aligned addresses whose end does not lie below the start, `paging_map_to` succeeds.
pub paging_map_to-succeeds :
    (chunk virt phys phys_end flags : ℕ) (m : Mem)
    → virt % page_size ≡ 0
    → phys % page_size ≡ 0
    → phys_end % page_size ≡ 0
    → phys ≤ phys_end
    → (paging_map_to chunk virt phys phys_end flags m).0 ≡ all_ok
unfolding paging_map_to
paging_map_to-succeeds chunk virt phys phys_end flags m v p e h =
    rw (v, p, e, ltb_le phys_end phys h)
      (paging_map_range-succeeds ((phys_end - phys) / page_size) chunk virt phys flags m v p)
