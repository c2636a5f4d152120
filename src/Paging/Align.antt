-- ===== src/Paging/Align.antt =====
-- Rounding an address to a page, up and down.
use marrow_os.Base.{ℕ, ◌+◌, ◌-◌, ◌%◌, ◌^◌, ◌≤◌, ◌<◌, ◌≡◌, arith}
use marrow_os.Paging.{page_size, paging_align_address, paging_align_to_lower_page}

-- Below the last page of the address space, `paging_align_address` gives the least multiple of the
-- page size that is not below `ptr`.
pub paging_align_address_lem :
    (ptr : ℕ)
    → ptr ≤ 2 ^ 32 - page_size
    → (paging_align_address ptr % page_size ≡ 0)
      × (ptr ≤ paging_align_address ptr)
      × (paging_align_address ptr < ptr + page_size)
unfolding paging_align_address
paging_align_address_lem ptr h = ground arith

-- `paging_align_to_lower_page` gives the greatest multiple of the page size up to `addr`.
pub paging_align_to_lower_page_lem :
    (addr : ℕ)
    → (paging_align_to_lower_page addr % page_size ≡ 0)
      × (paging_align_to_lower_page addr ≤ addr)
      × (addr < paging_align_to_lower_page addr + page_size)
unfolding paging_align_to_lower_page
paging_align_to_lower_page_lem addr = omega arith
