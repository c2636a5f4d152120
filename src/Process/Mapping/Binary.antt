-- ===== src/Process/Mapping/Binary.antt =====
-- Where a binary program and its stack stand after src/task/process.c has mapped them.
use marrow_os.Base.{ℕ, ◌+◌, ◌-◌, ◌/◌, ◌%◌, ◌^◌, ◌≤◌, ◌<◌, ◌≡◌, refl, ap, ◌∙◌, arith, inr, some}
use marrow_os.Memory.{Mem}
use marrow_os.Elf.{program_virtual_address}
use marrow_os.Paging.{
  Status, all_ok, page_size, paging_get_physical_address, paging_align_address, paging_map_to,
}
use marrow_os.Paging.Align.{paging_align_address_lem}
use marrow_os.Paging.Ranges.{IsChunk, Mapped}
use marrow_os.Paging.Translate.{paging_map_to-translates, same_entry-translates}
use marrow_os.Process.{map_flags}
use marrow_os.Process.Mapping.{
  Program, file_type_binary, stack_address_end, user_program_stack_size, process_map_binary,
  map_stack, with_stack, map_image, process_map_memory,
}

module _ (process : Program) (directory : ℕ) (m : Mem)
    (c : IsChunk process.page_directory directory m) (binary : process.filetype ≡ file_type_binary)
    (aligned : process.ptr % page_size ≡ 0) (stack_aligned : process.stack % page_size ≡ 0)
    (low : process.ptr + process.size ≤ 2 ^ 31)
    (stack_low : process.stack + user_program_stack_size ≤ 2 ^ 31) where
  abbrev image_end : ℕ
  image_end = paging_align_address ((process.ptr + process.size) % 2 ^ 32)

  abbrev stack_end : ℕ
  stack_end = paging_align_address ((process.stack + user_program_stack_size) % 2 ^ 32)

  abbrev image_mapped : Status × Mem
  image_mapped =
      paging_map_to process.page_directory program_virtual_address process.ptr image_end map_flags m

  image_lem :
      let (res, m') = image_mapped in
      (res ≡ all_ok)
      × ((k : ℕ)
          → k < image_end - process.ptr
          → paging_get_physical_address directory (program_virtual_address + k) m'
            ≡ process.ptr + k)
      × Mapped directory program_virtual_address process.ptr
          ((image_end - process.ptr) / page_size)
          map_flags
          m
          m'
      × IsChunk process.page_directory directory m'
  image_lem =
      let (a, b, e) =
        paging_align_address_lem ((process.ptr + process.size) % 2 ^ 32) (omega arith) in
      paging_map_to-translates process.page_directory directory program_virtual_address process.ptr
        image_end map_flags m c refl aligned a (omega arith) (omega arith) (omega arith)
        (omega arith)

  abbrev image_mem : Mem
  image_mem = image_mapped.1

  abbrev stack_mem : Mem
  stack_mem =
      (paging_map_to process.page_directory stack_address_end process.stack stack_end map_flags
        image_mem).1

  stack_size : stack_end - process.stack ≡ user_program_stack_size
  stack_size =
      let (a, b, e) =
        paging_align_address_lem ((process.stack + user_program_stack_size) % 2 ^ 32)
          (omega arith) in
      omega arith

  stack_lem :
      ((k : ℕ)
        → k < user_program_stack_size
        → paging_get_physical_address directory (stack_address_end + k) stack_mem
          ≡ process.stack + k)
      × Mapped directory stack_address_end process.stack
          ((stack_end - process.stack) / page_size)
          map_flags
          image_mem
          stack_mem
  stack_lem =
      let (a, b, e) =
        paging_align_address_lem ((process.stack + user_program_stack_size) % 2 ^ 32)
          (omega arith) in
      let (done, translates, mapped, _) =
        paging_map_to-translates process.page_directory directory stack_address_end process.stack
          stack_end map_flags image_mem image_lem.3 refl stack_aligned a (omega arith) (omega arith)
          (omega arith) (omega arith) in
      (λ k h. translates k (omega (arith, stack_size)), mapped)

  -- The stack lies below the image.
  image_kept :
      (k : ℕ)
      → k < process.size
      → paging_get_physical_address directory (program_virtual_address + k) stack_mem
        ≡ paging_get_physical_address directory (program_virtual_address + k) image_mem
  image_kept k h =
      same_entry-translates directory (program_virtual_address + k) image_mem stack_mem (
        stack_lem.1.others (program_virtual_address + k - (program_virtual_address + k) % page_size)
          (omega arith, omega arith) (inr (omega (arith, stack_size))))

  -- Over a chunk whose tables do not overlap, process_map_memory of a binary program whose image
  -- and stack are page-aligned and end up to 2 ^ 31 succeeds: from 0x400000 on the bytes of the
  -- image are mapped, and the 16384 bytes of the stack from 0x3fb000 on.
  pub process_map_memory-binary :
      (m' : Mem) × (process_map_memory process m ≡ some (all_ok, m'))
      × ((k : ℕ)
          → k < process.size
          → paging_get_physical_address directory (program_virtual_address + k) m'
            ≡ process.ptr + k)
      × ((k : ℕ)
          → k < user_program_stack_size
          → paging_get_physical_address directory (stack_address_end + k) m' ≡ process.stack + k)
  unfolding process_map_memory map_image process_map_binary with_stack map_stack
  process_map_memory-binary =
      let (a, b, e) =
        paging_align_address_lem ((process.ptr + process.size) % 2 ^ 32) (omega arith) in
      (
        stack_mem,
        ap (λ t. map_image t process m) binary
            ∙ ap (λ r. some (with_stack process (r, image_mem))) {x = image_mapped.0} {y = all_ok}
                image_lem.0,
        λ k h. image_kept k h ∙ image_lem.1 k (omega arith),
        stack_lem.0,
      )
