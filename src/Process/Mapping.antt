-- ===== src/Process/Mapping.antt =====
-- The memory that src/task/process.c maps for a program when it is loaded: its image and its stack.
-- `none` is the panic for a file type that is neither.
pub mod Binary
use mathlib.Core.Option
use marrow_os.Base.{
  ℕ, zero, suc, ◌+◌, ◌*◌, ◌%◌, ◌^◌, ◌==◌, bit_and, if◌then◌else◌, Option, none, some,
}
use marrow_os.Memory.{Mem}
use marrow_os.Elf.{
  ElfFile, Phdr, phdr_at, phdr_size, elf_pheader, elf_phdr_phys_address, e_phnum,
  program_virtual_address,
}
use marrow_os.Paging.{
  Status, all_ok, einvarg, paging_map_to, paging_align_address, paging_align_to_lower_page,
}
use marrow_os.Process.{map_flags}

abbrev pub pf_w : ℕ
pf_w = 2

-- PAGING_IS_PRESENT | PAGING_ACCESS_FROM_ALL
abbrev pub read_flags : ℕ
read_flags = 0b00000101

abbrev pub user_program_stack_size : ℕ
user_program_stack_size = 1024 * 16

-- MARROWOS_PROGRAM_VIRTUAL_STACK_ADDRESS_END
abbrev pub stack_address_end : ℕ
stack_address_end = 0x3fb000

pub data FileType : Type 0 where
  file_type_elf file_type_binary file_type_other : FileType

-- What the calls below read of `struct process`.
pub record Program : Type 0 where
  pub page_directory : ℕ
  pub filetype : FileType
  pub ptr : ℕ
  pub size : ℕ
  pub elf_file : ElfFile
  pub stack : ℕ

unfoldable pub process_map_binary : Program → Mem → Status × Mem
process_map_binary process m =
    paging_map_to process.page_directory program_virtual_address process.ptr
      (paging_align_address ((process.ptr + process.size) % 2 ^ 32)) map_flags m

pub segment_flags : Phdr → ℕ
segment_flags phdr = if bit_and phdr.p_flags pf_w == 0 then read_flags else map_flags

pub map_segment : Program → Phdr → Mem → Status × Mem
map_segment process phdr m =
    let phdr_phys_address = elf_phdr_phys_address process.elf_file phdr in
    paging_map_to process.page_directory (paging_align_to_lower_page phdr.p_vaddr)
      (paging_align_to_lower_page phdr_phys_address)
      (paging_align_address ((phdr_phys_address + phdr.p_memsz) % 2 ^ 32)) (segment_flags phdr) m

-- The loop of `process_map_elf` at index `i`, with `left` rounds to go, as the header has them before the
-- loop.
pub map_segments : ℕ → ℕ → ℕ → Program → Mem → Status × Mem
map_segments zero i phdrs process m = (all_ok, m)
map_segments (suc left) i phdrs process m =
    let (res, m') = map_segment process (phdr_at m ((phdrs + i * phdr_size) % 2 ^ 32)) m in
    elim res [ einvarg ↦ (einvarg, m') | all_ok ↦ map_segments left (i + 1) phdrs process m' ]

pub process_map_elf : Program → Mem → Status × Mem
process_map_elf process m =
    let header = process.elf_file.elf_memory in
    map_segments (e_phnum m header) 0 (elf_pheader m header) process m

-- The mapping of the stack, whose result is not read.
unfoldable pub map_stack : Program → Mem → Mem
map_stack process m =
    (paging_map_to process.page_directory stack_address_end process.stack
      (paging_align_address ((process.stack + user_program_stack_size) % 2 ^ 32)) map_flags m).1

unfoldable pub with_stack : Program → Status × Mem → Status × Mem
with_stack process (einvarg, m) = (einvarg, m)
with_stack process (all_ok, m) = (all_ok, map_stack process m)

pub map_image : FileType → Program → Mem → Option (Status × Mem)
map_image file_type_elf process m = some (with_stack process (process_map_elf process m))
map_image file_type_binary process m = some (with_stack process (process_map_binary process m))
map_image file_type_other process m = none

pub process_map_memory : Program → Mem → Option (Status × Mem)
process_map_memory process m = map_image process.filetype process m
