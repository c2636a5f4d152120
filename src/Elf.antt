-- ===== src/Elf.antt =====
-- src/loader/formats/elf.h, elf.c and elfloader.c: the image of a program in memory, its segments, and
-- loading it through the file layer. A pointer is its 32-bit pattern.
pub mod Segments
pub mod Load
use mathlib.Core.Option
use marrow_os.Allocator.{Allocator}
use marrow_os.Base.{
  ℕ, zero, suc, ◌+◌, ◌*◌, ◌%◌, ◌^◌, Bool, ◌&&◌, ◌||◌, not, true, false, leb, ltb, ◌==◌,
  if◌then◌else◌, Option, none, some, List, [], ◌∷◌, get_or, ℤ, pos, negsuc,
}
use marrow_os.Memory.{Mem, address, update, memset, memcmp}
use marrow_os.PathParser.{is_zero}
use marrow_os.File.{Files, Mount, on_state, fopen, fstat, fread, fclose}

abbrev pub program_virtual_address : ℕ
program_virtual_address = 0x400000

abbrev pub pt_load : ℕ
pt_load = 1

abbrev pub et_exec : ℕ
et_exec = 2

-- `sizeof(struct elf32_phdr)`, `sizeof(struct elf32_shdr)` and `sizeof(struct elf_file)` on 32 bits.
abbrev pub phdr_size : ℕ
phdr_size = 32

abbrev pub shdr_size : ℕ
shdr_size = 40

abbrev pub elf_file_size : ℕ
elf_file_size = 132

abbrev pub half_at : Mem → ℕ → ℕ
half_at m p = m (address p) + 256 * m (address (p + 1))

abbrev pub word_at : Mem → ℕ → ℕ
word_at m p = half_at m p + 65536 * half_at m (p + 2)

-- The fields of `struct elf32_phdr` that the loader reads.
pub record Phdr : Type 0 where
  pub p_type : ℕ
  pub p_offset : ℕ
  pub p_vaddr : ℕ
  pub p_filesz : ℕ
  pub p_memsz : ℕ
  pub p_flags : ℕ

unfoldable pub phdr_at : Mem → ℕ → Phdr
phdr_at m p = record {
  p_type = word_at m p;
  p_offset = word_at m (p + 4);
  p_vaddr = word_at m (p + 8);
  p_filesz = word_at m (p + 16);
  p_memsz = word_at m (p + 20);
  p_flags = word_at m (p + 24);
}

-- `struct elf_header` at a pointer.
abbrev pub e_ident : Mem → ℕ → ℕ → ℕ
e_ident m header i = m (address (header + i))

abbrev pub e_type : Mem → ℕ → ℕ
e_type m header = half_at m (header + 16)

abbrev pub e_entry : Mem → ℕ → ℕ
e_entry m header = word_at m (header + 24)

abbrev pub e_phoff : Mem → ℕ → ℕ
e_phoff m header = word_at m (header + 28)

abbrev pub e_shoff : Mem → ℕ → ℕ
e_shoff m header = word_at m (header + 32)

abbrev pub e_phnum : Mem → ℕ → ℕ
e_phnum m header = half_at m (header + 44)

abbrev pub e_shstrndx : Mem → ℕ → ℕ
e_shstrndx m header = half_at m (header + 50)

abbrev pub elf_signature : List ℕ
elf_signature = 0x7f ∷ (b'E' ∷ (b'L' ∷ (b'F' ∷ [])))

unfoldable pub elf_valid_signature : Mem → ℕ → Bool
elf_valid_signature m buffer = is_zero (memcmp (e_ident m buffer) (λ i. get_or elf_signature i 0) 4)

unfoldable pub elf_valid_class : Mem → ℕ → Bool
elf_valid_class m header = e_ident m header 4 == 0 || e_ident m header 4 == 1

unfoldable pub elf_valid_encoding : Mem → ℕ → Bool
elf_valid_encoding m header = e_ident m header 5 == 0 || e_ident m header 5 == 1

unfoldable pub elf_is_executable : Mem → ℕ → Bool
elf_is_executable m header =
    e_type m header == et_exec && leb program_virtual_address (e_entry m header)

unfoldable pub elf_has_program_header : Mem → ℕ → Bool
elf_has_program_header m header = not (e_phoff m header == 0)

-- `struct elf_file`; a null pointer is 0.
pub record ElfFile : Type 0 where
  pub elf_memory : ℕ
  pub virtual_base_address : ℕ
  pub virtual_end_address : ℕ
  pub physical_base_address : ℕ
  pub physical_end_address : ℕ

pub elf_get_entry : Mem → ℕ → ℕ
elf_get_entry m header = e_entry m header

pub elf_sheader : Mem → ℕ → ℕ
elf_sheader m header = (header + e_shoff m header) % 2 ^ 32

unfoldable pub elf_pheader : Mem → ℕ → ℕ
elf_pheader m header = if e_phoff m header == 0 then 0 else (header + e_phoff m header) % 2 ^ 32

unfoldable pub elf_program_header : Mem → ℕ → ℕ → ℕ
elf_program_header m header index = (elf_pheader m header + index * phdr_size) % 2 ^ 32

pub elf_section : Mem → ℕ → ℕ → ℕ
elf_section m header index = (elf_sheader m header + index * shdr_size) % 2 ^ 32

pub elf_phdr_phys_address : ElfFile → Phdr → ℕ
elf_phdr_phys_address file phdr = (file.elf_memory + phdr.p_offset) % 2 ^ 32

pub elf_str_table : Mem → ℕ → ℕ
elf_str_table m header =
    (header + word_at m (elf_section m header (e_shstrndx m header) + 16)) % 2 ^ 32

-- `true` is MARROWOS_ALL_OK, `false` is -EINFORMAT.
unfoldable pub elf_validate_loaded : Mem → ℕ → Bool
elf_validate_loaded m header =
    elf_valid_signature m header
    && (elf_valid_class m header
        && (elf_valid_encoding m header
            && (elf_has_program_header m header && elf_is_executable m header)))

-- The first test of `elf_process_phdr_pt_load`, and the second.
pub lower_base : ElfFile → Phdr → ElfFile
lower_base f phdr =
    if leb phdr.p_vaddr f.virtual_base_address || f.virtual_base_address == 0
    then record f {
      virtual_base_address = phdr.p_vaddr;
      physical_base_address = (f.elf_memory + phdr.p_offset) % 2 ^ 32;
    }
    else f

pub raise_end : ElfFile → Phdr → ElfFile
raise_end f phdr =
    let end_virtual_address = (phdr.p_vaddr + phdr.p_filesz) % 2 ^ 32 in
    if leb f.virtual_end_address end_virtual_address || f.virtual_end_address == 0
    then record f {
      virtual_end_address = end_virtual_address;
      physical_end_address = (f.elf_memory + phdr.p_offset + phdr.p_filesz) % 2 ^ 32;
    }
    else f

pub elf_process_phdr_pt_load : ElfFile → Phdr → ElfFile
elf_process_phdr_pt_load elf_file phdr = raise_end (lower_base elf_file phdr) phdr

pub elf_process_pheader : ElfFile → Phdr → ElfFile
elf_process_pheader elf_file phdr =
    if phdr.p_type == pt_load then elf_process_phdr_pt_load elf_file phdr else elf_file

-- The loop of `elf_process_pheaders` at index `i`, with `left` rounds to go.
pub process_from : ℕ → ℕ → Mem → ElfFile → ElfFile
process_from zero i m elf_file = elf_file
process_from (suc left) i m elf_file =
    process_from left (i + 1) m
      (elf_process_pheader elf_file (phdr_at m (elf_program_header m elf_file.elf_memory i)))

pub elf_process_pheaders : Mem → ElfFile → ElfFile
elf_process_pheaders m elf_file = process_from (e_phnum m elf_file.elf_memory) 0 m elf_file

-- `none` is -EINFORMAT.
pub elf_process_loaded : Mem → ElfFile → Option ElfFile
elf_process_loaded m elf_file =
    if elf_validate_loaded m elf_file.elf_memory
    then some (elf_process_pheaders m elf_file)
    else none
