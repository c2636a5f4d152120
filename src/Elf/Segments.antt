-- ===== src/Elf/Segments.antt =====
-- The bounds that the loader of src/loader/formats/elfloader.c finds for a program.
use marrow_os.Base.{ℕ, ◌+◌, ◌^◌, ◌≤◌, ◌<◌, ◌≡◌}
use marrow_os.Memory.{Mem}
use marrow_os.Elf.{Phdr, phdr_at, pt_load, ElfFile, elf_program_header}

-- The lower bound is set, and the segment lies between the bounds.
pub record Covers (f : ElfFile) (phdr : Phdr) : Type 0 where
  pub base_set : 0 < f.virtual_base_address
  pub starts : f.virtual_base_address ≤ phdr.p_vaddr
  pub ends : phdr.p_vaddr + phdr.p_filesz ≤ f.virtual_end_address

-- A segment above address 0 and inside the address space.
pub record IsLoadable (phdr : Phdr) : Type 0 where
  pub above : 0 < phdr.p_vaddr
  pub fits : phdr.p_vaddr + phdr.p_filesz < 2 ^ 32

module _ (m : Mem) (image : ℕ) where
  -- The program header with that index, of the image at that address.
  abbrev pub segment : ℕ → Phdr
  segment i = phdr_at m (elf_program_header m image i)

  -- From index `i` on, `left` headers.
  abbrev AllLoadable : ℕ → ℕ → Type 0
  AllLoadable i left =
      (j : ℕ) → i ≤ j → j < i + left → (segment j).p_type ≡ pt_load → IsLoadable (segment j)
