-- ===== src/Elf/Load.antt =====
-- `elf_load` of src/loader/formats/elfloader.c, over the file layer, the allocator and memory. `none` is
-- a fault.
use mathlib.Core.Option
use marrow_os.Allocator.{Allocator}
use marrow_os.Base.{
  ℕ, zero, suc, ◌+◌, ◌==◌, if◌then◌else◌, none, some, List, [], ◌∷◌, get_or, ℤ, pos, negsuc,
}
use marrow_os.Base.Run.{Run, pure, fault, ◌>>=◌, ◌>>◌}
use marrow_os.Memory.{Mem, address, update}
use marrow_os.File.{Files, Mount, on_state, fopen, fstat, fread, fclose}
use marrow_os.Elf.{ElfFile, elf_file_size, elf_process_loaded}

-- The memory behind the state of an allocator.
pub record Backing (S : Type 0) : Type 0 where
  pub memory : S → Mem
  pub with_memory : Mem → S → S

-- What a read leaves in memory from `ptr` on.
pub store_bytes : List ℕ → ℕ → Mem → Mem
store_bytes [] ptr m = m
store_bytes (b ∷ bytes) ptr m = store_bytes bytes (ptr + 1) (update m (address ptr) b)

module _ (a : Allocator) where
  open a use {State, kzalloc, kfree as free}

  kfree : ℕ → Run (Files State) (Unit {0})
  kfree ptr = on_state (λ s. Option.map (λ s'. (tt, s')) (free ptr s))

  pub elf_file_new : Run (Files State) ℕ
  elf_file_new = on_state (kzalloc elf_file_size)

  pub elf_file_free : ℕ → ℕ → Run (Files State) (Unit {0})
  elf_file_free elf_file elf_memory =
      (if elf_memory == 0 then pure tt else kfree elf_memory) >> kfree elf_file

  -- `elf_close` of a file that is there, with its image.
  pub elf_close : ℕ → ℕ → Run (Files State) (Unit {0})
  elf_close file elf_memory =
      if file == 0
      then pure tt
      else (if elf_memory == 0 then pure tt else kfree elf_memory) >> kfree file

module _ (a : Allocator) (backing : Backing a.State) (mount : Mount a.State) where
  open a use {State, kzalloc}
  open backing use {memory, with_memory}

  on_memory : (Mem → Mem) → Run (Files State) (Unit {0})
  on_memory f = on_state (λ s. some (tt, with_memory (f (memory s)) s))

  -- The label `out` for an error: `elf_file_free`, and then `elf_close`, which reads the structure that
  -- was given back.
  pub elf_failed : ℕ → ℕ → ℕ → Run (Files State) (ℕ × ElfFile)
  elf_failed elf_file elf_memory fd =
      fclose a (pos fd) >> elf_file_free a elf_file elf_memory >> fault

  -- The image is in memory.
  pub load_processed : ℕ → ℕ → ℕ → Run (Files State) (ℕ × ElfFile)
  load_processed elf_file elf_memory fd s =
      let file : ElfFile = record {
        elf_memory = elf_memory;
        virtual_base_address = 0;
        virtual_end_address = 0;
        physical_base_address = 0;
        physical_end_address = 0;
      } in
      elim (elf_process_loaded (memory s.state) file) [
        | none ↦ elf_failed elf_file elf_memory fd s
        | some loaded ↦ (fclose a (pos fd) >> pure (elf_file, loaded)) s
      ]

  -- The file is open; `stat` is what `fstat` returns and writes.
  pub load_image : ℕ → ℕ → ℤ × List ℕ → Run (Files State) (ℕ × ElfFile)
  load_image elf_file fd (negsuc n, stat) = elf_failed elf_file 0 fd
  load_image elf_file fd (pos n, stat) =
      let filesize = get_or stat 1 0 in
      do
        elf_memory ← on_state (kzalloc filesize)
        if elf_memory == 0 then elf_failed elf_file 0 fd else do
          (res, bytes) ← fread a filesize 1 (pos fd)
          on_memory (store_bytes bytes elf_memory)
          elim res [
            | pos (suc zero) ↦ load_processed elf_file elf_memory fd
            | _ ↦ elf_failed elf_file elf_memory fd
          ]

  -- The new `struct elf_file` and its fields. Where it cannot be made, the null pointer is given back,
  -- which is a fault.
  pub elf_load : List ℕ → Run (Files State) (ℕ × ElfFile)
  elf_load filename = do
    elf_file ← elf_file_new a
    if elf_file == 0 then fault else do
      fd ← fopen a mount filename (b'r' ∷ [])
      if fd == 0
          then elf_failed elf_file 0 fd
          else do stat ← fstat a (pos fd); load_image elf_file fd stat
