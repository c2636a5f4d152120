-- ===== src/System/Loading.antt =====
-- `process_load` of src/task/process.c and what it calls: the file of a program, its memory, its task and
-- its slot.
use mathlib.Core.Option
use marrow_os.Base.{
  ℕ, zero, suc, ◌==◌, if◌then◌else◌, none, some, List, [], ◌∷◌, replicate, get_or, set, ℤ, pos,
  negsuc, true,
}
use marrow_os.Base.Run.{Run, pure, ◌>>=◌, ◌>>◌}
use marrow_os.CString.{strncpy}
use marrow_os.Elf.Load.{elf_load, store_bytes}
use marrow_os.File.{Mount, fopen, fstat, fread, fclose}
use marrow_os.System.Store.{store_allocator, store_backing}
use marrow_os.Kheap.{kzalloc}
use marrow_os.Paging.{all_ok, einvarg}
use marrow_os.PathParser.{max_path}
use marrow_os.Process.Mapping.{
  file_type_elf, file_type_binary, process_map_memory, user_program_stack_size,
}
use marrow_os.Process.Table.{process_get, process_switch, process_get_free_slot}
use marrow_os.System.Processes.{
  process_size, process_init, program_of, free_pointer, process_free_process,
}
use marrow_os.System.Tasks.{task_new}
use marrow_os.System.{
  Machine, Store, kernel, memory, with_kernel, with_process, on_kernel, on_files, modify,
}

-- The results of a load: 0 with the slot, -EISTKN, -ENOMEM and -EINVARG.
pub data Loaded : Type 0 where
  loaded : ℕ → Loaded
  is_taken no_memory invalid : Loaded

-- -EIO and -ENOMEM of `process_load_binary`, or 0.
pub data BinaryLoaded : Type 0 where
  binary_loaded input_output binary_no_memory : BinaryLoaded

-- `process_terminate` of a process that was made in part.
unfoldable pub load_failed : ℕ → Loaded → Run Machine Loaded
load_failed process res = process_free_process process >> pure res

module _ (mount : Mount Store) where
  -- The label `out` of `process_load_binary`.
  unfoldable pub binary_out : ℤ → ℕ → BinaryLoaded → Run Machine BinaryLoaded
  binary_out fd program_data_ptr binary_loaded =
      on_files (fclose store_allocator fd) >> pure binary_loaded
  binary_out fd program_data_ptr res = do
    free_pointer program_data_ptr
    on_files (fclose store_allocator fd)
    pure res

  -- The file is open; `stat` is what `fstat` returns and writes.
  unfoldable pub binary_opened : ℕ → ℤ → ℤ × List ℕ → Run Machine BinaryLoaded
  binary_opened process fd (pos zero, stat) =
      let filesize = get_or stat 1 0 in
      do
        program_data_ptr ← on_kernel (kzalloc filesize)
        if program_data_ptr == 0 then binary_out fd 0 binary_no_memory else do
          (res, bytes) ← on_files (fread store_allocator filesize 1 fd)
          modify λ s.
              with_kernel s
                (record (kernel s) { mem = store_bytes bytes program_data_ptr (memory s) })
          elim res [
            | pos (suc zero) ↦ do
              modify λ s.
                  with_process process
                    (record (s.process process) {
                      filetype = file_type_binary;
                      ptr = program_data_ptr;
                      size = filesize;
                    })
                    s
              binary_out fd program_data_ptr binary_loaded
            | _ ↦ binary_out fd program_data_ptr input_output
          ]
  binary_opened process fd (pos (suc n), stat) = binary_out fd 0 binary_loaded
  binary_opened process fd (negsuc n, stat) = binary_out fd 0 input_output

  unfoldable pub process_load_binary : List ℕ → ℕ → Run Machine BinaryLoaded
  process_load_binary filename process = do
    fd ← on_files (fopen store_allocator mount filename (b'r' ∷ []))
    if fd == 0 then binary_out (pos 0) 0 input_output else do
      stat ← on_files (fstat store_allocator (pos fd))
      binary_opened process (pos fd) stat

  -- An error of `elf_load` is a fault, so `process_load_data` never comes to `process_load_binary`.
  unfoldable pub process_load_elf : List ℕ → ℕ → Run Machine (Unit {0})
  process_load_elf filename process = do
    (ptr, elf_file) ← on_files (elf_load store_allocator store_backing mount filename)
    modify λ s.
        with_process process
          (record (s.process process) { filetype = file_type_elf; ptr = ptr; elf_file = elf_file })
          s

  -- The end of `process_load_for_slot`: the memory is mapped, and the slot taken.
  unfoldable pub map_and_link : ℕ → Run Machine Loaded
  map_and_link process s = elim (process_map_memory (program_of s process) (memory s)) [
    | none ↦ none
    | some (einvarg, mem) ↦
        load_failed process invalid (with_kernel s (record (kernel s) { mem = mem }))
    | some (all_ok, mem) ↦
        let mapped = with_kernel s (record (kernel s) { mem = mem }) in
        some (
          loaded process,
          record mapped {
            table = record mapped.table { processes = set mapped.table.processes process true };
          },
        )
  ]

  -- `process_load_for_slot` for a slot that is free.
  unfoldable pub load_into_slot : List ℕ → ℕ → Run Machine Loaded
  load_into_slot filename process_slot = do
    address ← on_kernel (kzalloc process_size)
    if address == 0 then pure no_memory else do
      modify (with_process process_slot (process_init address))
      process_load_elf filename process_slot
      stack ← on_kernel (kzalloc user_program_stack_size)
      if stack == 0 then load_failed process_slot no_memory else do
        name ←
            (λ s. Option.map (λ text. (text, s)) (strncpy (replicate max_path 0) filename max_path))
        modify λ s.
            with_process process_slot
              (record (s.process process_slot) { stack = stack; filename = name }) s
        task ← task_new process_slot
        modify (λ s. with_process process_slot (record (s.process process_slot) { task = task }) s)
        map_and_link process_slot

  -- A slot below `max_processes`.
  unfoldable pub process_load_for_slot : List ℕ → ℕ → Run Machine Loaded
  process_load_for_slot filename process_slot s = elim (process_get (pos process_slot) s.table) [
    | some there ↦ some (is_taken, s)
    | none ↦ load_into_slot filename process_slot s
  ]

  unfoldable pub process_load : List ℕ → Run Machine Loaded
  process_load filename s = elim (process_get_free_slot s.table) [
    | none ↦ some (is_taken, s)
    | some process_slot ↦ process_load_for_slot filename process_slot s
  ]

  unfoldable pub process_load_switch : List ℕ → Run Machine Loaded
  process_load_switch filename = do
    res ← process_load filename
    elim res [
      | loaded process ↦
          modify (λ s. record s { table = process_switch process s.table }) >> pure (loaded process)
      | is_taken ↦ pure is_taken
      | no_memory ↦ pure no_memory
      | invalid ↦ pure invalid
    ]
