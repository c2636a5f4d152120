-- ===== src/System/Processes.antt =====
-- src/task/process.c over the whole kernel: loading a program, and ending it.
use mathlib.Core.Option
use marrow_os.Base.{ℕ, some, replicate, ◌==◌, if◌then◌else◌}
use marrow_os.Base.Run.{Run, pure, ◌>>=◌, ◌>>◌}
use marrow_os.Elf.Load.{elf_close}
use marrow_os.System.Store.{store_allocator}
use marrow_os.Kheap.{kfree}
use marrow_os.Keyboard.{buffer_size}
use marrow_os.PathParser.{max_path}
use marrow_os.Process.Mapping.{Program, file_type_elf, file_type_binary, file_type_other}
use marrow_os.Process.Table.{process_unlink}
use marrow_os.Process.{Process, process_terminate_allocations, no_allocation}
use marrow_os.System.Tasks.{task_free}
use marrow_os.System.{
  Machine, ProcessFields, kernel, with_kernel, with_process, on_kernel, on_files, modify, gets,
}

-- `sizeof(struct process)`
abbrev pub process_size : ℕ
process_size = 9364

abbrev pub max_program_allocation : ℕ
max_program_allocation = 1024

-- `process_init` of a structure that starts at `address`.
unfoldable pub process_init : ℕ → ProcessFields
process_init address = record {
  address = address;
  filename = replicate max_path 0;
  task = 0;
  allocations = replicate max_program_allocation no_allocation;
  filetype = file_type_elf;
  ptr = 0;
  elf_file = record {
    elf_memory = 0;
    virtual_base_address = 0;
    virtual_end_address = 0;
    physical_base_address = 0;
    physical_end_address = 0;
  };
  stack = 0;
  size = 0;
  keyboard = record { buffer = replicate buffer_size 0; tail = 0; head = 0 };
  arguments = record { argc = 0; argv = 0 };
}

-- `kfree` of a pointer that is not null.
unfoldable pub free_pointer : ℕ → Run Machine (Unit {0})
free_pointer ptr =
    if ptr == 0 then pure tt else on_kernel (λ k. Option.map (λ k'. (tt, k')) (kfree ptr k))

-- What the components of a process see of it.
unfoldable pub process_of : Machine → ℕ → Process
process_of s process = record {
  allocations = (s.process process).allocations;
  page_directory = (s.task (s.process process).task).page_directory;
}

unfoldable pub program_of : Machine → ℕ → Program
program_of s process =
    let fields = s.process process in
    record {
      page_directory = (s.task fields.task).page_directory;
      filetype = fields.filetype;
      ptr = fields.ptr;
      size = fields.size;
      elf_file = fields.elf_file;
      stack = fields.stack;
    }

-- `process_terminate_allocations` for the process in a slot.
unfoldable pub free_allocations : ℕ → Run Machine (Unit {0})
free_allocations process s =
    Option.map
      (λ r. (
        tt,
        with_process process (record (s.process process) { allocations = r.0.allocations })
            (with_kernel s r.1),
      ))
      (process_terminate_allocations (process_of s process) (kernel s))

-- The status of the switch over the file type is not read by its caller.
unfoldable pub process_free_program_data : ℕ → Run Machine (Unit {0})
process_free_program_data process s =
    let fields = s.process process in
    elim fields.filetype [
      | file_type_binary ↦ free_pointer fields.ptr s
      | file_type_elf ↦ on_files (elf_close store_allocator fields.ptr fields.elf_file.elf_memory) s
      | file_type_other ↦ some (tt, s)
    ]

unfoldable pub process_free_process : ℕ → Run Machine (Unit {0})
process_free_process process = do
  free_allocations process
  process_free_program_data process
  fields ← gets (λ s. s.process process)
  free_pointer fields.stack
  modify (λ s. with_process process (record (s.process process) { stack = 0 }) s)
  if fields.task == 0 then pure tt else task_free fields.task
  modify (λ s. with_process process (record (s.process process) { task = 0 }) s)
  on_kernel (λ k. Option.map (λ k'. (tt, k')) (kfree fields.address k))

unfoldable pub process_terminate : ℕ → Run Machine (Unit {0})
process_terminate process = do
  (λ s. Option.map (λ t. (tt, record s { table = t })) (process_unlink process s.table))
  process_free_process process
