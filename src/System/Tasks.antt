-- ===== src/System/Tasks.antt =====
-- src/task/task.c over the whole kernel: making and freeing a task, switching to it, its saved registers,
-- and reads of its memory.
pub mod Made
use mathlib.Core.Option
use marrow_os.Base.{ℕ, none, some, ◌==◌, if◌then◌else◌}
use marrow_os.Base.Run.{Run, pure, fault, ◌>>=◌, ◌>>◌}
use marrow_os.Elf.{e_entry, program_virtual_address}
use marrow_os.Kheap.{kzalloc, kfree}
use marrow_os.Memory.{Mem}
use marrow_os.Paging.Chunks.{paging_new_4gb, paging_free_4gb}
use marrow_os.Paging.{paging_4gb_chunk_get_directory}
use marrow_os.Process.Mapping.{file_type_elf, file_type_binary, file_type_other, read_flags}
use marrow_os.System.{Machine, Registers, ProcessFields, memory, with_task, on_kernel, modify, gets}
use marrow_os.Task
use marrow_os.Task.{task_append, task_get_next}

-- `sizeof(struct task)`
abbrev pub task_size : ℕ
task_size = 64

abbrev pub user_data_segment : ℕ
user_data_segment = 0x23

abbrev pub user_code_segment : ℕ
user_code_segment = 0x1b

-- MARROWOS_PROGRAM_VIRTUAL_STACK_ADDRESS_START
abbrev pub stack_address_start : ℕ
stack_address_start = 0x3ff000

-- `struct interrupt_frame`
pub record InterruptFrame : Type 0 where
  pub edi : ℕ
  pub esi : ℕ
  pub ebp : ℕ
  pub reserved : ℕ
  pub ebx : ℕ
  pub edx : ℕ
  pub ecx : ℕ
  pub eax : ℕ
  pub ip : ℕ
  pub cs : ℕ
  pub flags : ℕ
  pub esp : ℕ
  pub ss : ℕ

-- `paging_switch`; a null chunk is a fault.
unfoldable pub paging_switch : ℕ → Run Machine (Unit {0})
paging_switch chunk s =
    if chunk == 0
    then none
    else some (tt, record s { loaded_directory = paging_4gb_chunk_get_directory chunk (memory s) })

-- The segment registers are set in the assembly.
unfoldable pub kernel_page : Run Machine (Unit {0})
kernel_page s = paging_switch s.kernel_chunk s

unfoldable pub task_switch : ℕ → Run Machine (Unit {0})
task_switch task s =
    paging_switch (s.task task).page_directory
      (record s { tasks = record s.tasks { current = task } })

-- Where a program starts.
unfoldable pub entry_point : ProcessFields → Mem → ℕ
entry_point process m = elim process.filetype [
  | file_type_elf ↦ e_entry m process.elf_file.elf_memory
  | file_type_binary ↦ program_virtual_address
  | file_type_other ↦ program_virtual_address
]

unfoldable pub new_registers : ℕ → Registers
new_registers ip = record {
  edi = 0;
  esi = 0;
  ebp = 0;
  ebx = 0;
  edx = 0;
  ecx = 0;
  eax = 0;
  ip = ip;
  cs = user_code_segment;
  flags = 0;
  esp = stack_address_start;
  ss = user_data_segment;
}

-- The fields of the task; `paging_new_4gb` never returns a null pointer.
unfoldable pub task_init : ℕ → ℕ → Run Machine (Unit {0})
task_init task process = do
  page_directory ← on_kernel (paging_new_4gb read_flags)
  modify λ s.
      with_task task
        (record {
          page_directory = page_directory;
          registers = new_registers (entry_point (s.process process) (memory s));
          process = process;
        })
        s

-- Where there is no memory for it, the null pointer is freed as a task, which is a fault.
unfoldable pub task_new : ℕ → Run Machine ℕ
task_new process = do
  task ← on_kernel (kzalloc task_size)
  if task == 0 then fault else do
    task_init task process
    modify λ s.
        let links =
          λ (p : ℕ). if p == task then record { next = 0; prev = 0 } else s.tasks.links p in
        record s { tasks = task_append task (record s.tasks { links = links }) }
    pure task

unfoldable pub task_free : ℕ → Run Machine (Unit {0})
task_free task = do
  fields ← gets (λ s. s.task task)
  on_kernel (λ k. Option.map (λ k'. (tt, k')) (paging_free_4gb fields.page_directory k))
  modify (λ s. record s { tasks = Task.task_list_remove task s.tasks })
  on_kernel (λ k. Option.map (λ k'. (tt, k')) (kfree task k))

-- `task_return` enters user mode with the registers. `none` is a panic, or the null pointer that is
-- dereferenced where there is no current task.
unfoldable pub task_next : Run Machine Registers
task_next s =
    let next_task = task_get_next s.tasks in
    if s.tasks.current == 0
    then none
    else (if next_task == 0
        then none
        else (task_switch next_task >> gets (λ s'. (s'.task next_task).registers)) s)

unfoldable pub saved_registers : InterruptFrame → Registers
saved_registers frame = record {
  edi = frame.edi;
  esi = frame.esi;
  ebp = frame.ebp;
  ebx = frame.ebx;
  edx = frame.edx;
  ecx = frame.ecx;
  eax = frame.eax;
  ip = frame.ip;
  cs = frame.cs;
  flags = frame.flags;
  esp = frame.esp;
  ss = frame.ss;
}

unfoldable pub task_save_state : ℕ → InterruptFrame → Machine → Machine
task_save_state task frame s =
    with_task task (record (s.task task) { registers = saved_registers frame }) s

-- `none` is the panic.
unfoldable pub task_current_save_state : InterruptFrame → Run Machine (Unit {0})
task_current_save_state frame s =
    if s.tasks.current == 0 then none else some (tt, task_save_state s.tasks.current frame s)

unfoldable pub task_page : Run Machine (Unit {0})
task_page s = task_switch s.tasks.current s

unfoldable pub task_page_task : ℕ → Run Machine (Unit {0})
task_page_task task s = paging_switch (s.task task).page_directory s

unfoldable pub task_run_first_ever_task : Run Machine Registers
task_run_first_ever_task s =
    if s.tasks.current == 0
    then none
    else (task_switch s.tasks.head >> gets (λ s'. (s'.task s.tasks.head).registers)) s
