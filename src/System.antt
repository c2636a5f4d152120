-- ===== src/System.antt =====
-- The kernel as a whole: src/task/task.c, src/task/process.c, src/idt/idt.c and src/isr80h/*.c over the
-- components that they call. A task is named by its address, a process by its slot, which is its id.
pub mod Store
pub mod Tasks
pub mod Copies
pub mod Processes
pub mod Loading
pub mod Boot
pub mod Calls
pub mod Interrupts
use mathlib.Core.Option
use marrow_os.Base.{ℕ, false, none, some, Option, none, some, List, ◌==◌, if◌then◌else◌}
use marrow_os.Base.Run.{Run}
use marrow_os.Elf.{ElfFile}
use marrow_os.Fat16.Files.{FatState}
use marrow_os.File.{Files, on_state}
use marrow_os.Idt.{Idt}
use marrow_os.Kheap.{Kernel}
use marrow_os.Keyboard.Classic.{Capslock, Input}
use marrow_os.Keyboard.{Keys, KeyboardBuffer}
use marrow_os.Memory.{Mem}
use marrow_os.Process.Arguments.{ProcessArguments}
use marrow_os.Process.Mapping.{FileType}
use marrow_os.Process.Table.{Table}
use marrow_os.Process.{ProcessAllocation}
use marrow_os.Task
use marrow_os.Terminal.{Terminal}

-- `struct registers`
pub record Registers : Type 0 where
  pub edi : ℕ
  pub esi : ℕ
  pub ebp : ℕ
  pub ebx : ℕ
  pub edx : ℕ
  pub ecx : ℕ
  pub eax : ℕ
  pub ip : ℕ
  pub cs : ℕ
  pub flags : ℕ
  pub esp : ℕ
  pub ss : ℕ

-- `struct task` without its links.
pub record TaskFields : Type 0 where
  pub page_directory : ℕ
  pub registers : Registers
  pub process : ℕ

-- `struct process` at `address`; for an ELF program `ptr` points at `elf_file`.
pub record ProcessFields : Type 0 where
  pub address : ℕ
  pub filename : List ℕ
  pub task : ℕ
  pub allocations : List ProcessAllocation
  pub filetype : FileType
  pub ptr : ℕ
  pub elf_file : ElfFile
  pub stack : ℕ
  pub size : ℕ
  pub keyboard : KeyboardBuffer
  pub arguments : ProcessArguments

-- The heap, the memory, and what FAT16 keeps of the disk and of its descriptors.
abbrev pub Store : Type 0
Store = FatState Kernel

-- The store is the state behind the open files. `loaded_directory` is the directory that
-- the processor translates through.
pub record Machine : Type 0 where
  pub files : Files Store
  pub tasks : Task.Tasks
  pub task : ℕ → TaskFields
  pub table : Table
  pub process : ℕ → ProcessFields
  pub terminal : Terminal
  pub idt : Idt
  pub capslock : Capslock
  pub kernel_chunk : ℕ
  pub loaded_directory : ℕ

abbrev pub kernel : Machine → Kernel
kernel s = s.files.state.heap

abbrev pub memory : Machine → Mem
memory s = (kernel s).mem

abbrev pub with_kernel : Machine → Kernel → Machine
with_kernel s k = record s { files = record s.files { state = record s.files.state { heap = k } } }

abbrev pub with_task : ℕ → TaskFields → Machine → Machine
with_task task fields s = record s { task = λ p. if p == task then fields else s.task p }

abbrev pub with_process : ℕ → ProcessFields → Machine → Machine
with_process process fields s = record s {
  process = λ p. if p == process then fields else s.process p;
}

abbrev pub on_kernel : {A : Type 0} → Run Kernel A → Run Machine A
on_kernel m s = Option.map (λ r. (r.0, with_kernel s r.1)) (m (kernel s))

abbrev pub on_files : {A : Type 0} → Run (Files Store) A → Run Machine A
on_files m s = Option.map (λ r. (r.0, record s { files = r.1 })) (m s.files)

-- A call of the file system, behind the table of open files.
abbrev pub on_store : {A : Type 0} → Run Store A → Run Machine A
on_store m = on_files (on_state m)

-- A call of the terminal.
abbrev pub on_terminal : (Terminal → Option Terminal) → Run Machine (Unit {0})
on_terminal f s = Option.map (λ t. (tt, record s { terminal = t })) (f s.terminal)

-- A change that cannot fault.
abbrev pub modify : (Machine → Machine) → Run Machine (Unit {0})
modify f s = some (tt, f s)

abbrev pub gets : {A : Type 0} → (Machine → A) → Run Machine A
gets f s = some (f s, s)

-- What the keyboard sees, under the kernel's directory.
pub input_of : Machine → Input
input_of s = record {
  keys = record {
    buffers = λ p. (s.process p).keyboard;
    current_process = s.table.current;
    current_task = if s.tasks.current == 0 then none else some (s.task s.tasks.current).process;
  };
  capslock = s.capslock;
  on_task_page = false;
}

pub with_input : Machine → Input → Machine
with_input s input = record s {
  process = λ p. record (s.process p) { keyboard = input.keys.buffers p };
  capslock = input.capslock;
}
