-- ===== src/System/Tasks/Made.antt =====
-- The task that `task_new` makes.
use mathlib.Core.Option
use marrow_os.Base.{
  ℕ, suc, ◌+◌, ◌%◌, ◌^◌, ◌<◌, ◌≡◌, ◌≢◌, refl, ap, ◌∙◌, ◌==◌, if◌then◌else◌, ==_ne, ==_refl, some,
  arith,
}
use marrow_os.Base.Run.{>>=-some}
use marrow_os.Elf.{word_at}
use marrow_os.Memory.{Mem}
use marrow_os.Kheap.{Kernel, kzalloc}
use marrow_os.Kheap.Pages.{Page, kzalloc-Page, Room-le}
use marrow_os.Kheap.Room.{Room}
use marrow_os.Paging.Chunks.Identity.{IsIdentity, paging_new_4gb-IsIdentity}
use marrow_os.Paging.Chunks.{paging_new_4gb}
use marrow_os.Paging.{page_size, paging_get_physical_address}
use marrow_os.Process.Mapping.{file_type_elf, file_type_binary, file_type_other, read_flags}
use marrow_os.System.Tasks.{task_size, task_new, task_init, entry_point, new_registers}
use marrow_os.System.{
  Machine, Registers, ProcessFields, TaskFields, kernel, memory, with_kernel, with_task, on_kernel,
}
use marrow_os.Task.{task_append}

-- A program starts with 0 in these.
abbrev pub IsCleared : Registers → Type 0
IsCleared r =
    (r.edi ≡ 0)
    × (r.esi ≡ 0)
    × (r.ebp ≡ 0)
    × (r.ebx ≡ 0)
    × (r.edx ≡ 0)
    × (r.ecx ≡ 0)
    × (r.eax ≡ 0)
    × (r.flags ≡ 0)

-- Where a program starts: at the word at byte 24 of its file for an ELF program, and at 4 MiB for any other.
abbrev pub start_of : ProcessFields → Mem → ℕ
start_of process m = elim process.filetype [
  | file_type_elf ↦ word_at m (process.elf_file.elf_memory + 24)
  | file_type_binary ↦ 0x400000
  | file_type_other ↦ 0x400000
]

-- A task that can be switched to: its directory maps every address to itself for user programs to read,
-- and its registers are those of a program that starts.
pub record IsReady (task process : ℕ) (s : Machine) : Type 0 where
  pub address : task ≢ 0
  pub directory : ℕ
  pub identity : IsIdentity (s.task task).page_directory directory read_flags (memory s)
  pub translates :
      (addr : ℕ) → addr < 2 ^ 32 → paging_get_physical_address directory addr (memory s) ≡ addr
  pub enters : (s.task task).registers.ip ≡ start_of (s.process process) (memory s)
  pub segments : ((s.task task).registers.cs ≡ 0x1b) × ((s.task task).registers.ss ≡ 0x23)
  pub stack_start : (s.task task).registers.esp ≡ 0x3ff000
  pub cleared : IsCleared (s.task task).registers
  pub process_eq : (s.task task).process ≡ process

-- The fields that `task_init` writes.
abbrev initial : ℕ → ℕ → Machine → TaskFields
initial process page_directory s = record {
  page_directory = page_directory;
  registers = new_registers (entry_point (s.process process) (memory s));
  process = process;
}

task_init-writes :
    (task process chunk : ℕ) (s : Machine) (k : Kernel)
    → paging_new_4gb read_flags (kernel s) ≡ some (chunk, k)
    → task_init task process s
      ≡ some (tt, with_task task (initial process chunk (with_kernel s k)) (with_kernel s k))
unfolding task_init
task_init-writes task process chunk s k made =
    >>=-some (on_kernel (paging_new_4gb read_flags)) _ s (with_kernel s k) chunk
      (ap (Option.map (λ r. (r.0, with_kernel s r.1))) made)

-- The machine with the task appended to the list.
abbrev appended : ℕ → Machine → Machine
appended task s =
    let links = λ (p : ℕ). if p == task then record { next = 0; prev = 0 } else s.tasks.links p in
    record s { tasks = task_append task (record s.tasks { links = links }) }

-- Where the heap has aligned pages and room for 1027 requests and more, task_new makes a task
-- that can be switched to: its directory maps every address to itself for programs to read, its
-- registers enter the program of its process, at the entry of its header for an ELF program and
-- at 4 MiB for any other, with the segments of user programs and the start of the stack, the
-- other registers are 0, and the other free blocks are left.
pub task_new-IsReady :
    (process spare : ℕ) (s : Machine)
    → Room (1027 + spare) (kernel s)
    → (kernel s).heap.saddr % page_size ≡ 0
    → (task : ℕ) × (s' : Machine) × (task_new process s ≡ some (task, s'))
      × IsReady task process s'
      × Room spare (kernel s')
unfolding task_new new_registers entry_point
task_new-IsReady process spare s r a =
    let g : Page (1026 + spare) task_size (kernel s) =
      kzalloc-Page (1026 + spare) task_size (kernel s)
        (Room-le (suc (1026 + spare)) r (omega arith)) (omega arith) (omega arith) in
    let (chunk, directory, k, made, identity, translates, left) =
      paging_new_4gb-IsIdentity read_flags spare g.k' g.left (omega (arith, g.start))
        (omega arith) in
    let s1 = with_kernel s g.k' in
    let s2 = with_task g.p (initial process chunk (with_kernel s1 k)) (with_kernel s1 k) in
    (
      g.p,
      appended g.p s2,
      >>=-some (on_kernel (kzalloc task_size)) _ s s1 g.p
            (ap (Option.map (λ x. (x.0, with_kernel s x.1))) g.run)
          ∙ rw (==_ne g.p 0 (omega (arith, g.above_zero))) (
              >>=-some (task_init g.p process) _ s1 s2 tt
                (task_init-writes g.p process chunk s1 k made)),
      record {
        address = omega (arith, g.above_zero);
        directory = directory;
        identity = rw (==_refl g.p) identity;
        translates = translates;
        enters = rw (==_refl g.p) refl;
        segments = rw (==_refl g.p) (refl, refl);
        stack_start = rw (==_refl g.p) refl;
        cleared = rw (==_refl g.p) (refl, refl, refl, refl, refl, refl, refl, refl);
        process_eq = rw (==_refl g.p) refl;
      },
      left,
    )
