-- ===== src/Tests/Machines.antt =====
-- A kernel with 2000 free blocks, and a machine of two tasks on it.
use marrow_os.Base.{
  ℕ, zero, suc, inl, inr, map, ◌++◌, ◌+◌, ◌^◌, ◌<◌, ◌≤◌, ◌≡◌, ◌==◌, refl, ap, sym, ◌∙◌, arith,
  false, none, some, [], ◌∷◌, replicate, length, length-replicate, if◌then◌else◌, negsuc,
}
use marrow_os.Heap.{entry_free}
use marrow_os.Heap.Segments.{gaps, render, render-gaps}
use marrow_os.Idt.{idt_clock, no_desc, isr80h_find_command}
use marrow_os.Kheap.{Kernel}
use marrow_os.Kheap.Room.{Room, gap_count}
use marrow_os.Keyboard.Classic.{off}
use marrow_os.Paging.Chunks.Identity.{IsIdentity, paging_new_4gb-IsIdentity}
use marrow_os.Paging.Chunks.{paging_new_4gb}
use marrow_os.Paging.{paging_4gb_chunk_get_directory, paging_get_physical_address}
use marrow_os.Process.Mapping.{file_type_binary}
use marrow_os.System.Calls.{returned, entered}
use marrow_os.System.Interrupts.Clock.{IsClocked}
use marrow_os.System.Interrupts.Turns.{Restores, Walk, ticks, ticks-resumes}
use marrow_os.System.Interrupts.Unknown.{isr80h_handler-unknown}
use marrow_os.System.Interrupts.{isr80h_handler}
use marrow_os.System.Tasks.Made.{IsReady, task_new-IsReady}
use marrow_os.System.Tasks.{InterruptFrame, task_new, task_save_state, new_registers}
use marrow_os.System.{Machine, Registers, kernel, memory}

pub gap_count-gaps : (n : ℕ) → gap_count (gaps n) ≡ n
gap_count-gaps zero = refl
gap_count-gaps (suc n) = ap suc (gap_count-gaps n)

-- A heap of that many free blocks at 16 MiB, and a memory of zeros.
abbrev pub free_kernel : ℕ → Kernel
free_kernel n = record {
  heap = record { table = record { entries = render (gaps n); total = n }; saddr = 0x1000000 };
  mem = λ p. 0;
}

pub free_kernel-Room : (n : ℕ) → n ≤ 2000 → Room n (free_kernel n)
free_kernel-Room n h = record {
  segs = gaps n;
  formed = record {
    entries_eq = refl;
    total_eq = sym (ap length (render-gaps n) ∙ length-replicate n entry_free);
    space = omega arith;
    reach = omega arith;
  };
  above_zero = omega arith;
  enough = omega (arith, gap_count-gaps n);
}

paging_new_4gb-IsIdentity_example :
    (chunk directory : ℕ) × (k' : Kernel) × (paging_new_4gb 7 (free_kernel 2000) ≡ some (chunk, k'))
    × IsIdentity chunk directory 7 k'.mem
    × ((addr : ℕ) → addr < 2 ^ 32 → paging_get_physical_address directory addr k'.mem ≡ addr)
    × Room 974 k'
paging_new_4gb-IsIdentity_example =
    paging_new_4gb-IsIdentity 7 974 (free_kernel 2000) (free_kernel-Room 2000 (omega arith)) refl
      (omega arith)

-- Two tasks at 4096 and 8192, of which the first runs, each with a chunk.
abbrev pub two_tasks : Machine
two_tasks = record {
  files = record {
    descriptors = [];
    state = record { heap = free_kernel 2000; fs_private = none; descriptors = λ p. none };
  };
  tasks = record {
    links =
        λ p. record { next = if p == 4096 then 8192 else 0; prev = if p == 8192 then 4096 else 0 };
    head = 4096;
    tail = 8192;
    current = 4096;
  };
  task = λ p. record { page_directory = p + 64; registers = new_registers 0x400000; process = 0 };
  table = record { processes = replicate 12 false; current = none };
  process = λ p. record {
    address = 0;
    filename = [];
    task = 0;
    allocations = [];
    filetype = file_type_binary;
    ptr = 0;
    elf_file = record {
      elf_memory = 0;
      virtual_base_address = 0;
      virtual_end_address = 0;
      physical_base_address = 0;
      physical_end_address = 0;
    };
    stack = 0;
    size = 0;
    keyboard = record { buffer = []; tail = 0; head = 0 };
    arguments = record { argc = 0; argv = 0 };
  };
  terminal = record { video_mem = λ i. 0; row = 0; col = 0 };
  idt = record {
    descriptors = λ _. no_desc;
    idtr = record { limit = 0; base = 0 };
    interrupt_callbacks = λ i. if i == 0x20 then some idt_clock else none;
    isr80h_commands = λ _. none;
  };
  capslock = off;
  kernel_chunk = 0x500000;
  loaded_directory = 0;
}

task_new-IsReady_example :
    (task : ℕ) × (s' : Machine) × (task_new 3 two_tasks ≡ some (task, s'))
    × IsReady task 3 s'
    × Room 973 (kernel s')
task_new-IsReady_example =
    task_new-IsReady 3 973 two_tasks (free_kernel-Room 2000 (omega arith)) refl

-- A frame of a program at an address.
abbrev pub frame_at : ℕ → InterruptFrame
frame_at ip = record {
  edi = 1;
  esi = 2;
  ebp = 3;
  reserved = 0;
  ebx = 4;
  edx = 5;
  ecx = 6;
  eax = 7;
  ip = ip;
  cs = 0x1b;
  flags = 0x202;
  esp = 0x3fef00;
  ss = 0x23;
}

-- Three tasks, of which the second runs.
abbrev three_tasks : Machine
three_tasks = record two_tasks {
  tasks = record {
    links = λ p. record {
      next = if p == 4096 then 8192 else if p == 8192 then 12288 else 0;
      prev = if p == 12288 then 8192 else if p == 8192 then 4096 else 0;
    };
    head = 4096;
    tail = 12288;
    current = 8192;
  };
}

three_tasks-IsClocked : IsClocked three_tasks
three_tasks-IsClocked = record { callback = refl; chunk = omega arith }

three_tasks-Walk : Walk three_tasks 8192 (12288 ∷ 4096 ∷ 8192 ∷ [])
three_tasks-Walk = (
  (omega arith, inl refl),
  (omega arith, omega arith),
  (
    (omega arith, inr (refl, refl)),
    (omega arith, omega arith),
    ((omega arith, inl refl), (omega arith, omega arith), tt),
  ),
)

ticks-resumes_example :
    (s' : Machine) × (r : Registers) × (ticks
        (frame_at 0x400123 ∷ frame_at 0x400456 ∷ frame_at 0x400789 ∷ [])
        three_tasks
      ≡ some (
        map (λ u. entered (three_tasks.task u).registers) (12288 ∷ 4096 ∷ []) ++ entered r ∷ [],
        s',
      ))
    × Restores (frame_at 0x400123) r
    × (s'.tasks.current ≡ three_tasks.tasks.current)
ticks-resumes_example =
    ticks-resumes (frame_at 0x400123) (frame_at 0x400456 ∷ frame_at 0x400789 ∷ [])
      (12288 ∷ 4096 ∷ []) three_tasks refl three_tasks-IsClocked (omega arith, omega arith)
      three_tasks-Walk (omega arith, (omega arith, tt)) ((omega arith, tt), (tt, tt))

-- No file system is mounted; the number is below 0.
isr80h_handler-unknown_example :
    isr80h_handler
      (record { address = 0; filesystem = none })
      1
      (negsuc 0)
      (frame_at 0x400123)
      two_tasks
    ≡ some (
      returned 0,
      record (task_save_state two_tasks.tasks.current (frame_at 0x400123) two_tasks) {
        loaded_directory =
            paging_4gb_chunk_get_directory
              (two_tasks.task two_tasks.tasks.current).page_directory
              (memory two_tasks);
      },
    )
unfolding isr80h_find_command
isr80h_handler-unknown_example =
    isr80h_handler-unknown (record { address = 0; filesystem = none }) 1 (negsuc 0)
      (frame_at 0x400123) two_tasks tt (omega arith) (omega arith) (omega arith)
