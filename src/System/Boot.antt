-- ===== src/System/Boot.antt =====
-- `kernel_main` of src/kernel.c, with `disk_search_and_init` of src/disk/disk.c and
-- the start of the keyboards. The task state segment is for the processor only and is left out, as are the
-- loads of the tables and the switch that turns paging on.
pub mod Started
use mathlib.Core.Option
use marrow_os.Base.{ℕ, none, some, pos, List, [], ◌∷◌, replicate}
use marrow_os.Base.Run.{Run, pure, fault, ◌>>=◌, ◌>>◌}
use marrow_os.Fat16.Mount.{fat16_fs}
use marrow_os.Kheap.Room.{kernel_allocator}
use marrow_os.Streamer.{Disk}
use marrow_os.File.Filesystems.{FilesystemTable, fs_init, registered}
use marrow_os.File.{Mount, fs_resolve}
use marrow_os.Gdt.{gdt_segments, gdt_structured_to_gdt}
use marrow_os.Idt.{
  Entries, idt_init, idt_register_interrupt_callback, classic_keyboard_handle_interrupt,
  isr80h_register_commands,
}
use marrow_os.Keyboard.Classic.{off}
use marrow_os.Keyboard.{Driver, keyboard_insert}
use marrow_os.Kheap.{Kernel, kheap_init}
use marrow_os.Memory.{memset}
use marrow_os.Paging.Chunks.{paging_new_4gb}
use marrow_os.Process.{map_flags}
use marrow_os.System.Calls.{inject_arguments}
use marrow_os.System.Loading.{loaded, is_taken, no_memory, invalid, process_load_switch}
use marrow_os.System.Tasks.{paging_switch, task_run_first_ever_task}
use marrow_os.System.{
  Machine, Store, on_store, Store, Registers, kernel, memory, with_kernel, on_kernel, modify,
  on_terminal,
}
use marrow_os.Terminal.{terminal_initialize}

-- Where the image of the kernel has its tables, the disk, the entry points, and what the memory of the heap's
-- table holds.
pub record Image : Type 0 where
  pub gdt_real : ℕ
  pub tss : ℕ
  pub disk : Disk
  pub entries : Entries
  pub heap_table : List ℕ

-- The segment table; `none` is the panic of its encoding.
unfoldable pub set_up_segments : Image → Run Machine (Unit {0})
set_up_segments image s =
    Option.map (λ mem. (tt, with_kernel s (record (kernel s) { mem = mem })))
      (gdt_structured_to_gdt image.gdt_real (gdt_segments image.tss)
        (memset image.gdt_real 0 48 (memory s)))

-- `fs_init`, with the table that it leaves, of FAT16 alone; `none` is its endless loop.
unfoldable pub init_files : Image → Run Machine (FilesystemTable Store)
init_files image s =
    Option.map (λ r. (r.1, record s { files = record s.files { descriptors = r.0 } }))
      (fs_init (fat16_fs kernel_allocator image.disk))

-- The disk has no file system and no private data of one before.
unfoldable pub disk_search_and_init : Image → FilesystemTable Store → Run Machine (Mount Store)
disk_search_and_init image filesystems = do
  on_store (λ t. some (tt, record t { fs_private = none }))
  filesystem ← on_store (fs_resolve image.disk.address (registered filesystems))
  pure (record { address = image.disk.address; filesystem = filesystem })

-- The commands to the keyboard's port are left out.
unfoldable pub classic_keyboard_init : Run Machine ℕ
classic_keyboard_init s = some (
  0,
  record s {
    idt = (idt_register_interrupt_callback (pos 0x21) classic_keyboard_handle_interrupt s.idt).1;
    capslock = off;
  },
)

abbrev classic_name : List ℕ
classic_name = b'C' ∷ b'l' ∷ b'a' ∷ b's' ∷ b's' ∷ b'i' ∷ b'c' ∷ []

-- The list of keyboards, which is empty before.
unfoldable pub keyboard_init : Run Machine (List Driver)
keyboard_init = do
  res ← classic_keyboard_init
  pure (keyboard_insert (record { name = classic_name; init = some res }) []).1

unfoldable pub register_commands : Run Machine (Unit {0})
register_commands s = Option.map (λ t. (tt, record s { idt = t })) (isr80h_register_commands s.idt)

-- `kernel_main` up to the disk.
unfoldable pub set_up_files : Image → Run Machine (Mount Store)
set_up_files image = do
  on_terminal terminal_initialize
  set_up_segments image
  on_kernel (λ k. kheap_init k image.heap_table)
  filesystems ← init_files image
  disk_search_and_init image filesystems

-- `kernel_main` behind the disk and up to the keyboards.
unfoldable pub set_up_tables : Image → Run Machine (List Driver)
set_up_tables image = do
  modify (λ s. record s { idt = idt_init image.entries s.idt })
  kernel_chunk ← on_kernel (paging_new_4gb map_flags)
  modify (λ s. record s { kernel_chunk = kernel_chunk })
  paging_switch kernel_chunk
  register_commands
  keyboard_init

-- "0:/blank.elf", and the arguments of the programs.
abbrev pub program_path : List ℕ
program_path =
    b'0' ∷ b':' ∷ b'/' ∷ b'b' ∷ b'l' ∷ b'a' ∷ b'n' ∷ b'k' ∷ b'.' ∷ b'e' ∷ b'l' ∷ b'f' ∷ []

abbrev pub first_argument : List ℕ
first_argument = b'T' ∷ b'e' ∷ b's' ∷ b't' ∷ b'i' ∷ b'n' ∷ b'g' ∷ b'!' ∷ []

abbrev pub second_argument : List ℕ
second_argument = b'A' ∷ b'B' ∷ b'C' ∷ b'!' ∷ []

-- A program that cannot be loaded is a panic. The status of the arguments is not read.
unfoldable pub start_program : Mount Store → List ℕ → Run Machine (Unit {0})
start_program mount argument = do
  res ← process_load_switch mount program_path
  elim res [
    | loaded process ↦ inject_arguments (argument ∷ []) process >> pure tt
    | is_taken ↦ fault
    | no_memory ↦ fault
    | invalid ↦ fault
  ]

-- The registers that the first task is entered with.
unfoldable pub kernel_main : Image → Run Machine Registers
kernel_main image = do
  mount ← set_up_files image
  set_up_tables image
  start_program mount first_argument
  start_program mount second_argument
  task_run_first_ever_task
