-- ===== src/System/Boot/Started.antt =====
-- What `kernel_main` has set up before it loads programs.
use mathlib.Core.Option
use marrow_os.Base.{
  ℕ, ◌+◌, ◌^◌, ◌<◌, ◌≡◌, refl, ap, ◌∙◌, some, pos, List, ◌%◌, arith, ltb, ◌==◌, if◌then◌else◌,
}
use marrow_os.Base.Run.{>>=-some}
use marrow_os.Idt.Commands.{
  IsFresh, HasCommands, isr80h_register_commands-finds, isr80h_register_commands-callbacks,
}
use marrow_os.Idt.Gates.{idt_init-callbacks, register-callback}
use marrow_os.Idt.Kept.{idt_init-commands}
use marrow_os.Idt.{
  Idt, idt_clock, idt_handle_exception, classic_keyboard_handle_interrupt, idt_init,
  idt_register_interrupt_callback, isr80h_register_commands, isr80h_find_command,
}
use marrow_os.Keyboard.Classic.{off}
use marrow_os.Keyboard.{Driver}
use marrow_os.Kheap.Room.{Room}
use marrow_os.Paging.Chunks.Identity.{IsIdentity, paging_new_4gb-IsIdentity}
use marrow_os.Paging.Chunks.{paging_new_4gb}
use marrow_os.Paging.{page_size, paging_4gb_chunk_get_directory, paging_get_physical_address}
use marrow_os.Process.{map_flags}
use marrow_os.System.Boot.{
  Image, set_up_tables, register_commands, keyboard_init, classic_keyboard_init,
}
use marrow_os.System.Interrupts.Clock.{paging_switch-loads}
use marrow_os.System.Tasks.{paging_switch}
use marrow_os.System.{Machine, kernel, memory, with_kernel, on_kernel}

-- The kernel translates every address to itself, exceptions, the clock and the keyboard have their
-- callbacks, and each number of a system call has its command.
pub record IsStarted (s : Machine) : Type 0 where
  pub directory : ℕ
  pub identity : IsIdentity s.kernel_chunk directory map_flags (memory s)
  pub translates :
      (addr : ℕ) → addr < 2 ^ 32 → paging_get_physical_address directory addr (memory s) ≡ addr
  pub switched : s.loaded_directory ≡ directory
  pub callbacks :
      (i : ℕ)
      → i < 0x22
      → s.idt.interrupt_callbacks i ≡ (
          if ltb i 0x20
          then some idt_handle_exception
          else (if i == 0x20 then some idt_clock else some classic_keyboard_handle_interrupt))
  pub commands : HasCommands s.idt
  pub caps : s.capslock ≡ off

-- The tables of interrupts and system calls at the end.
module _ (image : Image) (t t' : Idt) (fresh : IsFresh t) where
  abbrev set_idt : Idt
  set_idt = idt_init image.entries t

  abbrev keyed : Idt
  keyed = (idt_register_interrupt_callback (pos 0x21) classic_keyboard_handle_interrupt t').1

  set_idt-IsFresh : IsFresh set_idt
  set_idt-IsFresh i = ap (λ f. f i) (idt_init-commands image.entries t) ∙ fresh i

  keyed-callbacks :
      isr80h_register_commands set_idt ≡ some t'
      → (i : ℕ) → i < 0x22
      → keyed.interrupt_callbacks i ≡ (
          if ltb i 0x20
          then some idt_handle_exception
          else (if i == 0x20 then some idt_clock else some classic_keyboard_handle_interrupt))
  keyed-callbacks run i h = ground (
    arith,
    register-callback 0x21 classic_keyboard_handle_interrupt t' i (omega arith),
    ap (λ f. f i) (isr80h_register_commands-callbacks set_idt t' set_idt-IsFresh run),
    idt_init-callbacks image.entries t i,
  )

-- On a machine whose commands are not registered, where the heap has aligned pages and room for
-- 1026 requests and more, kernel_main gets from the disk on through the tables of interrupts,
-- paging, the commands and the keyboards: the kernel's directory is loaded and maps every address
-- to itself, the exceptions, the clock and the keyboard have their callbacks, sum, print, getkey,
-- putchar, malloc, free, process load, invoke, arguments and exit have the numbers 0 to 9, caps
-- lock is off, and the other free blocks are left.
pub set_up_tables-IsStarted :
    (image : Image) (spare : ℕ) (s : Machine)
    → IsFresh s.idt
    → Room (1026 + spare) (kernel s)
    → (kernel s).heap.saddr % page_size ≡ 0
    → (keyboards : List Driver) × (s' : Machine) × (set_up_tables image s ≡ some (keyboards, s'))
      × IsStarted s'
      × Room spare (kernel s')
unfolding set_up_tables register_commands keyboard_init classic_keyboard_init
    idt_register_interrupt_callback isr80h_find_command
set_up_tables-IsStarted image spare s fresh room aligned =
    let s6 = record s { idt = idt_init image.entries s.idt } in
    let (chunk, directory, k7, made, identity, translates, left) =
      paging_new_4gb-IsIdentity map_flags spare (kernel s) room aligned (omega arith) in
    let s8 = record (with_kernel s6 k7) { kernel_chunk = chunk } in
    let s9 = record s8 { loaded_directory = paging_4gb_chunk_get_directory chunk k7.mem } in
    let (t', commands_run, finds, above, below, twice) =
      isr80h_register_commands-finds s6.idt (set_idt-IsFresh image s.idt s.idt fresh) in
    (
      _,
      record s9 { idt = keyed image s.idt t' fresh; capslock = off },
      >>=-some (on_kernel (paging_new_4gb map_flags)) _ s6 (with_kernel s6 k7) chunk
            (ap (Option.map (λ x. (x.0, with_kernel s6 x.1))) made)
          ∙ >>=-some (paging_switch chunk) _ s8 s9 tt
              (paging_switch-loads chunk s8 identity.chunk_some)
          ∙ >>=-some register_commands _ s9 (record s9 { idt = t' }) tt
              (ap (Option.map (λ t. (tt, record s9 { idt = t }))) commands_run),
      record {
        directory = directory;
        identity = identity;
        translates = translates;
        switched = identity.formed.points;
        callbacks = keyed-callbacks image s.idt t' fresh commands_run;
        commands = finds;
        caps = refl;
      },
      left,
    )
