-- ===== src/Idt.antt =====
-- src/idt/idt.c and idt.h, and src/isr80h/isr80h.c and isr80h.h: the interrupt descriptors in the layout of
-- the processor, the callbacks of interrupts, and the commands of the system call.
pub mod Gates
pub mod Kept
pub mod Commands
use mathlib.Core.Option
use marrow_os.Base.{
  ℕ, zero, suc, ◌+◌, ◌-◌, ◌*◌, ◌/◌, ◌%◌, ◌^◌, bit_and, Bool, true, false, ◌||◌, Option, none, some,
  List, [], ◌∷◌, leb, ◌==◌, if◌then◌else◌, ℤ, pos, negsuc,
}

abbrev pub total_interrupts : ℕ
total_interrupts = 512

abbrev pub max_isr80h_commands : ℕ
max_isr80h_commands = 1024

abbrev pub kernel_code_selector : ℕ
kernel_code_selector = 0x08

-- `struct idt_desc`
pub record IdtDesc : Type 0 where
  pub offset_1 : ℕ
  pub selector : ℕ
  pub zero_byte : ℕ
  pub type_attr : ℕ
  pub offset_2 : ℕ

-- `struct idtr_desc`
pub record IdtrDesc : Type 0 where
  pub limit : ℕ
  pub base : ℕ

-- The functions that the kernel registers for interrupts, and for system calls.
pub data InterruptCallback : Type 0 where
  idt_handle_exception idt_clock classic_keyboard_handle_interrupt : InterruptCallback

pub data Isr80hCommand : Type 0 where
  command0_sum command1_print command2_getkey command3_putchar command4_malloc : Isr80hCommand
  command5_free command6_process_load_start command7_invoke_system_command : Isr80hCommand
  command8_get_program_arguments command9_exit : Isr80hCommand

-- The tables by index; a null pointer is `none`.
pub record Idt : Type 0 where
  pub descriptors : ℕ → IdtDesc
  pub idtr : IdtrDesc
  pub interrupt_callbacks : ℕ → Option InterruptCallback
  pub isr80h_commands : ℕ → Option Isr80hCommand

pub data Status : Type 0 where
  all_ok einvarg : Status

abbrev pub no_desc : IdtDesc
no_desc = record { offset_1 = 0; selector = 0; zero_byte = 0; type_attr = 0; offset_2 = 0 }

-- The fields that `idt_set` writes.
unfoldable pub gate_fields : ℕ → IdtDesc
gate_fields address = record {
  offset_1 = bit_and address 0x0000ffff;
  selector = kernel_code_selector;
  zero_byte = 0x00;
  type_attr = 0xee;
  offset_2 = address / 2 ^ 16 % 2 ^ 16;
}

pub idt_set : ℕ → ℕ → Idt → Idt
idt_set interrupt_no address t = record t {
  descriptors = λ i. if i == interrupt_no then gate_fields address else t.descriptors i;
}

-- An `int` below 0 or behind the table is refused.
unfoldable pub idt_register_interrupt_callback : ℤ → InterruptCallback → Idt → Status × Idt
idt_register_interrupt_callback (negsuc n) interrupt_callback t = (einvarg, t)
idt_register_interrupt_callback (pos interrupt) interrupt_callback t =
    if leb total_interrupts interrupt then (einvarg, t) else (
      all_ok,
      record t {
        interrupt_callbacks =
            λ i. if i == interrupt then some interrupt_callback else t.interrupt_callbacks i;
      },
    )

-- The loops of `idt_init` at index `i`, with `left` rounds to go.
pub set_from : ℕ → ℕ → (ℕ → ℕ) → Idt → Idt
set_from zero i interrupt_pointer_table t = t
set_from (suc left) i interrupt_pointer_table t =
    set_from left (i + 1) interrupt_pointer_table (idt_set i (interrupt_pointer_table i) t)

pub register_from : ℕ → ℕ → Idt → Idt
register_from zero i t = t
register_from (suc left) i t =
    register_from left (i + 1) (idt_register_interrupt_callback (pos i) idt_handle_exception t).1

-- The entry points that the assembly has, and where the table of descriptors stands.
pub record Entries : Type 0 where
  pub interrupt_pointer_table : ℕ → ℕ
  pub idt_zero : ℕ
  pub isr80h_wrapper : ℕ
  pub idtr_descriptors : ℕ

-- The tables after the `memset`, and the register of the descriptor table.
unfoldable pub cleared_idt : Entries → Idt → Idt
cleared_idt e t = record t {
  descriptors = λ i. if leb total_interrupts i then t.descriptors i else no_desc;
  idtr = record { limit = total_interrupts * 8 - 1; base = e.idtr_descriptors };
}

-- Up to the load of the descriptor table.
pub idt_init : Entries → Idt → Idt
idt_init e t =
    let gates = set_from total_interrupts 0 e.interrupt_pointer_table (cleared_idt e t) in
    let special = idt_set 0x80 e.isr80h_wrapper (idt_set 0 e.idt_zero gates) in
    (idt_register_interrupt_callback (pos 0x20) idt_clock (register_from 0x20 0 special)).1

-- `none` is a panic.
pub isr80h_register_command : ℤ → Isr80hCommand → Idt → Option Idt
isr80h_register_command (negsuc n) command t = none
isr80h_register_command (pos command_id) command t =
    if leb max_isr80h_commands command_id then none else elim (t.isr80h_commands command_id) [
      | some there ↦ none
      | none ↦
          let commands = λ (i : ℕ). if i == command_id then some command else t.isr80h_commands i in
          some (record t { isr80h_commands = commands })
    ]

-- The calls that `isr80h_register_commands` makes, in order, each with the number of the command.
unfoldable pub system_commands : List (ℕ × Isr80hCommand)
system_commands =
    (0, command0_sum)
    ∷ (1, command1_print)
    ∷ (2, command2_getkey)
    ∷ (3, command3_putchar)
    ∷ (4, command4_malloc)
    ∷ (5, command5_free)
    ∷ (6, command6_process_load_start)
    ∷ (7, command7_invoke_system_command)
    ∷ (8, command8_get_program_arguments)
    ∷ (9, command9_exit)
    ∷ []

unfoldable pub register_all : List (ℕ × Isr80hCommand) → Idt → Option Idt
register_all [] t = some t
register_all ((command_id, command) ∷ calls) t =
    Option.bind (isr80h_register_command (pos command_id) command t) (register_all calls)

pub isr80h_register_commands : Idt → Option Idt
isr80h_register_commands t = register_all system_commands t

-- The guards of `isr80h_handle_command`: the command that is then called, if any.
unfoldable pub isr80h_find_command : ℤ → Idt → Option Isr80hCommand
isr80h_find_command (negsuc n) t = none
isr80h_find_command (pos command) t =
    if leb max_isr80h_commands command then none else t.isr80h_commands command
