-- ===== src/Idt/Commands.antt =====
-- The commands of the system call behind `isr80h_register_commands`.
use mathlib.Core.Option
use mathlib.Core.Option.{some-injective}
use marrow_os.Base.{
  ℕ, ◌≤◌, ◌<◌, ◌≡◌, refl, sym, ap, ◌∙◌, none, some, List, [], ◌∷◌, leb_lt, ◌==◌, if◌then◌else◌, pos,
  negsuc, arith,
}
use marrow_os.Idt.{
  Idt, Isr80hCommand, command0_sum, command1_print, command2_getkey, command3_putchar,
  command4_malloc, command5_free, command6_process_load_start, command7_invoke_system_command,
  command8_get_program_arguments, command9_exit, isr80h_register_command, isr80h_register_commands,
  register_all, system_commands, isr80h_find_command, max_isr80h_commands,
}

abbrev with_command : ℕ → Isr80hCommand → Idt → Idt
with_command command_id command t = record t {
  isr80h_commands = λ i. if i == command_id then some command else t.isr80h_commands i;
}

register-free :
    (command_id : ℕ) (command : Isr80hCommand) (t : Idt)
    → command_id < max_isr80h_commands
    → t.isr80h_commands command_id ≡ none
    → isr80h_register_command (pos command_id) command t ≡ some (with_command command_id command t)
unfolding isr80h_register_command
register-free command_id command t h free = rw (leb_lt max_isr80h_commands command_id h, free) refl

register-taken :
    (command_id : ℕ) (command there : Isr80hCommand) (t : Idt)
    → command_id < max_isr80h_commands
    → t.isr80h_commands command_id ≡ some there
    → isr80h_register_command (pos command_id) command t ≡ none
unfolding isr80h_register_command
register-taken command_id command there t h taken =
    rw (leb_lt max_isr80h_commands command_id h, taken) refl

-- Each number of the calls is free when its call is made.
abbrev AllFree : List (ℕ × Isr80hCommand) → Idt → Type 0
AllFree [] t = Unit
AllFree ((command_id, command) ∷ calls) t =
    (command_id < max_isr80h_commands)
    × (t.isr80h_commands command_id ≡ none)
    × AllFree calls (with_command command_id command t)

abbrev with_all : List (ℕ × Isr80hCommand) → Idt → Idt
with_all [] t = t
with_all ((command_id, command) ∷ calls) t = with_all calls (with_command command_id command t)

register_all-free :
    (calls : List (ℕ × Isr80hCommand)) (t : Idt)
    → AllFree calls t
    → register_all calls t ≡ some (with_all calls t)
unfolding register_all Option.bind
register_all-free [] t h = refl
register_all-free ((command_id, command) ∷ calls) t h =
    rw (register-free command_id command t h.0 h.1)
      (register_all-free calls (with_command command_id command t) h.2)

-- No command is registered.
abbrev pub IsFresh : Idt → Type 0
IsFresh t = (i : ℕ) → t.isr80h_commands i ≡ none

all_free : (t : Idt) → IsFresh t → AllFree system_commands t
unfolding system_commands
all_free t f = ground (arith, f 0, f 1, f 2, f 3, f 4, f 5, f 6, f 7, f 8, f 9)

-- What stands under the numbers 0 to 9, as the programs use them.
abbrev pub HasCommands : Idt → Type 0
HasCommands t =
    (isr80h_find_command (pos 0) t ≡ some command0_sum)
    × (isr80h_find_command (pos 1) t ≡ some command1_print)
    × (isr80h_find_command (pos 2) t ≡ some command2_getkey)
    × (isr80h_find_command (pos 3) t ≡ some command3_putchar)
    × (isr80h_find_command (pos 4) t ≡ some command4_malloc)
    × (isr80h_find_command (pos 5) t ≡ some command5_free)
    × (isr80h_find_command (pos 6) t ≡ some command6_process_load_start)
    × (isr80h_find_command (pos 7) t ≡ some command7_invoke_system_command)
    × (isr80h_find_command (pos 8) t ≡ some command8_get_program_arguments)
    × (isr80h_find_command (pos 9) t ≡ some command9_exit)

-- On a table with no commands isr80h_register_commands succeeds: sum, print, getkey, putchar,
-- malloc, free, process load, invoke, arguments and exit then have the numbers 0 to 9, every
-- other number and every number below 0 has none, and a second call panics.
pub isr80h_register_commands-finds :
    (t : Idt)
    → IsFresh t
    → (t' : Idt) × (isr80h_register_commands t ≡ some t')
      × HasCommands t'
      × ((i : ℕ) → 10 ≤ i → isr80h_find_command (pos i) t' ≡ none)
      × ((n : ℕ) → isr80h_find_command (negsuc n) t' ≡ none)
      × (isr80h_register_commands t' ≡ none)
unfolding isr80h_register_commands register_all system_commands Option.bind isr80h_find_command
isr80h_register_commands-finds t f = (
  with_all system_commands t,
  register_all-free system_commands t (all_free t f),
  (refl, refl, refl, refl, refl, refl, refl, refl, refl, refl),
  λ i h. ground (arith, f i),
  λ n. refl,
  rw (register-taken 0 command0_sum command0_sum (with_all system_commands t) (omega arith) refl)
      refl,
)

with_all-callbacks :
    (calls : List (ℕ × Isr80hCommand)) (t : Idt)
    → (with_all calls t).interrupt_callbacks ≡ t.interrupt_callbacks
with_all-callbacks [] t = refl
with_all-callbacks ((command_id, command) ∷ calls) t =
    with_all-callbacks calls (with_command command_id command t)

-- The callbacks of interrupts are left.
pub isr80h_register_commands-callbacks :
    (t t' : Idt)
    → IsFresh t
    → isr80h_register_commands t ≡ some t'
    → t'.interrupt_callbacks ≡ t.interrupt_callbacks
unfolding isr80h_register_commands
isr80h_register_commands-callbacks t t' f run =
    let same = some-injective _ _ (sym run ∙ register_all-free system_commands t (all_free t f)) in
    ap (λ x. x.interrupt_callbacks) same ∙ with_all-callbacks system_commands t
