-- ===== src/System/Calls.antt =====
-- src/isr80h/misc.c, io.c, heap.c and process.c: the commands of the system call, for the current task.
use mathlib.Core.Option
use marrow_os.Base.{
  ℕ, zero, suc, ◌+◌, ◌-◌, ◌%◌, ◌^◌, ltb, ◌==◌, if◌then◌else◌, Option, none, some, List, [], ◌∷◌,
  replicate,
}
use marrow_os.Base.Run.{Run, pure, ◌>>=◌, ◌>>◌}
use marrow_os.CString.{strcpy_from, strncpy_from}
use marrow_os.Elf.{word_at}
use marrow_os.File.{Mount}
use marrow_os.Idt.{
  Isr80hCommand, command0_sum, command1_print, command2_getkey, command3_putchar, command4_malloc,
  command5_free, command6_process_load_start, command7_invoke_system_command,
  command8_get_program_arguments, command9_exit,
}
use marrow_os.Kheap.{Kernel}
use marrow_os.Keyboard.{keyboard_pop}
use marrow_os.Memory.{Mem}
use marrow_os.Paging.Words.{write32}
use marrow_os.PathParser.{max_path}
use marrow_os.Process.Arguments.{
  Injected, injected, no_arguments, no_memory, process_inject_arguments, process_get_arguments,
}
use marrow_os.Process.{Process, process_malloc, process_free}
use marrow_os.System.Copies.{
  Copied, copied, copy_string_from_task, text_at, task_get_stack_item,
  task_virtual_address_to_physical,
}
use marrow_os.System.Loading.{Loaded, loaded, is_taken, invalid, process_load_switch}
use marrow_os.System.Loading
use marrow_os.System.Processes.{process_of, process_terminate}
use marrow_os.System.Tasks.{task_next, task_switch}
use marrow_os.System.{
  Machine, Store, Registers, kernel, memory, with_kernel, with_process, input_of, with_input, gets,
  modify, on_terminal,
}
use marrow_os.Terminal.{terminal_writechar, print}

-- A command returns a word to the program, or enters a task by `task_return` and does not return.
pub data Control : Type 0 where
  returned : ℕ → Control
  entered : Registers → Control

-- `ERROR` of a status below 0.
abbrev pub error_word : ℕ → Control
error_word status = returned (2 ^ 32 - status)

abbrev pub current : Run Machine ℕ
current = gets (λ s. s.tasks.current)

-- `task_current()->process`
abbrev pub current_process : Run Machine ℕ
current_process = gets (λ s. (s.task s.tasks.current).process)

-- An argument that the program has pushed.
unfoldable pub stack_item : ℕ → Run Machine ℕ
stack_item index = do task ← current; task_get_stack_item task index

unfoldable pub isr80h_command0_sum : Run Machine Control
isr80h_command0_sum = do v2 ← stack_item 1; v1 ← stack_item 0; pure (returned ((v1 + v2) % 2 ^ 32))

-- The result of the copy is not read; the buffer is cleared before it.
unfoldable pub printed : Copied → List ℕ
printed (copied text) = text
printed res = []

unfoldable pub isr80h_command1_print : Run Machine Control
isr80h_command1_print = do
  user_space_msg_buffer ← stack_item 0
  task ← current
  res ← copy_string_from_task task user_space_msg_buffer (replicate 1024 0) 1024
  on_terminal (print (printed res))
  pure (returned 0)

-- A `char` from 128 up is negative.
unfoldable pub isr80h_command2_getkey : Run Machine Control
isr80h_command2_getkey s =
    let input = input_of s in
    let (c, keys) = keyboard_pop input.keys in
    some (
      returned (if ltb c 128 then c else c + 0xffffff00),
      with_input s (record input { keys = keys }),
    )

unfoldable pub isr80h_command3_putchar : Run Machine Control
isr80h_command3_putchar = do
  c ← stack_item 0
  on_terminal (terminal_writechar (c % 256) 15)
  pure (returned 0)

-- What a call leaves of the process in a slot.
unfoldable pub with_allocations : ℕ → Process → Kernel → Machine → Machine
with_allocations process made k s =
    with_process process (record (s.process process) { allocations = made.allocations })
      (with_kernel s k)

unfoldable pub isr80h_command4_malloc : Run Machine Control
isr80h_command4_malloc = do
  size ← stack_item 0
  process ← current_process
  (λ s.
      Option.map (λ r. (returned r.0, with_allocations process r.1 r.2 s))
        (process_malloc size (process_of s process) (kernel s)))

unfoldable pub isr80h_command5_free : Run Machine Control
isr80h_command5_free = do
  ptr_to_free ← stack_item 0
  process ← current_process
  (λ s.
      Option.map (λ r. (returned 0, with_allocations process r.0 r.1 s))
        (process_free (process_of s process) ptr_to_free (kernel s)))

-- A write behind the end of `path` is a fault.
unfoldable pub lift : {A : Type 0} → Option A → Run Machine A
lift o s = Option.map (λ a. (a, s)) o

abbrev pub drive_prefix : List ℕ
drive_prefix = b'0' ∷ b':' ∷ b'/' ∷ replicate 105 0

-- `struct command_argument` at an address, with the others behind it; a longer list, or one in a
-- circle, is `none`.
unfoldable pub command_arguments : ℕ → ℕ → Mem → Option (List (List ℕ))
command_arguments zero root m = none
command_arguments (suc rounds) root m =
    let more = command_arguments rounds (word_at m (root + 512)) m in
    if root == 0 then some [] else Option.map (λ next. text_at 512 root m ∷ next) more

unfoldable pub isr80h_command8_get_program_arguments : Run Machine Control
isr80h_command8_get_program_arguments = do
  process ← current_process
  task ← current
  user ← stack_item 0
  modify λ s.
      let arguments = task_virtual_address_to_physical task user s in
      let (argc, argv) = process_get_arguments (s.process process).arguments in
      with_kernel s (record (kernel s) {
        mem = write32 (write32 (memory s) arguments argc) (arguments + 4) argv;
      })
  pure (returned 0)

unfoldable pub isr80h_command9_exit : Run Machine Control
isr80h_command9_exit = do
  process ← current_process
  process_terminate process
  registers ← task_next
  pure (entered registers)

-- `task_switch` and `task_return` to the task of a process.
unfoldable pub enter_process : ℕ → Run Machine Control
enter_process process = do
  task ← gets (λ s. (s.process process).task)
  task_switch task
  registers ← gets (λ s. (s.task task).registers)
  pure (entered registers)

-- `process_inject_arguments` for the process in a slot.
unfoldable pub inject_arguments : List (List ℕ) → ℕ → Run Machine Injected
inject_arguments arguments process s =
    Option.map
      (λ r.
        let made = with_allocations process r.2 r.3 s in
        (r.0, with_process process (record (made.process process) { arguments = r.1 }) made))
      (process_inject_arguments arguments (s.process process).arguments (process_of s process)
        (kernel s))

module _ (mount : Mount Store) where
  unfoldable pub isr80h_command6_process_load_start : Run Machine Control
  isr80h_command6_process_load_start = do
    filename_user_ptr ← stack_item 0
    task ← current
    res ← copy_string_from_task task filename_user_ptr (replicate max_path 0) max_path
    elim res [
      | copied filename ↦ do
        path ← lift (strcpy_from drive_prefix 3 filename)
        process ← process_load_switch mount path
        elim process [ loaded slot ↦ enter_process slot | _ ↦ pure (returned 0) ]
      | _ ↦ pure (returned 0)
    ]

  -- Behind the load of the program that the first argument names.
  unfoldable pub inject_and_enter : List (List ℕ) → ℕ → Run Machine Control
  inject_and_enter arguments process = do
    res ← inject_arguments arguments process
    elim res [
      | injected ↦ enter_process process
      | no_arguments ↦ pure (error_word 1)
      | no_memory ↦ pure (error_word 3)
    ]

  unfoldable pub invoke : List (List ℕ) → Run Machine Control
  invoke [] = pure (error_word 2)
  invoke ([] ∷ next) = pure (error_word 2)
  invoke ((c ∷ program_name) ∷ next) = do
    path ← lift (strncpy_from drive_prefix 3 (c ∷ program_name) (max_path - 1))
    process ← process_load_switch mount path
    elim process [
      | loaded slot ↦ inject_and_enter ((c ∷ program_name) ∷ next) slot
      | is_taken ↦ pure (error_word 8)
      | Loading.no_memory ↦ pure (error_word 3)
      | invalid ↦ pure (error_word 2)
    ]

  -- `rounds` is one more than the arguments that are followed at most.
  unfoldable pub isr80h_command7_invoke_system_command : ℕ → Run Machine Control
  isr80h_command7_invoke_system_command rounds = do
    item ← stack_item 0
    task ← current
    root ← gets (task_virtual_address_to_physical task item)
    arguments ← (λ s. Option.map (λ a. (a, s)) (command_arguments rounds root (memory s)))
    invoke arguments

  -- The call through the pointer of a command.
  unfoldable pub run_command : ℕ → Isr80hCommand → Run Machine Control
  run_command rounds command0_sum = isr80h_command0_sum
  run_command rounds command1_print = isr80h_command1_print
  run_command rounds command2_getkey = isr80h_command2_getkey
  run_command rounds command3_putchar = isr80h_command3_putchar
  run_command rounds command4_malloc = isr80h_command4_malloc
  run_command rounds command5_free = isr80h_command5_free
  run_command rounds command6_process_load_start = isr80h_command6_process_load_start
  run_command rounds command7_invoke_system_command = isr80h_command7_invoke_system_command rounds
  run_command rounds command8_get_program_arguments = isr80h_command8_get_program_arguments
  run_command rounds command9_exit = isr80h_command9_exit
