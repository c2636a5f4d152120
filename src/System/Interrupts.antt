-- ===== src/System/Interrupts.antt =====
-- The handlers of src/idt/idt.c: what happens on an interrupt and on a system call.
pub mod Clock
pub mod Keys
pub mod Turns
pub mod Typed
pub mod Unknown
use mathlib.Core.Option
use marrow_os.Base.{ℕ, Option, none, some, ℤ, pos, get_or}
use marrow_os.Base.Run.{Run, pure, fault, ◌>>=◌, ◌>>◌}
use marrow_os.File.{Mount}
use marrow_os.Idt.{
  InterruptCallback, Isr80hCommand, idt_handle_exception, idt_clock,
  classic_keyboard_handle_interrupt, isr80h_find_command,
}
use marrow_os.Keyboard.Classic
use marrow_os.Kheap.{Kernel}
use marrow_os.System.Calls.{Control, returned, entered, current_process, run_command}
use marrow_os.System.Processes.{process_terminate}
use marrow_os.System.Tasks.{
  InterruptFrame, kernel_page, task_page, task_next, task_current_save_state,
}
use marrow_os.System.{Machine, Store, input_of, with_input, gets}

-- `task_next` in a handler that does not return.
unfoldable pub enter_next : Run Machine Control
enter_next = do registers ← task_next; pure (entered registers)

-- The call through the pointer of a callback; `scancode` is what the keyboard's port gives. The end of the
-- interrupt that the clock signals is a port write.
unfoldable pub run_callback : ℕ → InterruptCallback → Run Machine Control
run_callback scancode idt_handle_exception = do
  process ← current_process
  process_terminate process
  enter_next
run_callback scancode idt_clock = enter_next
run_callback scancode classic_keyboard_handle_interrupt = λ s.
    Option.map (λ input. (returned 0, with_input s input))
      (Classic.classic_keyboard_handle_interrupt scancode (input_of s))

-- What a handler does when its callee returns.
unfoldable pub back_to_task : Control → Run Machine Control
back_to_task (returned v) = task_page >> pure (returned v)
back_to_task (entered registers) = pure (entered registers)

-- The test of `interrupt_handler` for the callback of an interrupt, and what follows it.
unfoldable pub call_back : ℕ → InterruptFrame → Option InterruptCallback → Run Machine Control
call_back scancode frame none = back_to_task (returned 0)
call_back scancode frame (some callback) = do
  task_current_save_state frame
  res ← run_callback scancode callback
  back_to_task res

unfoldable pub interrupt_handler : ℕ → ℕ → InterruptFrame → Run Machine Control
interrupt_handler scancode interrupt frame = do
  kernel_page
  callback ← gets (λ s. s.idt.interrupt_callbacks interrupt)
  call_back scancode frame callback

module _ (mount : Mount Store) where
  -- The call of a command that was found.
  unfoldable pub call_command : ℕ → Option Isr80hCommand → Run Machine Control
  call_command rounds none = pure (returned 0)
  call_command rounds (some command_func) = run_command mount rounds command_func

  unfoldable pub isr80h_handle_command : ℕ → ℤ → Run Machine Control
  isr80h_handle_command rounds command = do
    command_func ← gets (λ s. isr80h_find_command command s.idt)
    call_command rounds command_func

  unfoldable pub isr80h_handler : ℕ → ℤ → InterruptFrame → Run Machine Control
  isr80h_handler rounds command frame = do
    kernel_page
    task_current_save_state frame
    res ← isr80h_handle_command rounds command
    back_to_task res
