-- ===== src/Tests/Keys.antt =====
-- A machine with a keyboard.
use marrow_os.Base.{
  ℕ, ◌≡◌, ◌%◌, ◌+◌, ◌==◌, refl, arith, none, some, List, [], ◌∷◌, map, replicate, length-replicate,
  if◌then◌else◌,
}
use marrow_os.Idt.{classic_keyboard_handle_interrupt, command2_getkey, isr80h_find_command}
use marrow_os.Keyboard.Classic.{off, fold_case, classic_keyboard_scancode_to_char}
use marrow_os.Keyboard.Queue.{Holds}
use marrow_os.Keyboard.{KeyboardBuffer, buffer_size}
use marrow_os.System.Calls.{returned}
use marrow_os.System.Interrupts.Keys.{HasKeys, IsPressed}
use marrow_os.System.Interrupts.Typed.{
  Event, press, getkey, run_events, append, take_first, take_none, finish, run_events-Queued,
}
use marrow_os.System.{Machine}
use marrow_os.Tests.Devices.{get_or-zeros}
use marrow_os.Tests.Machines.{two_tasks, frame_at}

abbrev no_keys : KeyboardBuffer
no_keys = record { buffer = replicate 1024 0; tail = 0; head = 0 }

no_keys-Holds : Holds no_keys []
no_keys-Holds = record {
  size = length-replicate {A = ℕ} 1024 0;
  fits = omega arith;
  keys = tt;
  ends = refl;
  entries = λ i h. get_or-zeros 1024 ((0 + i) % buffer_size);
}

-- The first task belongs to the current process, which has pressed no key yet.
abbrev with_keyboard : Machine
with_keyboard = record two_tasks {
  table = record two_tasks.table { current = some 0 };
  process = λ p. record (two_tasks.process p) { keyboard = no_keys };
  idt = record two_tasks.idt {
    interrupt_callbacks = λ i. if i == 0x21 then some classic_keyboard_handle_interrupt else none;
    isr80h_commands = λ i. if i == 2 then some command2_getkey else none;
  };
}

with_keyboard-HasKeys : HasKeys 0 off [] with_keyboard
unfolding isr80h_find_command
with_keyboard-HasKeys = record {
  callback = refl;
  command = refl;
  chunk = omega arith;
  alive = (omega arith, omega arith);
  current_process = refl;
  task_process = refl;
  capslock = refl;
  ring = no_keys-Holds;
}

typed_a : IsPressed off 0x1e b'a'
unfolding classic_keyboard_scancode_to_char fold_case
typed_a = (refl, omega arith, refl, omega arith, omega arith)

typed_b : IsPressed off 0x30 b'b'
unfolding classic_keyboard_scancode_to_char fold_case
typed_b = (refl, omega arith, refl, omega arith, omega arith)

-- The keys a and b are pressed, and getkey is called three times, once between them.
abbrev keys_and_calls : List Event
keys_and_calls =
    press 0x1e (frame_at 0x400100)
    ∷ getkey (frame_at 0x400104)
    ∷ getkey (frame_at 0x400108)
    ∷ press 0x30 (frame_at 0x400110)
    ∷ getkey (frame_at 0x400114)
    ∷ []

run_events-Queued_example :
    (s' : Machine) × (run_events
        (record { address = 0; filesystem = none })
        1
        keys_and_calls
        with_keyboard
      ≡ some (map returned (b'a' ∷ 0 ∷ b'b' ∷ []), s'))
    × HasKeys 0 off [] s'
run_events-Queued_example =
    run_events-Queued (record { address = 0; filesystem = none }) 1 0 off keys_and_calls []
      (b'a' ∷ 0 ∷ b'b' ∷ []) [] with_keyboard with_keyboard-HasKeys
      (append _ _ _ _ _ _ _ typed_a (omega arith) (
        take_first _ _ _ _ _ _ (omega arith) (
          take_none _ _ _ _ (
            append _ _ _ _ _ _ _ typed_b (omega arith)
              (take_first _ _ _ _ _ _ (omega arith) (finish _))))))
