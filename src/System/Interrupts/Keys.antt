-- ===== src/System/Interrupts/Keys.antt =====
-- The way of a key: from the keyboard's interrupt over the ring of a process to the system call getkey.
use mathlib.Core.Option
use marrow_os.Base.{
  ℕ, ◌≡◌, ◌≢◌, ◌<◌, ◌+◌, refl, sym, ap, subst, ◌∙◌, ==_ne, ==_refl, Bool, true, false, some, pos,
  List, [], ◌∷◌, ◌++◌, length, bit_and, ltb, lt→ltb, if◌then◌else◌,
}
use marrow_os.Base.Run.{>>=-some}
use marrow_os.File.{Mount}
use marrow_os.Idt.{classic_keyboard_handle_interrupt, command2_getkey, isr80h_find_command}
use marrow_os.Keyboard.Classic.{
  Capslock, key_released, capslock_scancode, classic_keyboard_scancode_to_char,
  classic_keyboard_handle_interrupt-pushes,
}
use marrow_os.Keyboard.Queue.{
  Holds, push_key-Holds, pop_key-Holds, keyboard_push-push_key, keyboard_pop-pop_key,
  keyboard_pop-empty,
}
use marrow_os.Keyboard.{KeyboardBuffer, buffer_size, with_buffer, push_key, pop_key}
use marrow_os.Paging.{paging_4gb_chunk_get_directory}
use marrow_os.System.Calls.{returned, isr80h_command2_getkey, run_command}
use marrow_os.System.Interrupts.Clock.{
  IsAlive, kept, saved-directory, kernel_page-loads, paging_switch-loads,
  task_current_save_state-saves,
}
use marrow_os.System.Interrupts.{
  interrupt_handler, call_back, run_callback, back_to_task, isr80h_handler, isr80h_handle_command,
  call_command,
}
use marrow_os.System.Tasks.{
  InterruptFrame, kernel_page, task_page, task_switch, task_current_save_state, task_save_state,
}
use marrow_os.System.{Machine, Store, memory, input_of, with_input}

-- The keyboard and getkey are registered, the program of the current task is the one that gets the keys,
-- and its ring holds the keys `q`.
pub record HasKeys (p : ℕ) (state : Capslock) (q : List ℕ) (s : Machine) : Type 0 where
  pub callback : s.idt.interrupt_callbacks 0x21 ≡ some classic_keyboard_handle_interrupt
  pub command : isr80h_find_command (pos 2) s.idt ≡ some command2_getkey
  pub chunk : s.kernel_chunk ≢ 0
  pub alive : IsAlive s s.tasks.current
  pub current_process : s.table.current ≡ some p
  pub task_process : (s.task s.tasks.current).process ≡ p
  pub capslock : s.capslock ≡ state
  pub ring : Holds (s.process p).keyboard q

-- The machine with a ring changed and a directory loaded.
abbrev ringed : ℕ → KeyboardBuffer → Bool → ℕ → Machine → Machine
ringed p b paged directory s =
    record (with_input s
      (record (input_of s) { keys = with_buffer (input_of s).keys p b; on_task_page = paged })) {
        loaded_directory = directory;
      }

HasKeys-ringed :
    (p : ℕ) (state : Capslock) (q q' : List ℕ) (b : KeyboardBuffer) (paged : Bool) (directory : ℕ)
    (s : Machine)
    → HasKeys p state q s
    → Holds b q'
    → HasKeys p state q' (ringed p b paged directory s)
unfolding input_of with_input
HasKeys-ringed p state q q' b paged directory s h v = record {
  callback = h.callback;
  command = h.command;
  chunk = h.chunk;
  alive = h.alive;
  current_process = h.current_process;
  task_process = h.task_process;
  capslock = h.capslock;
  ring = rw (==_refl p) v;
}

HasKeys-kept :
    (p : ℕ) (state : Capslock) (q : List ℕ) (frame : InterruptFrame) (s : Machine)
    → HasKeys p state q s
    → HasKeys p state q (kept frame s)
unfolding task_save_state
HasKeys-kept p state q frame s h = record {
  callback = h.callback;
  command = h.command;
  chunk = h.chunk;
  alive = (h.alive.0, rw (saved-directory s.tasks.current s.tasks.current frame s) h.alive.1);
  current_process = h.current_process;
  task_process = rw (==_refl s.tasks.current) h.task_process;
  capslock = h.capslock;
  ring = h.ring;
}

-- A handler returns to the current task.
back_to_task-returns :
    (v : ℕ) (s : Machine)
    → IsAlive s s.tasks.current
    → back_to_task (returned v) s
      ≡ some (
        returned v,
        record s {
          loaded_directory =
              paging_4gb_chunk_get_directory (s.task s.tasks.current).page_directory (memory s);
        },
      )
unfolding back_to_task task_page task_switch
back_to_task-returns v s alive =
    >>=-some task_page _ s _ tt
      (paging_switch-loads (s.task s.tasks.current).page_directory s alive.1)

-- A key that has a character.
abbrev pub IsPressed : Capslock → ℕ → ℕ → Type 0
IsPressed state scancode c =
    (bit_and scancode key_released ≡ 0)
    × (scancode ≢ capslock_scancode)
    × (classic_keyboard_scancode_to_char state scancode ≡ some c)
    × (c ≢ 0)
    × (c < 128)

run_keyboard :
    (p : ℕ) (state : Capslock) (q : List ℕ) (scancode c : ℕ) (s : Machine)
    → HasKeys p state q s
    → IsPressed state scancode c
    → run_callback scancode classic_keyboard_handle_interrupt s
      ≡ some (returned 0, ringed p (push_key c (s.process p).keyboard) true s.loaded_directory s)
unfolding run_callback input_of with_input
run_keyboard p state q scancode c s h pressed =
    ap (λ r. Option.map (λ input. (returned 0, with_input s input)) r)
      (classic_keyboard_handle_interrupt-pushes scancode c (input_of s) pressed.0 pressed.1
        (subst (λ caps. classic_keyboard_scancode_to_char caps scancode ≡ some c) (sym h.capslock)
          pressed.2)
        pressed.3)
    ∙ ap
        (λ keys.
          some
            (returned 0, with_input s (record (input_of s) { keys = keys; on_task_page = true })))
        (keyboard_push-push_key (input_of s).keys p c h.current_process pressed.3)

-- An interrupt of the keyboard puts the character at the end of the ring.
pub interrupt_handler-key :
    (p : ℕ) (state : Capslock) (q : List ℕ) (scancode c : ℕ) (frame : InterruptFrame) (s : Machine)
    → HasKeys p state q s
    → IsPressed state scancode c
    → length q < buffer_size
    → (s' : Machine) × (interrupt_handler scancode 0x21 frame s ≡ some (returned 0, s'))
      × HasKeys p state (q ++ c ∷ []) s'
unfolding interrupt_handler call_back run_callback task_save_state with_input
interrupt_handler-key p state q scancode c frame s h pressed room =
    let s1 = record s {
      loaded_directory = paging_4gb_chunk_get_directory s.kernel_chunk (memory s);
    } in
    let k = kept frame s in
    let hk = HasKeys-kept p state q frame s h in
    let b = push_key c (k.process p).keyboard in
    let chunk = (k.task s.tasks.current).page_directory in
    let typed = ringed p b true k.loaded_directory k in
    let hs =
      HasKeys-ringed p state q (q ++ c ∷ []) b true k.loaded_directory k hk
        (push_key-Holds (k.process p).keyboard q c hk.ring pressed.3 room) in
    (
      ringed p b true (paging_4gb_chunk_get_directory chunk (memory s)) k,
      >>=-some kernel_page _ s s1 tt (kernel_page-loads s h.chunk)
          ∙ ap (λ callback. call_back scancode frame callback s1) h.callback
          ∙ >>=-some (task_current_save_state frame) _ s1 k tt
              (task_current_save_state-saves frame s1 h.alive.0)
          ∙ >>=-some (run_callback scancode classic_keyboard_handle_interrupt) back_to_task k typed
              (returned 0) (run_keyboard p state q scancode c k hk pressed)
          ∙ back_to_task-returns 0 typed hs.alive,
      HasKeys-ringed p state q (q ++ c ∷ []) b true _ k hk
          (push_key-Holds (k.process p).keyboard q c hk.ring pressed.3 room),
    )

run_getkey :
    (p : ℕ) (state : Capslock) (q : List ℕ) (c : ℕ) (s : Machine)
    → HasKeys p state (c ∷ q) s
    → c < 128
    → isr80h_command2_getkey s
      ≡ some (returned c, ringed p (pop_key (s.process p).keyboard).1 false s.loaded_directory s)
unfolding isr80h_command2_getkey input_of with_input
run_getkey p state q c s h ascii =
    let at : (input_of s).keys.current_task ≡ some p =
      rw (==_ne s.tasks.current 0 h.alive.0) (ap some h.task_process) in
    ap
      (λ r. some (
        returned (if ltb r.0 128 then r.0 else r.0 + 0xffffff00),
        with_input s (record (input_of s) { keys = r.1 }),
      ))
      (keyboard_pop-pop_key (input_of s).keys p c q at h.ring)
    ∙ rw (lt→ltb c 128 ascii) refl

-- The system call getkey takes the first character of the ring.
pub isr80h_handler-getkey :
    (mount : Mount Store) (rounds p : ℕ) (state : Capslock) (q : List ℕ) (c : ℕ)
    (frame : InterruptFrame) (s : Machine)
    → HasKeys p state (c ∷ q) s
    → c < 128
    → (s' : Machine) × (isr80h_handler mount rounds (pos 2) frame s ≡ some (returned c, s'))
      × HasKeys p state q s'
unfolding isr80h_handler isr80h_handle_command call_command run_command task_save_state with_input
isr80h_handler-getkey mount rounds p state q c frame s h ascii =
    let s1 = record s {
      loaded_directory = paging_4gb_chunk_get_directory s.kernel_chunk (memory s);
    } in
    let k = kept frame s in
    let hk = HasKeys-kept p state (c ∷ q) frame s h in
    let b = (pop_key (k.process p).keyboard).1 in
    let left = (pop_key-Holds (k.process p).keyboard q c hk.ring).1 in
    let chunk = (k.task s.tasks.current).page_directory in
    let read = ringed p b false k.loaded_directory k in
    let hs = HasKeys-ringed p state (c ∷ q) q b false k.loaded_directory k hk left in
    (
      ringed p b false (paging_4gb_chunk_get_directory chunk (memory s)) k,
      >>=-some kernel_page _ s s1 tt (kernel_page-loads s h.chunk)
          ∙ >>=-some (task_current_save_state frame) _ s1 k tt
              (task_current_save_state-saves frame s1 h.alive.0)
          ∙ >>=-some (isr80h_handle_command mount rounds (pos 2)) back_to_task k read (returned c) (
              ap (λ command. call_command mount rounds command k) h.command
              ∙ run_getkey p state q c k hk ascii)
          ∙ back_to_task-returns c read hs.alive,
      HasKeys-ringed p state (c ∷ q) q b false _ k hk left,
    )

-- From an empty ring getkey returns 0.
pub isr80h_handler-getkey_empty :
    (mount : Mount Store) (rounds p : ℕ) (state : Capslock) (frame : InterruptFrame) (s : Machine)
    → HasKeys p state [] s
    → (s' : Machine) × (isr80h_handler mount rounds (pos 2) frame s ≡ some (returned 0, s'))
      × HasKeys p state [] s'
unfolding isr80h_handler isr80h_handle_command call_command run_command task_save_state with_input
    input_of isr80h_command2_getkey
isr80h_handler-getkey_empty mount rounds p state frame s h =
    let s1 = record s {
      loaded_directory = paging_4gb_chunk_get_directory s.kernel_chunk (memory s);
    } in
    let k = kept frame s in
    let hk = HasKeys-kept p state [] frame s h in
    let at : (input_of k).keys.current_task ≡ some p =
      rw (==_ne s.tasks.current 0 h.alive.0) (ap some hk.task_process) in
    let chunk = (k.task s.tasks.current).page_directory in
    (
      record k { loaded_directory = paging_4gb_chunk_get_directory chunk (memory s) },
      >>=-some kernel_page _ s s1 tt (kernel_page-loads s h.chunk)
          ∙ >>=-some (task_current_save_state frame) _ s1 k tt
              (task_current_save_state-saves frame s1 h.alive.0)
          ∙ >>=-some (isr80h_handle_command mount rounds (pos 2)) back_to_task k k (returned 0) (
              ap (λ command. call_command mount rounds command k) h.command
              ∙ ap
                  (λ r. some (
                    returned (if ltb r.0 128 then r.0 else r.0 + 0xffffff00),
                    with_input k (record (input_of k) { keys = r.1 }),
                  ))
                  (keyboard_pop-empty (input_of k).keys p at hk.ring))
          ∙ back_to_task-returns 0 k hk.alive,
      record {
        callback = hk.callback;
        command = hk.command;
        chunk = hk.chunk;
        alive = hk.alive;
        current_process = hk.current_process;
        task_process = hk.task_process;
        capslock = hk.capslock;
        ring = hk.ring;
      },
    )
