-- ===== src/Keyboard.antt =====
-- src/keyboard/keyboard.c and classic.c: the ring of typed keys that each process has, and the
-- interrupt handler that fills it.
pub mod Queue
pub mod Classic
use marrow_os.Base.{
  ℕ, ◌+◌, ◌-◌, ◌%◌, ◌^◌, Option, none, some, List, [], ◌∷◌, ◌++◌, ◌==◌, if◌then◌else◌, get_or, set,
  Bool,
}

abbrev pub buffer_size : ℕ
buffer_size = 1024

-- `struct keyboard_buffer` of process.h. An `int` here is its 32-bit pattern: it indexes the buffer
-- through `size_t`, and counts up with wrap-around.
pub record KeyboardBuffer : Type 0 where
  pub buffer : List ℕ
  pub tail : ℕ
  pub head : ℕ

-- The buffers of the processes, the current process, and the process of the current task.
pub record Keys : Type 0 where
  pub buffers : ℕ → KeyboardBuffer
  pub current_process : Option ℕ
  pub current_task : Option ℕ

abbrev pub with_buffer : Keys → ℕ → KeyboardBuffer → Keys
with_buffer k process b = record k { buffers = λ p. if p == process then b else k.buffers p }

pub keyboard_get_tail_index : KeyboardBuffer → ℕ
keyboard_get_tail_index b = b.tail % buffer_size

-- `tail -= 1`, then the entry there is cleared.
pub keyboard_backspace : KeyboardBuffer → KeyboardBuffer
keyboard_backspace b =
    let b' : KeyboardBuffer = record b { tail = (b.tail + (2 ^ 32 - 1)) % 2 ^ 32 } in
    record b' { buffer = set b'.buffer (keyboard_get_tail_index b') 0 }

-- The key is entered at the tail, whether or not the entry there has been read.
pub push_key : ℕ → KeyboardBuffer → KeyboardBuffer
push_key c b = record b {
  buffer = set b.buffer (keyboard_get_tail_index b) c;
  tail = (b.tail + 1) % 2 ^ 32;
}

pub pop_key : KeyboardBuffer → ℕ × KeyboardBuffer
pop_key b =
    let real_index : ℕ = b.head % buffer_size in
    let c = get_or b.buffer real_index 0 in
    if c == 0
    then (0, b)
    else (c, record b { buffer = set b.buffer real_index 0; head = (b.head + 1) % 2 ^ 32 })

pub keyboard_push : ℕ → Keys → Keys
keyboard_push c k = elim k.current_process [
  | none ↦ k
  | some process ↦ if c == 0 then k else with_buffer k process (push_key c (k.buffers process))
]

pub keyboard_pop : Keys → ℕ × Keys
keyboard_pop k = elim k.current_task [
  | none ↦ (0, k)
  | some process ↦
      let (c, b) = pop_key (k.buffers process) in
      if c == 0 then (0, k) else (c, with_buffer k process b)
]

-- A keyboard driver, by its name, with the result of its `init` (`none` for a null pointer).
pub record Driver : Type 0 where
  pub name : List ℕ
  pub init : Option ℕ

-- The list of drivers from head to last, and what the call returns (`none` for -EINVARG).
pub keyboard_insert : Driver → List Driver → Option ℕ × List Driver
keyboard_insert keyboard drivers = elim keyboard.init [
  | none ↦ (none, drivers)
  | some res ↦ (some res, drivers ++ keyboard ∷ [])
]
