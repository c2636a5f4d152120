-- ===== src/System/Interrupts/Typed.antt =====
-- Keys that are pressed and read in any order: the kernel as a queue of characters.
use marrow_os.Base.{ℕ, ◌≡◌, ◌<◌, ◌∙◌, refl, some, pos, List, [], ◌∷◌, ◌++◌, length, map}
use marrow_os.Base.Run.{Run, pure, ◌>>=◌, >>=-some}
use marrow_os.File.{Mount}
use marrow_os.Keyboard.Classic.{Capslock}
use marrow_os.Keyboard.{buffer_size}
use marrow_os.System.Calls.{Control, returned}
use marrow_os.System.Interrupts.Keys.{
  HasKeys, IsPressed, interrupt_handler-key, isr80h_handler-getkey, isr80h_handler-getkey_empty,
}
use marrow_os.System.Interrupts.{interrupt_handler, isr80h_handler}
use marrow_os.System.Tasks.{InterruptFrame}
use marrow_os.System.{Store, Machine}

-- A key with a scan code, or a call of getkey, each with the frame of the program that it stops.
pub data Event : Type 0 where
  press : ℕ → InterruptFrame → Event
  getkey : InterruptFrame → Event

module _ (mount : Mount Store) (rounds : ℕ) where
  -- The events one after another, with what the calls of getkey return.
  pub run_events : List Event → Run Machine (List Control)
  run_events [] = pure []
  run_events (press scancode frame ∷ events) =
      interrupt_handler scancode 0x21 frame >>= λ _. run_events events
  run_events (getkey frame ∷ events) = do
    c ← isr80h_handler mount rounds (pos 2) frame
    cs ← run_events events
    pure (c ∷ cs)

-- What a queue of characters does on the same events: from the queue to the characters that are read, with
-- 0 where there is none, and the queue that is left. It is never longer than the ring.
pub data Queued (state : Capslock) : List Event → List ℕ → List ℕ → List ℕ → Type 0 where
  finish : (q : List ℕ) → Queued state [] q [] q
  append :
      (scancode c : ℕ) (frame : InterruptFrame) (events : List Event) (q cs q' : List ℕ)
      → IsPressed state scancode c
      → length q < buffer_size
      → Queued state events (q ++ c ∷ []) cs q'
      → Queued state (press scancode frame ∷ events) q cs q'
  take_first :
      (c : ℕ) (frame : InterruptFrame) (events : List Event) (q cs q' : List ℕ)
      → c < 128
      → Queued state events q cs q'
      → Queued state (getkey frame ∷ events) (c ∷ q) (c ∷ cs) q'
  take_none :
      (frame : InterruptFrame) (events : List Event) (cs q' : List ℕ)
      → Queued state events [] cs q'
      → Queued state (getkey frame ∷ events) [] (0 ∷ cs) q'

-- Where the keyboard and getkey are registered, the current task belongs to the process that gets
-- the keys, and the queue is never longer than the ring, any sequence of keys that are pressed
-- and calls of getkey runs to its end: each call returns what a queue of characters gives, 0
-- where it is empty, and the ring holds what is left.
pub run_events-Queued :
    (mount : Mount Store) (rounds p : ℕ) (state : Capslock) (events : List Event) (q cs q' : List ℕ)
    (s : Machine)
    → HasKeys p state q s
    → Queued state events q cs q'
    → (s' : Machine) × (run_events mount rounds events s ≡ some (map returned cs, s'))
      × HasKeys p state q' s'
unfolding run_events
run_events-Queued mount rounds p state [] q _ _ s h (finish _) = (s, refl, h)
run_events-Queued mount rounds p state (press scancode frame ∷ events) q cs q' s h
      (append _ c _ _ _ _ _ pressed room queued) =
    let (s1, run, h1) = interrupt_handler-key p state q scancode c frame s h pressed room in
    let (s2, rest, h2) =
      run_events-Queued mount rounds p state events (q ++ c ∷ []) cs q' s1 h1 queued in
    (s2, >>=-some (interrupt_handler scancode 0x21 frame) _ s s1 (returned 0) run ∙ rest, h2)
run_events-Queued mount rounds p state (getkey frame ∷ events) _ _ q' s h
      (take_first c _ _ q cs _ ascii queued) =
    let (s1, run, h1) = isr80h_handler-getkey mount rounds p state q c frame s h ascii in
    let (s2, rest, h2) = run_events-Queued mount rounds p state events q cs q' s1 h1 queued in
    (
      s2,
      >>=-some (isr80h_handler mount rounds (pos 2) frame) _ s s1 (returned c) run
          ∙ >>=-some (run_events mount rounds events) _ s1 s2 (map returned cs) rest,
      h2,
    )
run_events-Queued mount rounds p state (getkey frame ∷ events) _ _ q' s h
      (take_none _ _ cs _ queued) =
    let (s1, run, h1) = isr80h_handler-getkey_empty mount rounds p state frame s h in
    let (s2, rest, h2) = run_events-Queued mount rounds p state events [] cs q' s1 h1 queued in
    (
      s2,
      >>=-some (isr80h_handler mount rounds (pos 2) frame) _ s s1 (returned 0) run
          ∙ >>=-some (run_events mount rounds events) _ s1 s2 (map returned cs) rest,
      h2,
    )
