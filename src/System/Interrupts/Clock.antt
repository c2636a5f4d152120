-- ===== src/System/Interrupts/Clock.antt =====
-- The clock: which task runs after it, and with which registers.
use mathlib.Core.Option
use marrow_os.Base.{ℕ, ℕ_discrete, ◌≡◌, ◌≢◌, refl, ap, ◌∙◌, ==_ne, ==_refl, some}
use marrow_os.Base.Run.{>>=-some}
use marrow_os.Idt.{idt_clock}
use marrow_os.Paging.{paging_4gb_chunk_get_directory}
use marrow_os.System.Calls.{entered}
use marrow_os.System.Interrupts.{
  interrupt_handler, call_back, run_callback, enter_next, back_to_task,
}
use marrow_os.System.Tasks.{
  InterruptFrame, kernel_page, task_next, task_switch, task_current_save_state, task_save_state,
  paging_switch,
}
use marrow_os.System.{Machine, memory}
use marrow_os.Task.{task_get_next}

-- What runs after a task.
abbrev pub successor : Machine → ℕ → ℕ
successor s task = task_get_next (record s.tasks { current = task })

-- The task can be switched to.
abbrev pub IsAlive : Machine → ℕ → Type 0
IsAlive s task = (task ≢ 0) × ((s.task task).page_directory ≢ 0)

-- The clock has its callback, and the kernel its directory.
pub record IsClocked (s : Machine) : Type 0 where
  pub callback : s.idt.interrupt_callbacks 0x20 ≡ some idt_clock
  pub chunk : s.kernel_chunk ≢ 0

pub paging_switch-loads :
    (chunk : ℕ) (s : Machine)
    → chunk ≢ 0
    → paging_switch chunk s
      ≡ some (tt, record s { loaded_directory = paging_4gb_chunk_get_directory chunk (memory s) })
unfolding paging_switch
paging_switch-loads chunk s h = rw (==_ne chunk 0 h) refl

pub kernel_page-loads :
    (s : Machine)
    → s.kernel_chunk ≢ 0
    → kernel_page s
      ≡ some (
        tt,
        record s { loaded_directory = paging_4gb_chunk_get_directory s.kernel_chunk (memory s) },
      )
unfolding kernel_page
kernel_page-loads s h = paging_switch-loads s.kernel_chunk s h

pub task_current_save_state-saves :
    (frame : InterruptFrame) (s : Machine)
    → s.tasks.current ≢ 0
    → task_current_save_state frame s ≡ some (tt, task_save_state s.tasks.current frame s)
unfolding task_current_save_state
task_current_save_state-saves frame s h = rw (==_ne s.tasks.current 0 h) refl

-- The machine when a task runs again.
abbrev pub running : ℕ → Machine → Machine
running task s = record s {
  tasks = record s.tasks { current = task };
  loaded_directory = paging_4gb_chunk_get_directory (s.task task).page_directory (memory s);
}

task_next-runs :
    (s : Machine)
    → s.tasks.current ≢ 0
    → IsAlive s (task_get_next s.tasks)
    → task_next s
      ≡ some ((s.task (task_get_next s.tasks)).registers, running (task_get_next s.tasks) s)
unfolding task_next task_switch
task_next-runs s current alive =
    let n = task_get_next s.tasks in
    rw (==_ne s.tasks.current 0 current, ==_ne n 0 alive.0)
      (ap (λ r. Option.map (λ x. ((x.1.task n).registers, x.1)) r)
        (paging_switch-loads (s.task n).page_directory
          (record s { tasks = record s.tasks { current = n } }) alive.1))

pub saved-directory :
    (task p : ℕ) (frame : InterruptFrame) (s : Machine)
    → ((task_save_state task frame s).task p).page_directory ≡ (s.task p).page_directory
unfolding task_save_state
saved-directory task p frame s = elim (ℕ_discrete p task) [
  | yes e ↦ rw (e, ==_refl task) refl
  | no ne ↦ rw (==_ne p task ne) refl
]

-- The kernel's directory is loaded, and the registers are saved.
abbrev pub kept : InterruptFrame → Machine → Machine
kept frame s =
    task_save_state s.tasks.current frame
      (record s { loaded_directory = paging_4gb_chunk_get_directory s.kernel_chunk (memory s) })

-- The machine after an interrupt of the clock.
abbrev pub clocked : InterruptFrame → Machine → Machine
clocked frame s = running (task_get_next s.tasks) (kept frame s)

pub interrupt_handler-clock :
    (scancode : ℕ) (frame : InterruptFrame) (s : Machine)
    → IsClocked s
    → s.tasks.current ≢ 0
    → IsAlive s (task_get_next s.tasks)
    → interrupt_handler scancode 0x20 frame s
      ≡ some (entered ((kept frame s).task (task_get_next s.tasks)).registers, clocked frame s)
unfolding interrupt_handler call_back run_callback enter_next back_to_task task_save_state
interrupt_handler-clock scancode frame s c current alive =
    let n = task_get_next s.tasks in
    let s1 = record s {
      loaded_directory = paging_4gb_chunk_get_directory s.kernel_chunk (memory s);
    } in
    let alive' : IsAlive (kept frame s) n =
      (alive.0, rw (saved-directory s.tasks.current n frame s1) alive.1) in
    >>=-some kernel_page _ s s1 tt (kernel_page-loads s c.chunk)
    ∙ ap (λ callback. call_back scancode frame callback s1) c.callback
    ∙ >>=-some (task_current_save_state frame) _ s1 (kept frame s) tt
        (task_current_save_state-saves frame s1 current)
    ∙ >>=-some (run_callback scancode idt_clock) back_to_task (kept frame s) (clocked frame s) _ (
        >>=-some task_next _ (kept frame s) (clocked frame s) _
          (task_next-runs (kept frame s) current alive'))
