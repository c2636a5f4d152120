-- ===== src/System/Interrupts/Unknown.antt =====
-- A system call with a number that has no command.
use marrow_os.Base.{
  ℕ, ◌≡◌, ◌≢◌, refl, ap, ◌∙◌, some, none, ℤ, pos, negsuc, ◌⊎◌, inl, inr, ◌≤◌, arith, le→leb,
}
use marrow_os.Base.Run.{>>=-some}
use marrow_os.File.{Mount}
use marrow_os.Idt.{Idt, isr80h_find_command, max_isr80h_commands}
use marrow_os.Paging.{paging_4gb_chunk_get_directory}
use marrow_os.System.Calls.{returned}
use marrow_os.System.Interrupts.{isr80h_handler, isr80h_handle_command, call_command, back_to_task}
use marrow_os.System.Interrupts.Clock.{
  kept, kernel_page-loads, task_current_save_state-saves, paging_switch-loads, saved-directory,
}
use marrow_os.System.Tasks.{
  InterruptFrame, kernel_page, task_page, task_switch, task_current_save_state, task_save_state,
}
use marrow_os.System.{Machine, Store, memory}

-- A number below 0, one behind the table of 1024 commands, or one that has no command.
abbrev pub IsUnknown : ℤ → Idt → Type 0
IsUnknown (negsuc n) t = Unit
IsUnknown (pos command) t = (1024 ≤ command) ⊎ (t.isr80h_commands command ≡ none)

find_command-unknown :
    (command : ℤ) (t : Idt) → IsUnknown command t → isr80h_find_command command t ≡ none
unfolding isr80h_find_command
find_command-unknown (negsuc n) t h = refl
find_command-unknown (pos command) t (inl behind) =
    rw (le→leb max_isr80h_commands command behind) refl
find_command-unknown (pos command) t (inr free) = ground (arith, free)

-- Where the number of a system call has no command in the table of 1024, is below 0 or is behind
-- the table, and the kernel and the current task have directories, isr80h_handler returns 0: the
-- registers of the task are saved and its directory is loaded, and all else is as before.
pub isr80h_handler-unknown :
    (mount : Mount Store) (rounds : ℕ) (command : ℤ) (frame : InterruptFrame) (s : Machine)
    → IsUnknown command s.idt
    → s.kernel_chunk ≢ 0
    → s.tasks.current ≢ 0
    → (s.task s.tasks.current).page_directory ≢ 0
    → isr80h_handler mount rounds command frame s
      ≡ some (
        returned 0,
        record (task_save_state s.tasks.current frame s) {
          loaded_directory =
              paging_4gb_chunk_get_directory (s.task s.tasks.current).page_directory (memory s);
        },
      )
unfolding isr80h_handler isr80h_handle_command call_command back_to_task task_page task_switch
    task_save_state
isr80h_handler-unknown mount rounds command frame s unknown chunk current alive =
    let s1 = record s {
      loaded_directory = paging_4gb_chunk_get_directory s.kernel_chunk (memory s);
    } in
    >>=-some kernel_page _ s s1 tt (kernel_page-loads s chunk)
    ∙ >>=-some (task_current_save_state frame) _ s1 (kept frame s) tt
        (task_current_save_state-saves frame s1 current)
    ∙ >>=-some (isr80h_handle_command mount rounds command) back_to_task (kept frame s)
        (kept frame s) (returned 0)
        (ap (λ c. call_command mount rounds c (kept frame s))
          (find_command-unknown command s.idt unknown))
    ∙ >>=-some task_page _ (kept frame s) _ tt (
        paging_switch-loads ((kept frame s).task s.tasks.current).page_directory (kept frame s)
          (rw (saved-directory s.tasks.current s.tasks.current frame s1) alive)
        ∙ ap
            (λ d. some (
              tt,
              record (kept frame s) {
                loaded_directory = paging_4gb_chunk_get_directory d (memory s);
              },
            ))
            (saved-directory s.tasks.current s.tasks.current frame s1))
