-- ===== src/Task.antt =====
-- The task list of src/task/task.c: nodes linked both ways in a store, since the list is changed through
-- pointers.
pub mod Ring
use marrow_os.Base.{ℕ, Option, none, some, ◌==◌, if◌then◌else◌}

-- The links of `struct task`; 0 is the null pointer.
pub record Links : Type 0 where
  pub next : ℕ
  pub prev : ℕ

-- `task_head`, `task_tail` and `current_task`, with the links at each address.
pub record Tasks : Type 0 where
  pub links : ℕ → Links
  pub head : ℕ
  pub tail : ℕ
  pub current : ℕ

abbrev pub set_next : ℕ → ℕ → Tasks → Tasks
set_next task next s = record s {
  links = λ p. if p == task then record (s.links p) { next = next } else s.links p;
}

abbrev pub set_prev : ℕ → ℕ → Tasks → Tasks
set_prev task prev s = record s {
  links = λ p. if p == task then record (s.links p) { prev = prev } else s.links p;
}

unfoldable pub task_get_next : Tasks → ℕ
task_get_next s = let next = (s.links s.current).next in if next == 0 then s.head else next

-- The store through `task->prev` is skipped where it is null; `next->prev` is not changed.
pub task_list_remove : ℕ → Tasks → Tasks
task_list_remove task s =
    let prev = (s.links task).prev in
    let next = (s.links task).next in
    let bridged = if prev == 0 then s else set_next prev next s in
    let headed : Tasks = if task == s.head then record bridged { head = next } else bridged in
    let tailed : Tasks = if task == s.tail then record headed { tail = prev } else headed in
    if task == s.current then record tailed { current = task_get_next tailed } else tailed

-- The end of `task_new`, for a task whose links are cleared.
pub task_append : ℕ → Tasks → Tasks
task_append task s =
    if s.head == 0
    then record s { head = task; tail = task; current = task }
    else let linked = set_prev task s.tail (set_next s.tail task s) in record linked { tail = task }

-- `task_switch` up to the load of the page directory, and `task_next`; `none` is the panic.
pub task_switch : ℕ → Tasks → Tasks
task_switch task s = record s { current = task }

pub task_next : Tasks → Option Tasks
task_next s =
    let next_task = task_get_next s in
    if next_task == 0 then none else some (task_switch next_task s)
