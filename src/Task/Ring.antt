-- ===== src/Task/Ring.antt =====
-- Where a new task stands in the order that src/task/task.c runs tasks in.
use marrow_os.Base.{ℕ, ◌≡◌, ◌≢◌, refl, some, ==_ne, arith}
use marrow_os.Task.{
  Tasks, set_next, set_prev, task_get_next, task_append, task_switch, task_next, task_list_remove,
  task_list_remove,
}

appended : ℕ → Tasks → Tasks
appended task s = record (set_prev task s.tail (set_next s.tail task s)) { tail = task }

task_append-appended : (task : ℕ) (s : Tasks) → s.head ≢ 0 → task_append task s ≡ appended task s
unfolding task_append appended
task_append-appended task s head = rw (==_ne s.head 0 head) refl

next_of-tail :
    (task : ℕ) (s : Tasks)
    → task ≢ 0
    → task_get_next (record (appended task s) { current = s.tail }) ≡ task
unfolding appended task_get_next
next_of-tail task s ne = ground arith

next_of-appended :
    (task : ℕ) (s : Tasks)
    → task ≢ s.tail
    → (s.links task).next ≡ 0
    → task_get_next (record (appended task s) { current = task }) ≡ s.head
unfolding appended task_get_next
next_of-appended task s behind last = ground arith

-- A task that is appended to a list runs behind the task that was last, and the first task runs
-- behind it; the current task and the head stay.
pub task_next-task_append :
    (task : ℕ) (s : Tasks)
    → s.head ≢ 0
    → task ≢ 0
    → task ≢ s.tail
    → (s.links task).next ≡ 0
    → let s' = task_append task s in
      (task_next (record s' { current = s.tail }) ≡ some (record s' { current = task }))
      × (task_next (record s' { current = task }) ≡ some (record s' { current = s.head }))
      × (s'.current ≡ s.current)
      × (s'.head ≡ s.head)
unfolding appended task_next task_switch
task_next-task_append task s head ne behind last = rw (task_append-appended task s head) (
  rw (next_of-tail task s ne, task_next, ==_ne task 0 ne) refl,
  rw (next_of-appended task s behind last, task_next, ==_ne s.head 0 head) refl,
  refl,
  refl,
)

-- Where a task stands between two others, `task_list_remove` makes the one before it lead to the one
-- behind it, but the one behind it still leads back to the removed task.
pub task_list_remove-stale :
    (task : ℕ) (s : Tasks)
    → let prev = (s.links task).prev in
      let next = (s.links task).next in
      prev ≢ 0
      → prev ≢ next
      → (s.links next).prev ≡ task
      → let s' = task_list_remove task s in
        ((s'.links prev).next ≡ next) × ((s'.links next).prev ≡ task)
unfolding task_list_remove
task_list_remove-stale task s ne apart back = (ground arith, ground arith)
