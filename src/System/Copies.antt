-- ===== src/System/Copies.antt =====
-- Reads of a task's memory in src/task/task.c: through the task's page directory, while it is loaded.
use mathlib.Core.Option
use marrow_os.Base.{
  ℕ, zero, suc, ◌+◌, ◌-◌, ◌*◌, bit_and, leb, Option, none, some, List, [], ◌∷◌, ◌==◌, if◌then◌else◌,
}
use marrow_os.Base.Run.{Run, pure, ◌>>=◌, ◌>>◌}
use marrow_os.CString.{strncpy}
use marrow_os.Kheap.{kzalloc, kfree}
use marrow_os.Memory.{Mem, address, update}
use marrow_os.Paging.{
  all_ok, einvarg, page_size, paging_get, paging_set, paging_map, paging_get_physical_address,
  paging_4gb_chunk_get_directory, paging_align_to_lower_page,
}
use marrow_os.Process.{map_flags}
use marrow_os.System.{Machine, memory, with_kernel, kernel, on_kernel, modify, gets}
use marrow_os.System.Tasks.{paging_switch, kernel_page, task_page_task}

-- The byte at a virtual address; a page that is not present is a fault.
unfoldable pub read_virtual : ℕ → ℕ → Mem → Option ℕ
read_virtual directory virt m =
    if bit_and (paging_get directory (paging_align_to_lower_page virt) m) 1 == 0
    then none
    else some (m (paging_get_physical_address directory virt m))

-- The loop of `strncpy` from a virtual address, with `left` rounds to go; `dest` is mapped to itself.
unfoldable pub strncpy_virtual : ℕ → ℕ → ℕ → ℕ → Mem → Option Mem
strncpy_virtual zero directory dest virt m = some (update m (address dest) 0)
strncpy_virtual (suc left) directory dest virt m = Option.bind (read_virtual directory virt m) λ c.
    let more =
      strncpy_virtual left directory (dest + 1) (address (virt + 1)) (update m (address dest) c) in
    if c == 0 then some (update m (address dest) 0) else more

-- The text at an address, of which no more than `left` bytes are read.
unfoldable pub text_at : ℕ → ℕ → Mem → List ℕ
text_at zero p m = []
text_at (suc left) p m =
    let more = text_at left (p + 1) m in if m (address p) == 0 then [] else m (address p) ∷ more

-- What `copy_string_from_task` leaves in a buffer, or -EINVARG, -ENOMEM, -EIO.
pub data Copied : Type 0 where
  copied : List ℕ → Copied
  too_long no_memory input_output : Copied

-- Behind the copy to `tmp`, under the kernel's directory.
unfoldable pub copy_out_of : ℕ → ℕ → ℕ → List ℕ → ℕ → Run Machine Copied
copy_out_of directory tmp old_entry phys max s =
    let (res, mem) = paging_set directory tmp old_entry (memory s) in
    let s' = with_kernel s (record (kernel s) { mem = mem }) in
    elim res [
      | einvarg ↦ some (input_output, s')
      | all_ok ↦ Option.map (λ text. (copied text, s')) (strncpy phys (text_at max tmp mem) max)
    ]

-- The results of `paging_map` and `strncpy` are not read.
unfoldable pub copy_string_from_task : ℕ → ℕ → List ℕ → ℕ → Run Machine Copied
copy_string_from_task task virt phys max = if leb page_size max then pure too_long else do
  tmp ← on_kernel (kzalloc max)
  if tmp == 0 then pure no_memory else do
    chunk ← gets (λ s. (s.task task).page_directory)
    directory ← gets (λ s. paging_4gb_chunk_get_directory chunk (memory s))
    old_entry ← gets (λ s. paging_get directory tmp (memory s))
    modify λ s.
        with_kernel s
          (record (kernel s) { mem = (paging_map chunk tmp tmp map_flags (memory s)).1 })
    paging_switch chunk
    (λ s.
        Option.map (λ mem. (tt, with_kernel s (record (kernel s) { mem = mem })))
          (strncpy_virtual (max - 1) directory tmp virt (memory s)))
    kernel_page
    res ← copy_out_of directory tmp old_entry phys max
    on_kernel (λ k. Option.map (λ k'. (tt, k')) (kfree tmp k))
    pure res

-- A word through the directory that is loaded.
unfoldable pub read_virtual_word : ℕ → ℕ → Mem → Option ℕ
read_virtual_word directory virt m = Option.bind (read_virtual directory virt m) λ b0.
    Option.bind (read_virtual directory (address (virt + 1)) m) λ b1.
      Option.bind (read_virtual directory (address (virt + 2)) m) λ b2.
        Option.map (λ b3. b0 + 256 * b1 + 65536 * b2 + 16777216 * b3)
          (read_virtual directory (address (virt + 3)) m)

unfoldable pub task_get_stack_item : ℕ → ℕ → Run Machine ℕ
task_get_stack_item task index = do
  sp_ptr ← gets (λ s. (s.task task).registers.esp)
  task_page_task task
  result ← (λ s.
      Option.map (λ v. (v, s))
        (read_virtual_word s.loaded_directory (address (sp_ptr + 4 * index)) (memory s)))
  kernel_page
  pure result

unfoldable pub task_virtual_address_to_physical : ℕ → ℕ → Machine → ℕ
task_virtual_address_to_physical task virtual_address s =
    paging_get_physical_address
      (paging_4gb_chunk_get_directory (s.task task).page_directory (memory s)) virtual_address
      (memory s)
