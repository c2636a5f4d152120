-- ===== src/Tests/Programs.antt =====
-- Processes and open files over a heap of eight free blocks at 1 MiB.
use mathlib.Core.Option
use marrow_os.Task.{Links, Tasks, task_list_remove}
use marrow_os.Task.Ring.{task_list_remove-stale}
use marrow_os.Base.{◌==◌, if◌then◌else◌}
use marrow_os.Base.{
  ℕ, suc, ◌+◌, ◌*◌, ◌≤◌, ◌<◌, ◌≡◌, ◌≢◌, refl, ap, true, false, Option, none, some, [], ◌∷◌,
  length-replicate, replicate, set, pos, arith,
}
use marrow_os.Heap.{
  block_size, heap_get_entry_type, heap_free, heap_address_to_block, heap_mark_blocks_free,
  mark_free,
}
use marrow_os.Heap.FirstFit.{first_fit, run_free}
use marrow_os.Heap.Segments.{gaps, IsFormed}
use marrow_os.Heap.Malloc.{more_blocks}
use marrow_os.Kheap.{Kernel, kfree}
use marrow_os.Kheap.Room.{Room, kernel_allocator}
use marrow_os.Process.{
  ProcessAllocation, no_allocation, Process, free_allocation_from, allocation_at,
  process_find_free_allocation_index, process_get_allocation_by_addr, process_malloc, process_free,
}
use marrow_os.Process.Allocations.{process_free-process_malloc, process_free-null}
use marrow_os.Process.Table.{
  Table, free_slot_from, used_slot_from, process_switch_to_any, process_switch,
  process_get_free_slot, process_unlink,
}
use marrow_os.File.{
  Filesystem, FileDescriptor, Files, free_slot, max_file_descriptors, file_get_descriptor,
  file_new_descriptor, fclose,
}
use marrow_os.File.Descriptors.{IsTable, file_get_descriptor-file_new_descriptor, fclose-closes}

abbrev kernel : Kernel
kernel = record {
  heap = record { table = record { entries = replicate 8 0; total = 8 }; saddr = 0x100000 };
  mem = λ p. 0;
}

kernel-IsFormed : IsFormed kernel.heap (gaps 8)
kernel-IsFormed = record {
  entries_eq = refl;
  total_eq = refl;
  space = omega arith;
  reach = omega arith;
}

fits : first_fit kernel.heap.table.entries (suc (more_blocks 5000)) 0 ≡ some 0
unfolding first_fit run_free heap_get_entry_type
fits = refl

abbrev taken : ProcessAllocation
taken = record { ptr = 0x2000000; size = 4096 }

-- One entry in use, one cleared.
abbrev process : Process
process = record { allocations = taken ∷ (no_allocation ∷ []); page_directory = 0x80000 }

abbrev full_process : Process
full_process = record process { allocations = taken ∷ [] }

no_entry : process_find_free_allocation_index full_process ≡ none
unfolding process_find_free_allocation_index free_allocation_from
no_entry = refl

entry : process_find_free_allocation_index process ≡ some 1
unfolding process_find_free_allocation_index free_allocation_from
entry = refl

fresh : process_get_allocation_by_addr process (0x100000 + 0 * block_size) ≡ none
unfolding process_get_allocation_by_addr allocation_at
fresh = refl

null_entry : process_get_allocation_by_addr process 0 ≡ some no_allocation
unfolding process_get_allocation_by_addr allocation_at
null_entry = refl

process_free-process_malloc_example :
    (process' : Process) × (k' : Kernel) × (k'' : Kernel) × (process_malloc 5000 process kernel
      ≡ some (0x100000, process', k'))
    × (process_get_allocation_by_addr process' 0x100000
        ≡ some (record { ptr = 0x100000; size = 5000 }))
    × (process_free process' 0x100000 k'
        ≡ some (record process { allocations = set process.allocations 1 no_allocation }, k''))
    × (k''.heap ≡ kernel.heap)
process_free-process_malloc_example =
    process_free-process_malloc 5000 0 1 process kernel (gaps 8) kernel-IsFormed (omega arith) refl
      (omega arith) (omega arith) (omega arith) fits entry fresh

process_free-null_example : process_free process 0 kernel ≡ none
process_free-null_example = process_free-null process kernel null_entry (omega arith) (omega arith)

-- Slots 0 and 2 in use, and the process in slot 2 is the current one.
abbrev table : Table
table = record { processes = true ∷ (false ∷ (true ∷ (false ∷ []))); current = some 2 }

slot : process_get_free_slot table ≡ some 1
unfolding process_get_free_slot free_slot_from
slot = refl

abbrev unlinked : Table
unlinked = record { processes = true ∷ (false ∷ (false ∷ (false ∷ []))); current = some 0 }

unlinks : process_unlink 2 table ≡ some unlinked
unfolding process_unlink process_switch_to_any process_switch used_slot_from
unlinks = refl

-- A file system that does nothing.
abbrev idle : Filesystem Kernel
idle = record {
  resolve = λ disk s. some (pos 0, s);
  open_file = λ disk path mode s. some (0x2000, s);
  read = λ disk private_data size nmemb s. some ((pos nmemb, []), s);
  seek = λ private_data offset whence s. some (pos 0, s);
  stat = λ disk private_data s. some ((pos 0, []), s);
  close = λ private_data s. some (pos 0, s);
}

abbrev files : Files Kernel
files = record { descriptors = replicate 512 none; state = kernel }

files-IsTable : IsTable files
files-IsTable = length-replicate {A = Option (FileDescriptor Kernel)} 512 none

first_slot : free_slot files.descriptors 0 ≡ some 0
unfolding free_slot
first_slot = refl

kernel-Room : Room 4 kernel
kernel-Room = record {
  segs = gaps 8;
  formed = kernel-IsFormed;
  above_zero = omega arith;
  enough = omega arith;
}

file_get_descriptor-file_new_descriptor_example :
    (d : FileDescriptor Kernel) × (f' : Files Kernel) × (file_new_descriptor kernel_allocator idle
        0x2000 0x9000 files
      ≡ some (some d, f'))
    × (d.private_data ≡ 0x2000)
    × (0 < d.index)
    × (d.index ≤ max_file_descriptors)
    × (file_get_descriptor (pos d.index) files ≡ none)
    × (file_get_descriptor (pos d.index) f' ≡ some d)
    × ((fd : ℕ)
        → fd ≢ d.index
        → file_get_descriptor (pos fd) f' ≡ file_get_descriptor (pos fd) files)
    × IsTable f'
file_get_descriptor-file_new_descriptor_example =
    file_get_descriptor-file_new_descriptor kernel_allocator 3 0 files idle 0x2000 0x9000
      files-IsTable kernel-Room first_slot

abbrev open_file : FileDescriptor Kernel
open_file = record {
  node = 0x100000;
  index = 1;
  filesystem = idle;
  private_data = 0x2000;
  disk = 0x9000;
}

abbrev one_open : Files Kernel
one_open = record { descriptors = some open_file ∷ replicate 511 none; state = kernel }

one_open-IsTable : IsTable one_open
one_open-IsTable = ap suc (length-replicate {A = Option (FileDescriptor Kernel)} 511 none)

opened : file_get_descriptor (pos 1) one_open ≡ some open_file
unfolding file_get_descriptor
opened = refl

-- The heap takes back a block that is free.
taken_back : kernel_allocator.kfree 0x100000 kernel ≡ some kernel
unfolding kfree heap_free heap_address_to_block heap_mark_blocks_free mark_free Option.bind
taken_back = refl

fclose-closes_example :
    (f' : Files Kernel) × (fclose kernel_allocator (pos 1) one_open ≡ some (pos 0, f'))
    × (f'.state ≡ kernel)
    × (file_get_descriptor (pos 1) f' ≡ none)
    × ((fd : ℕ) → fd ≢ 1 → file_get_descriptor (pos fd) f' ≡ file_get_descriptor (pos fd) one_open)
fclose-closes_example =
    fclose-closes kernel_allocator 0 one_open open_file kernel kernel one_open-IsTable (omega arith)
      refl opened refl taken_back

-- Tasks at 0x10, 0x20 and 0x30 in this order, and one at 0x40 that is in no list.
three_links : ℕ → Links
three_links p =
    if p == 0x10
    then record { next = 0x20; prev = 0 }
    else (if p == 0x20
        then record { next = 0x30; prev = 0x10 }
        else (if p == 0x30
            then record { next = 0; prev = 0x20 }
            else record { next = 0; prev = 0 }))

three : Tasks
three = record { links = three_links; head = 0x10; tail = 0x30; current = 0x20 }

unlinked_task : (three.links 0x40).next ≡ 0
unfolding three three_links
unlinked_task = refl

three_head : three.head ≢ 0
unfolding three
three_head = omega arith

three_tail : 0x40 ≢ three.tail
unfolding three
three_tail = omega arith

middle : ((three.links 0x20).prev ≢ 0) × ((three.links 0x20).prev ≢ (three.links 0x20).next)
unfolding three three_links
middle = (omega arith, omega arith)

leads_back : (three.links (three.links 0x20).next).prev ≡ 0x20
unfolding three three_links
leads_back = refl

task_list_remove-stale_example :
    (((task_list_remove 0x20 three).links (three.links 0x20).prev).next ≡ (three.links 0x20).next)
    × (((task_list_remove 0x20 three).links (three.links 0x20).next).prev ≡ 0x20)
task_list_remove-stale_example = task_list_remove-stale 0x20 three middle.0 middle.1 leads_back
