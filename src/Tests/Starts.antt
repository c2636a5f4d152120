-- ===== src/Tests/Starts.antt =====
-- The start of the kernel on the disk of Volume.
use marrow_os.Base.{◌≡◌, refl, ◌+◌, ◌*◌, replicate, List, some, arith}
use marrow_os.Kheap.Room.{Room}
use marrow_os.Keyboard.{Driver}
use marrow_os.System.Boot.Started.{IsStarted, set_up_tables-IsStarted}
use marrow_os.System.Boot.{Image, set_up_tables}
use marrow_os.System.{Machine, kernel}
use marrow_os.Tests.Machines.{free_kernel-Room, two_tasks}
use marrow_os.Tests.Volume.{disk}

abbrev image : Image
image = record {
  gdt_real = 0x500;
  tss = 0x123456;
  disk = disk;
  entries = record {
    interrupt_pointer_table = λ i. 0x100000 + 16 * i;
    idt_zero = 0x110000;
    isr80h_wrapper = 0x110100;
    idtr_descriptors = 0x120000;
  };
  heap_table = replicate 25600 7;
}

set_up_tables-IsStarted_example :
    (keyboards : List Driver) × (s' : Machine) × (set_up_tables image two_tasks
      ≡ some (keyboards, s'))
    × IsStarted s'
    × Room 974 (kernel s')
set_up_tables-IsStarted_example =
    set_up_tables-IsStarted image 974 two_tasks (λ i. refl) (free_kernel-Room 2000 (omega arith))
      refl
