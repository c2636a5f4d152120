-- ===== src/Tests/Disks.antt =====
-- The FAT16 file system on the disk of Volume.
use marrow_os.Allocator.{Allocator}
use marrow_os.Base.{
  ℕ, zero, suc, ◌+◌, ◌*◌, ◌<◌, ◌≡◌, ◌≢◌, refl, false, if◌then◌else◌, ◌==◌, Option, none, some, List,
  [], ◌∷◌, ◌++◌, replicate, length-replicate, take, drop, arith, pos,
}
use marrow_os.Base.Run.{◌>>=◌}
use marrow_os.CString.{tolower}
use marrow_os.PathParser.Scan.{IsName}
use marrow_os.PathParser.RoundTrip.{format}
use marrow_os.Kheap.{Kernel}
use marrow_os.Kheap.Low.{low_allocator, kzalloc-low}
use marrow_os.Streamer.{Disk}
use marrow_os.Streamer.Stream.{disk_byte, disk_bytes}
use marrow_os.File.{Files, FileDescriptor, fopen, fread, free_slot}
use marrow_os.File.Descriptors.{IsTable}
use marrow_os.File.Opens.{mounted, read_mode}
use marrow_os.Fat16.{ok}
use marrow_os.Fat16.Chain.{fat16_get_first_cluster, fat16_read_internal}
use marrow_os.Fat16.Chain.Contents.{file_bytes}
use marrow_os.Fat16.Chain.Reads.{fat16_read_internal-contents, fat16_read_internal-runs_over}
use marrow_os.Fat16.Names.{ends_field}
use marrow_os.Fat16.Names.Trimmed.{trimmed, with_dot, full_name}
use marrow_os.Fat16.Directory.{fat16_get_total_items_for_directory}
use marrow_os.Fat16.Directory.Count.{used_items, fat16_get_total_items_for_directory-used_items}
use marrow_os.Fat16.Items.{is_subdirectory, ItemCopy}
use marrow_os.Fat16.Items.Lookup.{HasFields, SameName, IsPart}
use marrow_os.Fat16.Items.Found.{IsFirst, IsMissing}
use marrow_os.Fat16.Files.{FatState, FatFileDescriptor, put, fat16_seek, fat16_read}
use marrow_os.Fat16.Files.Reading.{file_at}
use marrow_os.Fat16.Files.Seeking.{seek_set, fat16_read-fat16_seek}
use marrow_os.Fat16.Mount.{fat16_fs}
use marrow_os.Fat16.Mount.Shared.{fat_allocator}
use marrow_os.Fat16.Mount.Whole.{fread-fopen, fopen-fat16_missing}
use marrow_os.Tests.Volume.{
  heap, heap-LowRoom, disk, item, root, fs_private, fs_private-IsMounted, chain, contents_length,
}

fat16_read_internal-contents_example :
    fat16_read_internal disk fs_private 2 512 300
    ≡ some (ok (take 300 (drop 512 (file_bytes disk fs_private (2 ∷ (4 ∷ []))))))
fat16_read_internal-contents_example =
    fat16_read_internal-contents disk fs_private fs_private-IsMounted 2 (4 ∷ []) chain 1 300
      (omega arith) (omega (arith, contents_length)) (omega (arith, contents_length))

-- From offset 500 of cluster 2, 100 bytes: the last 88 are of cluster 3, which the file does not have.
fat16_read_internal-runs_over_example :
    fat16_read_internal disk fs_private 2 500 100
    ≡ some (ok (disk_bytes disk (3 * 512 + 500) 12 ++ disk_bytes disk (4 * 512) 88))
fat16_read_internal-runs_over_example =
    fat16_read_internal-runs_over disk fs_private fs_private-IsMounted 2 (4 ∷ []) chain 500 100 2
      (4 ∷ []) refl (omega arith) (omega arith) (omega arith) (omega arith) (omega arith)

-- Two items, of which one is deleted, before the first that starts with 0.
abbrev two_items : Disk
two_items = record {
  address = 0x5000;
  sector = λ lba i. if lba == 2 then (if i == 0 then 0x41 else if i == 32 then 0xe5 else 0) else 0;
}

in_use : (m : ℕ) → m < 2 → disk_byte two_items (2 * 512 + 32 * m) ≢ 0
unfolding disk_byte
in_use zero h = λ e. omega arith
in_use (suc zero) h = λ e. omega arith
in_use (suc (suc m)) h = absurd (omega arith)

ended : disk_byte two_items (2 * 512 + 32 * 2) ≡ 0
unfolding disk_byte
ended = refl

fat16_get_total_items_for_directory-used_items_example :
    fat16_get_total_items_for_directory two_items fs_private 2
    ≡ some (ok (used_items two_items (2 * 512) 2))
fat16_get_total_items_for_directory-used_items_example =
    fat16_get_total_items_for_directory-used_items two_items fs_private 2 2 refl (omega arith)
      in_use ended

abbrev name : List ℕ
name = b'a' ∷ (b'.' ∷ (b't' ∷ (b'x' ∷ (b't' ∷ []))))

name_plain : IsName name
name_plain = (
  (λ e. cc),
  (
    omega arith,
    omega arith,
    (
      omega arith,
      omega arith,
      (omega arith, omega arith, (omega arith, omega arith, (omega arith, omega arith, tt))),
    ),
  ),
)

name-IsPart : IsPart name
name-IsPart = record {
  text = (omega arith, (omega arith, (omega arith, (omega arith, (omega arith, tt)))));
  fits = omega arith;
}

item-HasFields : HasFields item
item-HasFields = record { filename = omega arith; ext = omega arith }

item-SameName : SameName item name
unfolding full_name trimmed with_dot ends_field tolower
item-SameName = refl

item-IsFirst : IsFirst root name item
item-IsFirst = record {
  before = [];
  others = [];
  items_eq = refl;
  counted = omega arith;
  total_int = omega arith;
  none_named = tt;
  fields = item-HasFields;
  same = item-SameName;
}

abbrev no_descriptors : ℕ → Option FatFileDescriptor
no_descriptors p = none

abbrev fresh : FatState Kernel
fresh = record { heap = heap; fs_private = some fs_private; descriptors = no_descriptors }

abbrev files : Files (FatState Kernel)
files = record { descriptors = replicate 512 none; state = fresh }

files-IsTable : IsTable files
files-IsTable = length-replicate {A = Option (FileDescriptor (FatState Kernel))} 512 none

first_slot : free_slot files.descriptors 0 ≡ some 0
unfolding free_slot
first_slot = refl

is_file : is_subdirectory item ≡ false
unfolding is_subdirectory
is_file = refl

abbrev shared : Allocator
shared = fat_allocator low_allocator fs_private no_descriptors

fread-fopen_example :
    (f' : Files (FatState Kernel)) × (f'' : Files (FatState Kernel)) × (fopen shared
        (mounted 0x5000 (fat16_fs low_allocator disk))
        (format 0 (name ∷ []))
        read_mode
        files
      ≡ some (1, f'))
    × (fread shared 600 1 (pos 1) f'
        ≡ some ((pos 1, take 600 (file_bytes disk fs_private (2 ∷ (4 ∷ [])))), f''))
unfolding fat16_get_first_cluster
fread-fopen_example =
    fread-fopen low_allocator disk fs_private no_descriptors files name name_plain (omega arith)
      refl refl item (4 ∷ []) fs_private-IsMounted item-IsFirst is_file chain kzalloc-low 0
      files-IsTable first_slot 600 (heap-LowRoom 7 (omega arith)) (omega arith) (omega arith)
      (omega (arith, contents_length)) (omega (arith, contents_length))

abbrev other_name : List ℕ
other_name = b'b' ∷ []

other_plain : IsName other_name
other_plain = ((λ e. cc), (omega arith, omega arith, tt))

other_differs : ¬ (SameName item other_name)
unfolding full_name trimmed with_dot ends_field tolower
other_differs e = cc e

no_other : IsMissing root other_name
no_other = record {
  items = item ∷ [];
  others = [];
  items_eq = refl;
  counted = refl;
  total_int = omega arith;
  none_named = (item-HasFields, other_differs, tt);
}

fopen-fat16_missing_example :
    fopen shared
      (mounted 0x5000 (fat16_fs low_allocator disk))
      (format 0 (other_name ∷ []))
      read_mode
      files
    ≡ none
fopen-fat16_missing_example =
    fopen-fat16_missing low_allocator disk fs_private no_descriptors files other_name other_plain
      (omega arith) refl refl (heap-LowRoom 5 (omega arith)) no_other refl

abbrev copy : ItemCopy
copy = record { node = 0x3000; item = item }

-- The file is open at position 7.
abbrev open_file : FatState Kernel
open_file = record fresh { descriptors = put no_descriptors 0x1000 (some (file_at 0x2000 copy 7)) }

fat16_read-fat16_seek_example :
    (fat16_seek low_allocator 0x1000 512 seek_set >>= λ _.
    fat16_read low_allocator disk 0x1000 300 1)
      open_file
    ≡ some (
      (pos 1, take 300 (drop 512 (file_bytes disk fs_private (2 ∷ (4 ∷ []))))),
      record open_file {
        descriptors = put open_file.descriptors 0x1000 (some (file_at 0x2000 copy 812));
      },
    )
unfolding fat16_get_first_cluster
fat16_read-fat16_seek_example =
    fat16_read-fat16_seek low_allocator open_file 0x1000 0x2000 7 copy refl disk fs_private
      fs_private-IsMounted (4 ∷ []) chain 1 300 refl (omega arith) (omega arith) (omega arith)
      (omega (arith, contents_length)) (omega (arith, contents_length))
