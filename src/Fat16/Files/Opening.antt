-- ===== src/Fat16/Files/Opening.antt =====
-- `fat16_open` in src/fs/fat/fat16.c for a name in the root directory.
use marrow_os.Allocator.{Allocator}
use marrow_os.Base.{
  ℕ, suc, ◌-◌, ◌^◌, ◌≡◌, ◌≢◌, refl, ◌∙◌, false, Option, none, some, List, [], ◌∷◌, ◌++◌, arith,
  ==_ne,
}
use marrow_os.Base.Run.{>>=-none, >>=-some}
use marrow_os.PathParser.{PathPart}
use marrow_os.Streamer.{Disk}
use marrow_os.File.{file_mode_read}
use marrow_os.Fat16.{FatPrivate, FatDirectoryItem, eio}
use marrow_os.Fat16.Items.{file_item, ItemCopy, kfree, is_subdirectory, fat16_get_directory_entry}
use marrow_os.Fat16.Items.Lookup.{IsPart}
use marrow_os.Fat16.Items.Found.{IsFirst, IsMissing, root_file, root_missing}
use marrow_os.Fat16.Files.{
  FatState, put, error_code, error_pointer, descriptor_size, on_heap, get_private, set_descriptor,
  open_entry, open_read, fat16_open, fat16_close, get_descriptor,
}
use marrow_os.Fat16.Files.Reading.{file_at, get_private-some}

module _ (a : Allocator) (disk : Disk) (fs_private : FatPrivate) where
  -- A state with another heap.
  abbrev pub over : FatState a.State → a.State → FatState a.State
  over s h = record s { heap = h }

  on_heap-some :
      {A : Type 0} (m : a.State → Option (A × a.State)) (s : FatState a.State) (x : A) (h : a.State)
      → m s.heap ≡ some (x, h)
      → on_heap a m s ≡ some (x, over s h)
  unfolding on_heap
  on_heap-some m s x h e = rw (e, on_heap) refl

  -- The state behind a file that is opened.
  abbrev pub opened : FatState a.State → a.State → ℕ → ℕ → ItemCopy → FatState a.State
  opened s h ptr node copy = record s {
    heap = h;
    descriptors = put s.descriptors ptr (some (file_at node copy 0));
  }

  entry_run :
      (s : FatState a.State) (ptr : ℕ) (part : PathPart) (h1 h2 : a.State) (node : ℕ)
      (copy : ItemCopy)
      → s.fs_private ≡ some fs_private
      → a.kzalloc descriptor_size s.heap ≡ some (ptr, h1)
      → ptr ≢ 0
      → fat16_get_directory_entry a disk fs_private part [] h1
        ≡ some (some (file_item node (some copy)), h2)
      → fat16_open a disk (part ∷ []) file_mode_read s ≡ some (ptr, opened s h2 ptr node copy)
  unfolding fat16_open open_read open_entry set_descriptor
  entry_run s ptr part h1 h2 node copy mounted run ne found =
      >>=-some (on_heap a (a.kzalloc descriptor_size)) _ s (over s h1) ptr
        (on_heap-some (a.kzalloc descriptor_size) s ptr h1 run)
      ∙ rw (==_ne ptr 0 ne) (
          >>=-some (get_private a) _ (over s h1) (over s h1) fs_private
            (get_private-some a (over s h1) fs_private mounted)
          ∙ >>=-some (on_heap a (fat16_get_directory_entry a disk fs_private part [])) _ (over s h1)
              (over s h2) (some (file_item node (some copy)))
              (on_heap-some (fat16_get_directory_entry a disk fs_private part []) (over s h1)
                (some (file_item node (some copy))) h2 found))

  missing_run :
      (s : FatState a.State) (ptr : ℕ) (part : PathPart) (next : List PathPart) (h1 h2 : a.State)
      → s.fs_private ≡ some fs_private
      → a.kzalloc descriptor_size s.heap ≡ some (ptr, h1)
      → ptr ≢ 0
      → fat16_get_directory_entry a disk fs_private part next h1 ≡ some (none, h1)
      → a.kfree ptr h1 ≡ some h2
      → fat16_open a disk (part ∷ next) file_mode_read s ≡ some (error_pointer eio, over s h2)
  unfolding fat16_open open_read open_entry kfree
  missing_run s ptr part next h1 h2 mounted run ne found freed =
      >>=-some (on_heap a (a.kzalloc descriptor_size)) _ s (over s h1) ptr
        (on_heap-some (a.kzalloc descriptor_size) s ptr h1 run)
      ∙ rw (==_ne ptr 0 ne) (
          >>=-some (get_private a) _ (over s h1) (over s h1) fs_private
            (get_private-some a (over s h1) fs_private mounted)
          ∙ >>=-some (on_heap a (fat16_get_directory_entry a disk fs_private part next)) _
              (over s h1) (over s h1) none
              (on_heap-some (fat16_get_directory_entry a disk fs_private part next) (over s h1) none
                h1 found)
          ∙ >>=-some (on_heap a (kfree a ptr)) _ (over s h1) (over s h2) tt
              (on_heap-some (kfree a ptr) (over s h1) tt h2 (rw (freed, kfree) refl)))

  -- Where the file system is mounted and the allocator has room for three requests, fat16_open of a path
  -- of one part that names a file of the root directory, up to case, gives a new descriptor at
  -- position 0 of the first such item.
  pub fat16_open-file :
      (n : ℕ) (s : FatState a.State) (part : PathPart) (name behind : List ℕ)
      (item : FatDirectoryItem)
      → s.fs_private ≡ some fs_private
      → part.part ≡ name ++ 0 ∷ behind
      → IsPart name
      → IsFirst fs_private.root_directory name item
      → is_subdirectory item ≡ false
      → a.Room (suc (suc (suc n))) s.heap
      → (ptr : ℕ) × (node : ℕ) × (copy : ℕ) × (h : a.State) × (fat16_open a disk
            (part ∷ [])
            file_mode_read
            s
          ≡ some (ptr, opened s h ptr node (record { node = copy; item = item })))
        × (ptr ≢ 0)
        × ((h' : a.State) × (a.kzalloc descriptor_size s.heap ≡ some (ptr, h')))
        × a.Room n h
  fat16_open-file n s part name behind item mounted named p f file r =
      let (ptr, h1, run, ne, r1) =
        a.room_kzalloc (suc (suc n)) descriptor_size s.heap r (omega arith) (omega arith) in
      let (node, copy, h2, found, r2) =
        root_file a disk fs_private n part name behind item h1 named p f file r1 in
      (
        ptr,
        node,
        copy,
        h2,
        entry_run s ptr part h1 h2 node (record { node = copy; item = item }) mounted run ne found,
        ne,
        (h1, run),
        r2,
      )

  -- Where the file system is mounted and the allocator has room, fat16_open of a path whose first part
  -- no counted item of the root directory has as its name gives -EIO as a pointer, keeps the
  -- descriptors, and gives the room back.
  pub fat16_open-missing :
      (n : ℕ) (s : FatState a.State) (part : PathPart) (next : List PathPart) (name behind : List ℕ)
      → s.fs_private ≡ some fs_private
      → part.part ≡ name ++ 0 ∷ behind
      → IsPart name
      → IsMissing fs_private.root_directory name
      → a.Room (suc n) s.heap
      → (h : a.State) × (fat16_open a disk (part ∷ next) file_mode_read s
          ≡ some (2 ^ 32 - 1, over s h))
        × a.Room (suc n) h
  unfolding error_pointer error_code
  fat16_open-missing n s part next name behind mounted named p f r =
      let (ptr, h1, run, ne, r1) =
        a.room_kzalloc n descriptor_size s.heap r (omega arith) (omega arith) in
      let (h2, freed, r2) =
        a.room_kfree n descriptor_size ptr s.heap h1 r (omega arith) (omega arith) run in
      (
        h2,
        missing_run s ptr part next h1 h2 mounted run ne
            (root_missing a disk fs_private part next name behind h1 named p f) freed,
        r2,
      )

-- A pointer that is no descriptor's is not closed.
pub fat16_close-unknown :
    (a : Allocator) (ptr : ℕ) (s : FatState a.State)
    → s.descriptors ptr ≡ none
    → fat16_close a ptr s ≡ none
unfolding fat16_close get_descriptor
fat16_close-unknown a ptr s e = >>=-none (get_descriptor a ptr) _ s (rw (e, get_descriptor) refl)
