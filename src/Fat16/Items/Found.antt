-- ===== src/Fat16/Items/Found.antt =====
-- A name in a directory in src/fs/fat/fat16.c: the item that is made of it, or none.
use marrow_os.Allocator.{Allocator}
use marrow_os.Base.{
  ℕ, suc, ◌^◌, ◌<◌, ◌≡◌, refl, ap, ◌∙◌, lt→ltb, false, none, some, List, [], ◌∷◌, ◌++◌, length,
  arith, ==_ne,
}
use marrow_os.Base.Run.{>>=-some}
use marrow_os.PathParser.{PathPart}
use marrow_os.Streamer.{Disk}
use marrow_os.Fat16.{FatPrivate, FatDirectory, FatDirectoryItem, item_size}
use marrow_os.Fat16.Items.{
  FatItem, file_item, is_subdirectory, fat16_clone_directory_item,
  fat16_new_fat_item_for_directory_item, find_from, fat16_find_item_in_directory,
  fat16_get_directory_entry, descend, fat_item_size,
}
use marrow_os.Fat16.Items.Lookup.{
  HasFields, SameName, IsPart, NoneNamed, find_from-first, find_from-none,
}

-- The first item of the directory with that name up to case.
pub record IsFirst (directory : FatDirectory) (name : List ℕ) (item : FatDirectoryItem)
    : Type 0 where
  pub before : List FatDirectoryItem
  pub others : List FatDirectoryItem
  pub items_eq : directory.item ≡ before ++ item ∷ others
  pub counted : length before < directory.total
  pub total_int : directory.total < 2 ^ 31
  pub none_named : NoneNamed name before
  pub fields : HasFields item
  pub same : SameName item name

-- No counted item of the directory has that name.
pub record IsMissing (directory : FatDirectory) (name : List ℕ) : Type 0 where
  pub items : List FatDirectoryItem
  pub others : List FatDirectoryItem
  pub items_eq : directory.item ≡ items ++ others
  pub counted : directory.total ≡ length items
  pub total_int : directory.total < 2 ^ 31
  pub none_named : NoneNamed name items

module _ (a : Allocator) (disk : Disk) (fs_private : FatPrivate) where
  find_first :
      (directory : FatDirectory) (name behind : List ℕ) (item : FatDirectoryItem) (h : a.State)
      → IsPart name
      → IsFirst directory name item
      → fat16_find_item_in_directory a disk fs_private directory (name ++ 0 ∷ behind) h
        ≡ fat16_new_fat_item_for_directory_item a disk fs_private item h
  unfolding fat16_find_item_in_directory
  find_first directory name behind item h p f =
      let found : find_from directory.total directory.item (name ++ 0 ∷ behind) ≡ some (some item) =
        ap (λ items. find_from directory.total items (name ++ 0 ∷ behind)) f.items_eq
        ∙ find_from-first name behind f.before item f.others directory.total p f.none_named f.fields
            f.same f.counted in
      rw (lt→ltb directory.total (2 ^ 31) f.total_int, found) refl

  find_missing :
      (directory : FatDirectory) (name behind : List ℕ) (h : a.State)
      → IsPart name
      → IsMissing directory name
      → fat16_find_item_in_directory a disk fs_private directory (name ++ 0 ∷ behind) h
        ≡ some (none, h)
  unfolding fat16_find_item_in_directory
  find_missing directory name behind h p f =
      let found : find_from directory.total directory.item (name ++ 0 ∷ behind) ≡ some none =
        ap (λ items. find_from directory.total items (name ++ 0 ∷ behind)) f.items_eq
        ∙ ap (λ total. find_from total (f.items ++ f.others) (name ++ 0 ∷ behind)) f.counted
        ∙ find_from-none name behind f.items f.others p f.none_named in
      rw (lt→ltb directory.total (2 ^ 31) f.total_int, found) refl

  -- The item of a file takes two blocks.
  new_file_item :
      (n : ℕ) (item : FatDirectoryItem) (h : a.State)
      → is_subdirectory item ≡ false
      → a.Room (suc (suc n)) h
      → (node : ℕ) × (copy : ℕ) × (h' : a.State) × (fat16_new_fat_item_for_directory_item a disk
            fs_private item h
          ≡ some (some (file_item node (some (record { node = copy; item = item }))), h'))
        × a.Room n h'
  unfolding fat16_new_fat_item_for_directory_item fat16_clone_directory_item
  new_file_item n item h file r =
      let (node, h1, run1, ne1, r1) =
        a.room_kzalloc (suc n) fat_item_size h r (omega arith) (omega arith) in
      let (copy, h2, run2, ne2, r2) =
        a.room_kzalloc n item_size h1 r1 (omega arith) (omega arith) in
      (
        node,
        copy,
        h2,
        >>=-some (a.kzalloc fat_item_size) _ h h1 node run1
            ∙ rw (==_ne node 0 ne1, file)
                (>>=-some (fat16_clone_directory_item a item item_size) _ h1 h2
                  (some (record { node = copy; item = item }))
                  (>>=-some (a.kzalloc item_size) _ h1 h2 copy run2 ∙ rw (==_ne copy 0 ne2) refl)),
        r2,
      )

  -- A path of one part.
  pub root_file :
      (n : ℕ) (part : PathPart) (name behind : List ℕ) (item : FatDirectoryItem) (h : a.State)
      → part.part ≡ name ++ 0 ∷ behind
      → IsPart name
      → IsFirst fs_private.root_directory name item
      → is_subdirectory item ≡ false
      → a.Room (suc (suc n)) h
      → (node : ℕ) × (copy : ℕ) × (h' : a.State) × (fat16_get_directory_entry a disk fs_private part
            [] h
          ≡ some (some (file_item node (some (record { node = copy; item = item }))), h'))
        × a.Room n h'
  unfolding fat16_get_directory_entry descend
  root_file n part name behind item h named p f file r =
      let (node, copy, h', run, r') = new_file_item n item h file r in
      let made : FatItem = file_item node (some (record { node = copy; item = item })) in
      (
        node,
        copy,
        h',
        >>=-some
            (fat16_find_item_in_directory a disk fs_private fs_private.root_directory part.part) _ h
            h' (some made)
            (ap (λ t. fat16_find_item_in_directory a disk fs_private fs_private.root_directory t h)
                named
              ∙ find_first fs_private.root_directory name behind item h p f
              ∙ run),
        r',
      )

  pub root_missing :
      (part : PathPart) (next : List PathPart) (name behind : List ℕ) (h : a.State)
      → part.part ≡ name ++ 0 ∷ behind
      → IsPart name
      → IsMissing fs_private.root_directory name
      → fat16_get_directory_entry a disk fs_private part next h ≡ some (none, h)
  unfolding fat16_get_directory_entry
  root_missing part next name behind h named p f =
      >>=-some (fat16_find_item_in_directory a disk fs_private fs_private.root_directory part.part)
        _ h h none
        (ap (λ t. fat16_find_item_in_directory a disk fs_private fs_private.root_directory t h)
            named
          ∙ find_missing fs_private.root_directory name behind h p f)
