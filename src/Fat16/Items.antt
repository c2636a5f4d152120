-- ===== src/Fat16/Items.antt =====
-- The items that src/fs/fat/fat16.c makes of a path: a clone of a file's directory item, or the items
-- of a directory that it loads, over the allocator. `none` is a fault.
pub mod Lookup
pub mod Found
use marrow_os.Allocator.{Allocator}
use marrow_os.Base.{
  ℕ, zero, suc, ◌+◌, ◌-◌, ◌*◌, ◌%◌, ◌^◌, bit_and, Bool, true, false, not, ltb, ◌==◌, if◌then◌else◌,
  Option, none, some, List, [], ◌∷◌, pos,
}
use marrow_os.Base.Run.{Run, pure, fault, ◌>>=◌, ◌>>◌}
use marrow_os.CString.{istrncmp}
use marrow_os.PathParser.{PathPart, max_path, is_zero}
use marrow_os.Streamer.{Disk}
use marrow_os.Fat16.{
  Res, ok, err, FatPrivate, FatDirectory, FatDirectoryItem, fat_file_subdirectory, item_size,
}
use marrow_os.Fat16.Chain.{fat16_get_first_cluster, fat16_cluster_to_sector, fat16_read_internal}
use marrow_os.Fat16.Names.{fat16_get_full_relative_filename}
use marrow_os.Fat16.Directory.{fat16_get_total_items_for_directory, items_of, total_of}

-- `sizeof(struct fat_directory)` and `sizeof(struct fat_item)` on 32 bits.
abbrev pub directory_struct_size : ℕ
directory_struct_size = 16

abbrev pub fat_item_size : ℕ
fat_item_size = 8

-- A `struct fat_directory *`: null, a structure that was given back, or one that is there.
pub data DirectoryPtr : Type 0 where
  null_directory freed_directory : DirectoryPtr
  directory_at : FatDirectory → DirectoryPtr

-- The directory item at `node`.
pub record ItemCopy : Type 0 where
  pub node : ℕ
  pub item : FatDirectoryItem

-- `struct fat_item` at the node, by its type; the item of a file may be null.
pub data FatItem : Type 0 where
  directory_item : ℕ → DirectoryPtr → FatItem
  file_item : ℕ → Option ItemCopy → FatItem

unfoldable pub is_subdirectory : FatDirectoryItem → Bool
is_subdirectory item = not (bit_and item.attribute fat_file_subdirectory == 0)

-- The test of the loop of `fat16_find_item_in_directory`.
pub is_named : FatDirectoryItem → List ℕ → Option Bool
is_named item name = elim (fat16_get_full_relative_filename item max_path) [
  | none ↦ none
  | some tmp_filename ↦ some (is_zero (istrncmp tmp_filename name max_path))
]

-- The loop with `left` rounds to go over the items from the current one on, up to the item that is
-- found; a round behind the last item is a fault.
pub find_from : ℕ → List FatDirectoryItem → List ℕ → Option (Option FatDirectoryItem)
find_from zero items name = some none
find_from (suc left) [] name = none
find_from (suc left) (item ∷ items) name = elim (is_named item name) [
  | none ↦ none
  | some true ↦ some (some item)
  | some false ↦ find_from left items name
]

module _ (a : Allocator) where
  open a use {State, kzalloc, kfree as free}

  unfoldable pub kfree : ℕ → Run State (Unit {0})
  kfree ptr s = elim (free ptr s) [ none ↦ none | some s' ↦ some (tt, s') ]

  pub fat16_clone_directory_item : FatDirectoryItem → ℕ → Run State (Option ItemCopy)
  fat16_clone_directory_item item size = if ltb size item_size then pure none else do
    item_copy ← kzalloc size
    if item_copy == 0 then pure none else pure (some (record { node = item_copy; item = item }))

  -- The pointer is stale behind the call.
  pub fat16_free_directory : DirectoryPtr → Run State (Unit {0})
  fat16_free_directory null_directory = pure tt
  fat16_free_directory freed_directory = fault
  fat16_free_directory (directory_at directory) =
      (if directory.items_ptr == 0 then pure tt else kfree directory.items_ptr)
      >> kfree directory.node

  pub fat16_fat_item_free : FatItem → Run State (Unit {0})
  fat16_fat_item_free (directory_item node directory) = fat16_free_directory directory >> kfree node
  fat16_fat_item_free (file_item node none) = kfree 0 >> kfree node
  fat16_fat_item_free (file_item node (some copy)) = kfree copy.node >> kfree node

  module _ (disk : Disk) (fat_private : FatPrivate) where
    -- The items are read, and the directory is given back where that fails: the caller gets its
    -- pointer in either case.
    load_items : FatDirectory → ℕ → ℕ → Run State DirectoryPtr
    load_items directory cluster directory_size =
        if ltb directory_size (2 ^ 31)
        then elim (fat16_read_internal disk fat_private cluster 0x00 directory_size) [
          | none ↦ fault
          | some (err e) ↦ (fat16_free_directory (directory_at directory) >> pure freed_directory)
          | some (ok bytes) ↦
              pure (directory_at (record directory { item = items_of directory.total bytes }))
        ]
        else fault

    pub fat16_load_fat_directory : FatDirectoryItem → Run State DirectoryPtr
    fat16_load_fat_directory item = if not (is_subdirectory item) then pure null_directory else do
      node ← kzalloc directory_struct_size
      if node == 0
          then pure null_directory
          else let cluster = fat16_get_first_cluster item in
            let cluster_sector = fat16_cluster_to_sector fat_private cluster in
            elim (fat16_get_total_items_for_directory disk fat_private cluster_sector) [
              | none ↦ fault
              | some total_items ↦
                  let directory_size = total_of total_items * item_size % 2 ^ 32 in
                  do
                    items_ptr ← kzalloc directory_size
                    let directory : FatDirectory = record {
                      node = node;
                      items_ptr = items_ptr;
                      item = [];
                      total = total_of total_items;
                      sector_pos = 0;
                      ending_sector_pos = 0;
                    }
                    if items_ptr == 0
                        then (fat16_free_directory (directory_at directory) >> pure freed_directory)
                        else load_items directory cluster directory_size
            ]

    pub fat16_new_fat_item_for_directory_item : FatDirectoryItem → Run State (Option FatItem)
    fat16_new_fat_item_for_directory_item item = do
      node ← kzalloc fat_item_size
      if node == 0
          then pure none
          else if is_subdirectory item
          then (do
            directory ← fat16_load_fat_directory item
            pure (some (directory_item node directory)))
          else do
            copy ← fat16_clone_directory_item item item_size
            pure (some (file_item node copy))

    -- No round is made where `total` is negative.
    pub fat16_find_item_in_directory : FatDirectory → List ℕ → Run State (Option FatItem)
    fat16_find_item_in_directory directory name =
        if ltb directory.total (2 ^ 31)
        then elim (find_from directory.total directory.item name) [
          | none ↦ fault
          | some none ↦ pure none
          | some (some item) ↦ fat16_new_fat_item_for_directory_item item
        ]
        else pure none

    -- The loop over the parts of the path behind the first.
    pub descend : Option FatItem → List PathPart → Run State (Option FatItem)
    descend current_item [] = pure current_item
    descend none (next_part ∷ parts) = fault
    descend (some (file_item node copy)) (next_part ∷ parts) = pure none
    descend (some (directory_item node (directory_at directory))) (next_part ∷ parts) = do
      tmp_item ← fat16_find_item_in_directory directory next_part.part
      fat16_fat_item_free (directory_item node (directory_at directory))
      descend tmp_item parts
    descend (some (directory_item node null_directory)) (next_part ∷ parts) = fault
    descend (some (directory_item node freed_directory)) (next_part ∷ parts) = fault

    pub fat16_get_directory_entry : PathPart → List PathPart → Run State (Option FatItem)
    fat16_get_directory_entry path next = do
      root_item ← fat16_find_item_in_directory fat_private.root_directory path.part
      elim root_item [ none ↦ pure none | some item ↦ descend (some item) next ]
