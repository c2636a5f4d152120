-- ===== src/Fat16/Files.antt =====
-- The operations of src/fs/fat/fat16.c on files, as the `struct filesystem` that it fills, over the
-- allocator and the disk. `none` is a fault.
pub mod Reading
pub mod Seeking
pub mod Opening
use mathlib.Core.Option
use marrow_os.Allocator.{Allocator}
use marrow_os.Base.{
  ℕ, zero, suc, ◌+◌, ◌-◌, ◌*◌, ◌%◌, ◌^◌, bit_and, ltb, leb, ◌==◌, if◌then◌else◌, true, false,
  Option, none, some, List, [], ◌∷◌, ◌++◌, ℤ, pos, negsuc,
}
use marrow_os.Base.Run.{Run, pure, fault, ◌>>=◌, ◌>>◌}
use marrow_os.PathParser.{PathPart}
use marrow_os.File.{FileMode, file_mode_read, file_mode_write, file_mode_append, file_mode_invalid}
use marrow_os.Streamer.{Disk}
use marrow_os.Fat16.{
  FatError, eio, einvarg, enomem, efsnotus, erdonly, eunimp, Res, ok, err, FatPrivate,
  fat_file_read_only,
}
use marrow_os.Fat16.Chain.{fat16_get_first_cluster, fat16_read_internal}
use marrow_os.Fat16.Items.{
  FatItem, directory_item, file_item, ItemCopy, kfree, fat16_fat_item_free,
  fat16_get_directory_entry,
}

-- `sizeof(struct fat_file_descriptor)` on 32 bits.
abbrev pub descriptor_size : ℕ
descriptor_size = 8

abbrev pub file_stat_read_only : ℕ
file_stat_read_only = 1

-- The positive numbers of status.h.
unfoldable pub error_code : FatError → ℕ
error_code eio = 1
error_code einvarg = 2
error_code enomem = 3
error_code efsnotus = 5
error_code erdonly = 6
error_code eunimp = 7

-- `-e` as an `int`, and as the pointer that `ERROR` makes of it.
unfoldable pub error_int : FatError → ℤ
error_int e = negsuc (error_code e - 1)

unfoldable pub error_pointer : FatError → ℕ
error_pointer e = 2 ^ 32 - error_code e

pub record FatFileDescriptor : Type 0 where
  pub item : FatItem
  pub pos : ℕ

-- The heap, `fs_private` of the disk, and the descriptors by their addresses.
pub record FatState (H : Type 0) : Type 0 where
  pub heap : H
  pub fs_private : Option FatPrivate
  pub descriptors : ℕ → Option FatFileDescriptor

-- The descriptor at `ptr` is now `d`.
abbrev pub put :
    (ℕ → Option FatFileDescriptor) → ℕ → Option FatFileDescriptor → ℕ → Option FatFileDescriptor
put descriptors ptr d p = if p == ptr then d else descriptors p

-- What `fat16_stat` writes: the flags and the file size.
unfoldable pub stat_of : ItemCopy → List ℕ
stat_of ritem =
    (if bit_and ritem.item.attribute fat_file_read_only == 0 then 0 else file_stat_read_only)
    ∷ (ritem.item.filesize ∷ [])

-- The `switch` of `fat16_seek`: the result and the position.
unfoldable pub seek_to : ℕ → ℕ → ℕ → ℤ × ℕ
seek_to zero offset at = (pos 0, offset)
seek_to (suc zero) offset at = (pos 0, (at + offset) % 2 ^ 32)
seek_to (suc (suc zero)) offset at = (error_int eunimp, at)
seek_to (suc (suc (suc mode))) offset at = (error_int einvarg, at)

-- The loop of `fat16_read` with `nmemb` rounds to go: the error that ends it, if there is one, the
-- bytes so far, and the offset.
pub read_members : Disk → FatPrivate → ℕ → ℕ → ℕ → ℕ → Option (Option FatError × List ℕ × ℕ)
read_members disk fs_private cluster size zero offset = some (none, [], offset)
read_members disk fs_private cluster size (suc nmemb) offset =
    elim (fat16_read_internal disk fs_private cluster offset size) [
      | none ↦ none
      | some (err e) ↦ some (some e, [], offset)
      | some (ok bytes) ↦
          elim (read_members disk fs_private cluster size nmemb ((offset + size) % 2 ^ 32)) [
            | none ↦ none
            | some (e, rest, last) ↦ some (e, bytes ++ rest, last)
          ]
    ]

-- The item is read as a file's, without a look at its type: of a directory that is the memory of
-- another structure, a fault here, as a size is that is negative as an `int`.
pub read_item : Disk → FatPrivate → FatItem → ℕ → ℕ → ℕ → Option (Option FatError × List ℕ × ℕ)
read_item disk fs_private item size zero offset = some (none, [], offset)
read_item disk fs_private (directory_item node directory) size (suc nmemb) offset = none
read_item disk fs_private (file_item node none) size (suc nmemb) offset = none
read_item disk fs_private (file_item node (some copy)) size (suc nmemb) offset =
    if ltb size (2 ^ 31)
    then read_members disk fs_private (fat16_get_first_cluster copy.item) size (suc nmemb) offset
    else none

module _ (a : Allocator) where
  open a use {State, kzalloc}

  abbrev pub FatRun : Type 0 → Type 0
  FatRun A = Run (FatState State) A

  pub on_heap : {A : Type 0} → Run State A → FatRun A
  on_heap m s = elim (m s.heap) [ none ↦ none | some (x, h) ↦ some (x, record s { heap = h }) ]

  pub get_descriptor : ℕ → FatRun FatFileDescriptor
  get_descriptor ptr s = elim (s.descriptors ptr) [ none ↦ none | some d ↦ some (d, s) ]

  pub set_descriptor : ℕ → Option FatFileDescriptor → FatRun (Unit {0})
  set_descriptor ptr d s = some (tt, record s { descriptors = put s.descriptors ptr d })

  pub get_private : FatRun FatPrivate
  get_private s = elim s.fs_private [ none ↦ none | some p ↦ some (p, s) ]

  -- From the descriptor on.
  pub open_entry : Disk → ℕ → PathPart → List PathPart → FatRun ℕ
  open_entry disk descriptor path next = do
    fat_private ← get_private
    item ← on_heap (fat16_get_directory_entry a disk fat_private path next)
    elim item [
      | none ↦ (on_heap (kfree a descriptor) >> pure (error_pointer eio))
      | some i ↦
          (set_descriptor descriptor (some (record { item = i; pos = 0 })) >> pure descriptor)
    ]

  open_read : Disk → List PathPart → FatRun ℕ
  open_read disk path = do
    descriptor ← on_heap (kzalloc descriptor_size)
    if descriptor == 0
        then pure (error_pointer enomem)
        else elim path [ [] ↦ fault | part ∷ next ↦ open_entry disk descriptor part next ]

  pub fat16_open : Disk → List PathPart → FileMode → FatRun ℕ
  fat16_open disk path file_mode_read = open_read disk path
  fat16_open disk path file_mode_write = pure (error_pointer erdonly)
  fat16_open disk path file_mode_append = pure (error_pointer erdonly)
  fat16_open disk path file_mode_invalid = pure (error_pointer erdonly)

  fat16_free_file_descriptor : ℕ → FatFileDescriptor → FatRun (Unit {0})
  fat16_free_file_descriptor ptr desc =
      on_heap (fat16_fat_item_free a desc.item) >> on_heap (kfree a ptr) >> set_descriptor ptr none

  pub fat16_close : ℕ → FatRun ℤ
  fat16_close private_data = do
    desc ← get_descriptor private_data
    fat16_free_file_descriptor private_data desc
    pure (pos 0)

  pub fat16_stat : ℕ → FatRun (ℤ × List ℕ)
  fat16_stat private_data = do
    descriptor ← get_descriptor private_data
    elim descriptor.item [
      | directory_item node directory ↦ pure (error_int einvarg, [])
      | file_item node none ↦ fault
      | file_item node (some ritem) ↦ pure (pos 0, stat_of ritem)
    ]

  -- The end of the loop of `fat16_read`: an offset from 2 ^ 31 on is kept as a `uint32_t`.
  pub finish_read : ℕ → FatFileDescriptor → ℕ → Option FatError × List ℕ × ℕ → FatRun (ℤ × List ℕ)
  finish_read ptr desc nmemb (some e, bytes, offset) = pure (error_int e, bytes)
  finish_read ptr desc nmemb (none, bytes, offset) = do
    set_descriptor ptr (some (record desc { pos = offset }))
    pure (if ltb nmemb (2 ^ 31) then pos nmemb else negsuc (2 ^ 32 - 1 - nmemb), bytes)

  pub fat16_read : Disk → ℕ → ℕ → ℕ → FatRun (ℤ × List ℕ)
  fat16_read disk descriptor size nmemb = do
    fat_desc ← get_descriptor descriptor
    fs_private ← get_private
    elim (read_item disk fs_private fat_desc.item size nmemb fat_desc.pos) [
      | none ↦ fault
      | some r ↦ finish_read descriptor fat_desc nmemb r
    ]

  -- The position of a seek that the checks let through.
  pub finish_seek : ℕ → FatFileDescriptor → ℤ × ℕ → FatRun ℤ
  finish_seek ptr desc (res, at) = set_descriptor ptr (some (record desc { pos = at })) >> pure res

  pub fat16_seek : ℕ → ℕ → ℕ → FatRun ℤ
  fat16_seek private_data offset seek_mode = do
    desc ← get_descriptor private_data
    elim desc.item [
      | directory_item node directory ↦ pure (error_int einvarg)
      | file_item node none ↦ fault
      | file_item node (some ritem) ↦
          if leb ritem.item.filesize offset
          then pure (error_int eio)
          else finish_seek private_data desc (seek_to seek_mode offset desc.pos)
    ]
