-- ===== src/Fat16/Mount.antt =====
-- `fat16_resolve` of src/fs/fat/fat16.c, which mounts the file system of the disk, and the table of
-- its operations. `none` is a fault.
pub mod Shared
pub mod Whole
use marrow_os.Allocator.{Allocator}
use marrow_os.Base.{
  ℕ, ◌+◌, ◌-◌, ◌*◌, ◌/◌, ◌%◌, ◌^◌, ◌==◌, if◌then◌else◌, Option, none, some, List, [], ◌∷◌, ℤ, pos,
  negsuc,
}
use marrow_os.Base.Run.{Run, pure, fault, ◌>>=◌, ◌>>◌}
use marrow_os.File.{Filesystem}
use marrow_os.Streamer.{sector_size, Disk, DiskStream, disk_streamer_new}
use marrow_os.Fat16.{
  FatError, eio, enomem, efsnotus, Res, ok, err, FatPrivate, FatDirectory, FatH, fat_h, fat_h_size,
  fat_signature, item_size,
}
use marrow_os.Fat16.Chain.{stream_read, fat16_sector_to_absolute}
use marrow_os.Fat16.Directory.{fat16_get_total_items_for_directory, items_of, total_of}
use marrow_os.Fat16.Items.{kfree}
use marrow_os.Fat16.Files.{
  FatState, FatRun, error_int, on_heap, fat16_open, fat16_read, fat16_seek, fat16_stat, fat16_close,
}

-- `sizeof` of `struct fat_private` and of `struct disk_stream` on 32 bits.
abbrev pub fat_private_size : ℕ
fat_private_size = 92

abbrev pub stream_size : ℕ
stream_size = 8

-- Where the root directory stands, how many bytes its items take, and the sectors of these.
unfoldable pub root_dir_sector_pos : FatH → ℕ
root_dir_sector_pos header =
    header.primary_header.fat_copies * header.primary_header.sectors_per_fat
    + header.primary_header.reserved_sectors

unfoldable pub root_dir_size : FatH → ℕ
root_dir_size header = header.primary_header.root_dir_entries * item_size

unfoldable pub root_total_sectors : FatH → ℕ
root_total_sectors header =
    let size = root_dir_size header in
    size / sector_size + (if size % sector_size == 0 then 0 else 1)

abbrev pub no_directory : FatDirectory
no_directory = record {
  node = 0;
  items_ptr = 0;
  item = [];
  total = 0;
  sector_pos = 0;
  ending_sector_pos = 0;
}

module _ (a : Allocator) (disk : Disk) where
  open a use {State, kzalloc}

  -- The stream with its address. The structure is written through an unchecked pointer.
  pub new_stream : Run State (ℕ × DiskStream)
  new_stream = elim (disk_streamer_new disk 0) [
    | none ↦ fault
    | some stream ↦ do
      streamer ← kzalloc stream_size
      if streamer == 0 then fault else pure (streamer, stream)
  ]

  pub fat16_init_private : Run State FatPrivate
  fat16_init_private = do
    cluster ← new_stream
    fat ← new_stream
    directory ← new_stream
    pure (record {
      header = fat_h [];
      root_directory = no_directory;
      cluster_read_stream = cluster.1;
      fat_read_stream = fat.1;
      directory_stream = directory.1;
    })

  -- The items are read into `dir`.
  pub read_root : FatPrivate → ℕ → ℕ → Run State (Res FatDirectory)
  read_root fat_private dir total =
      let sector_pos = root_dir_sector_pos fat_private.header in
      elim (stream_read disk fat_private.directory_stream (fat16_sector_to_absolute sector_pos)
        (root_dir_size fat_private.header)) [
          | none ↦ fault
          | some (err e) ↦ (kfree a dir >> pure (err e))
          | some (ok (bytes, next)) ↦ pure (
              ok (record {
                node = 0;
                items_ptr = dir;
                item = items_of fat_private.header.primary_header.root_dir_entries bytes;
                total = total;
                sector_pos = sector_pos;
                ending_sector_pos = sector_pos + root_total_sectors fat_private.header;
              }))
        ]

  pub fat16_get_root_directory : FatPrivate → Run State (Res FatDirectory)
  fat16_get_root_directory fat_private =
      elim (fat16_get_total_items_for_directory disk fat_private
        (root_dir_sector_pos fat_private.header)) [
          | none ↦ fault
          | some total_items ↦ do
            dir ← kzalloc (root_dir_size fat_private.header)
            if dir == 0 then pure (err enomem) else read_root fat_private dir (total_of total_items)
        ]

  -- What is on the disk, or the error.
  pub load_private : FatPrivate → DiskStream → Run State (Res FatPrivate)
  load_private fat_private stream = elim (stream_read disk stream 0 fat_h_size) [
    | none ↦ fault
    | some (err e) ↦ pure (err eio)
    | some (ok (bytes, next)) ↦
        if (fat_h bytes).extended_header.signature == fat_signature
        then (do
          root ← fat16_get_root_directory (record fat_private { header = fat_h bytes })
          elim root [
            | err e ↦ pure (err eio)
            | ok directory ↦
                pure (ok (record fat_private { header = fat_h bytes; root_directory = directory }))
          ])
        else pure (err efsnotus)
  ]

  -- `filesystem` of the disk is not kept here: who calls this sets it behind the call. The label `out`: the
  -- stream is given back, and after an error the private data.
  pub finish_resolve : ℕ → ℕ → Res FatPrivate → FatRun a ℤ
  finish_resolve private_ptr stream_ptr (ok loaded) s =
      (on_heap a (kfree a stream_ptr) >> pure (pos 0)) (record s { fs_private = some loaded })
  finish_resolve private_ptr stream_ptr (err e) s =
      (on_heap a (kfree a stream_ptr) >> on_heap a (kfree a private_ptr) >> pure (error_int e))
        (record s { fs_private = none })

  pub fat16_resolve : FatRun a ℤ
  fat16_resolve = do
    private_ptr ← on_heap a (kzalloc fat_private_size)
    if private_ptr == 0 then fault else do
      fat_private ← on_heap a fat16_init_private
      stream ← on_heap a new_stream
      res ← on_heap a (load_private fat_private stream.1)
      finish_resolve private_ptr stream.0 res

  -- The one disk is the one that the calls are for.
  pub fat16_fs : Filesystem (FatState State)
  fat16_fs = record {
    resolve = λ d. fat16_resolve;
    open_file = λ d path mode. fat16_open a disk path mode;
    read = λ d descriptor size nmemb. fat16_read a disk descriptor size nmemb;
    seek = λ descriptor offset mode. fat16_seek a descriptor offset mode;
    stat = λ d descriptor. fat16_stat a descriptor;
    close = λ descriptor. fat16_close a descriptor;
  }
