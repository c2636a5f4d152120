-- ===== src/Fat16/Directory.antt =====
-- The directories of src/fs/fat/fat16.c, read from the disk: the count of the items, and the items.
-- `none` is a fault: a position from 2 ^ 31 on is a negative `int`.
pub mod Count
use marrow_os.Base.{
  ℕ, zero, suc, ◌+◌, ◌-◌, ◌*◌, ◌/◌, ◌%◌, ◌^◌, ltb, ◌==◌, if◌then◌else◌, true, false, Option, none,
  some, List, [], ◌∷◌, drop, get_or,
}
use marrow_os.Streamer.{
  sector_size, Disk, DiskStream, all_ok, disk_streamer_seek, disk_streamer_read,
}
use marrow_os.Streamer
use marrow_os.Fat16.{
  Res, ok, err, eio, FatPrivate, FatHeader, FatDirectoryItem, fat_directory_item, item_size,
  byte_at,
}

-- The loop of `fat16_get_total_items_for_directory`, on fuel.
pub count_items : Disk → ℕ → DiskStream → ℕ → Option (Res ℕ)
count_items disk zero stream i = none
count_items disk (suc fuel) stream i = elim (ltb stream.pos (2 ^ 31)) [
  | false ↦ none
  | true ↦ elim (disk_streamer_read disk stream item_size) [
    | none ↦ none
    | some (item, next, Streamer.eio) ↦ some (err eio)
    | some (item, next, Streamer.all_ok) ↦ elim (byte_at item 0 == 0x00) [
      | true ↦ some (ok i)
      | false ↦ count_items disk fuel next (if byte_at item 0 == 0xe5 then i else i + 1)
    ]
  ]
]

-- Every round moves 32 bytes on, and a position is below 2 ^ 31.
abbrev pub count_fuel : ℕ
count_fuel = 2 ^ 26 + 1

pub fat16_get_total_items_for_directory : Disk → FatPrivate → ℕ → Option (Res ℕ)
fat16_get_total_items_for_directory disk fat_private directory_start_sector =
    let directory_start_pos = directory_start_sector * sector_size % 2 ^ 32 in
    count_items disk count_fuel
      (disk_streamer_seek fat_private.directory_stream directory_start_pos) 0

-- The items that stand in the bytes, `count` of them.
pub items_of : ℕ → List ℕ → List FatDirectoryItem
items_of zero bytes = []
items_of (suc count) bytes = fat_directory_item bytes ∷ items_of count (drop item_size bytes)

-- The result as an `int`, which a `struct fat_directory` keeps also where it is an error.
pub total_of : Res ℕ → ℕ
total_of (ok n) = n
total_of (err e) = 2 ^ 32 - 1
