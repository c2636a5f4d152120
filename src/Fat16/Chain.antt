-- ===== src/Fat16/Chain.antt =====
-- The clusters of a file in src/fs/fat/fat16.c: the file allocation table, and reads along it. `none`
-- is a fault, such as a division by zero. Arithmetic of `int` is on 32-bit patterns; a position or an
-- offset that would be negative is a fault.
pub mod Contents
pub mod Reads
use marrow_os.Base.{
  ℕ, zero, suc, ◌+◌, ◌-◌, ◌*◌, ◌/◌, ◌%◌, ◌^◌, Bool, true, false, ◌||◌, List, [], ◌∷◌, ◌++◌, Option,
  none, some, ltb, ◌==◌, if◌then◌else◌,
}
use marrow_os.Streamer.{
  sector_size, Disk, DiskStream, all_ok, disk_streamer_seek, disk_streamer_read,
}
use marrow_os.Streamer
use marrow_os.Fat16.{
  Res, ok, err, eio, FatPrivate, FatDirectoryItem, fat_entry_size, fat_bad_sector, word_at,
}

-- A seek and a read, which every reader makes together; where a stream stood before does not matter.
unfoldable pub stream_read : Disk → DiskStream → ℕ → ℕ → Option (Res (List ℕ × DiskStream))
stream_read disk stream at total =
    if ltb at (2 ^ 31)
    then elim (disk_streamer_read disk (disk_streamer_seek stream at) total) [
      | none ↦ none
      | some (bytes, next, Streamer.all_ok) ↦ some (ok (bytes, next))
      | some (bytes, next, Streamer.eio) ↦ some (err eio)
    ]
    else none

pub fat16_sector_to_absolute : ℕ → ℕ
fat16_sector_to_absolute sector = sector * sector_size % 2 ^ 32

unfoldable pub fat16_get_first_cluster : FatDirectoryItem → ℕ
fat16_get_first_cluster item =
    item.high_16_bits_first_cluster * 65536 + item.low_16_bits_first_cluster

unfoldable pub fat16_cluster_to_sector : FatPrivate → ℕ → ℕ
fat16_cluster_to_sector fs_private cluster =
    (fs_private.root_directory.ending_sector_pos
      + (cluster + (2 ^ 32 - 2)) * fs_private.header.primary_header.sectors_per_cluster)
    % 2 ^ 32

unfoldable pub fat16_get_first_fat_sector : FatPrivate → ℕ
fat16_get_first_fat_sector fs_private = fs_private.header.primary_header.reserved_sectors

-- The entry, from the two bytes that are read.
pub fat16_get_fat_entry : Disk → FatPrivate → ℕ → Option (Res ℕ)
fat16_get_fat_entry disk fs_private cluster =
    let fat_table_position = fat16_get_first_fat_sector fs_private * sector_size in
    elim (stream_read disk fs_private.fat_read_stream
      ((fat_table_position + cluster * fat_entry_size) % 2 ^ 32) fat_entry_size) [
        | none ↦ none
        | some (err e) ↦ some (err e)
        | some (ok (bytes, next)) ↦ some (ok (word_at bytes 0))
      ]

-- The tests that end the walk along the chain.
unfoldable pub ends_chain : ℕ → Bool
ends_chain entry =
    (entry == 0xfff8 || entry == 0xffff)
    || entry == fat_bad_sector
    || (entry == 0xff0 || entry == 0xff6)
    || entry == 0

-- The loop of `fat16_get_cluster_for_offset` with `clusters_ahead` rounds to go. The source takes an error
-- of a read, -EIO, for an entry and goes on, but a stream whose disk is not there fails each time: what it
-- returns in the end is -EIO too.
pub follow : Disk → FatPrivate → ℕ → ℕ → Option (Res ℕ)
follow disk fs_private zero cluster_to_use = some (ok cluster_to_use)
follow disk fs_private (suc clusters_ahead) cluster_to_use =
    elim (fat16_get_fat_entry disk fs_private cluster_to_use) [
      | none ↦ none
      | some (err e) ↦ some (err e)
      | some (ok entry) ↦ elim (ends_chain entry) [
        | true ↦ some (err eio)
        | false ↦ follow disk fs_private clusters_ahead entry
      ]
    ]

abbrev pub size_of_cluster_bytes : FatPrivate → ℕ
size_of_cluster_bytes fs_private =
    fs_private.header.primary_header.sectors_per_cluster * sector_size

pub fat16_get_cluster_for_offset : Disk → FatPrivate → ℕ → ℕ → Option (Res ℕ)
fat16_get_cluster_for_offset disk fs_private starting_cluster offset =
    if size_of_cluster_bytes fs_private == 0
    then none
    else follow disk fs_private (offset / size_of_cluster_bytes fs_private) starting_cluster

-- What one call reads: the bytes from the cluster of the offset on, at most as many as a cluster has.
pub read_part : Disk → FatPrivate → DiskStream → ℕ → ℕ → ℕ → Option (Res (List ℕ))
read_part disk fs_private stream cluster offset total =
    elim (fat16_get_cluster_for_offset disk fs_private cluster offset) [
      | none ↦ none
      | some (err e) ↦ some (err e)
      | some (ok cluster_to_use) ↦
          let offset_from_cluster = offset % size_of_cluster_bytes fs_private in
          let starting_sector = fat16_cluster_to_sector fs_private cluster_to_use in
          let starting_pos = (starting_sector * sector_size + offset_from_cluster) % 2 ^ 32 in
          elim (stream_read disk stream starting_pos total) [
            | none ↦ none
            | some (err e) ↦ some (err e)
            | some (ok (bytes, next)) ↦ some (ok bytes)
          ]
    ]

-- `fat16_read_internal_from_stream` on fuel: the bytes that it writes to `out`.
pub read_chain : ℕ → Disk → FatPrivate → DiskStream → ℕ → ℕ → ℕ → Option (Res (List ℕ))
read_chain zero disk fs_private stream cluster offset total = none
read_chain (suc fuel) disk fs_private stream cluster offset total =
    let size = size_of_cluster_bytes fs_private in
    let total_to_read = if ltb size total then size else total in
    elim (ltb offset (2 ^ 31)) [
      | false ↦ none
      | true ↦ elim (read_part disk fs_private stream cluster offset total_to_read) [
        | none ↦ none
        | some (err e) ↦ some (err e)
        | some (ok bytes) ↦ elim (total - total_to_read) [
          | zero ↦ some (ok bytes)
          | suc left ↦
              elim (read_chain fuel disk fs_private stream cluster (offset + total_to_read)
                (suc left)) [
                  | none ↦ none
                  | some (err e) ↦ some (err e)
                  | some (ok rest) ↦ some (ok (bytes ++ rest))
                ]
        ]
      ]
    ]

-- Each call but the last reads a cluster.
pub fat16_read_internal : Disk → FatPrivate → ℕ → ℕ → ℕ → Option (Res (List ℕ))
fat16_read_internal disk fs_private starting_cluster offset total =
    read_chain (total + 1) disk fs_private fs_private.cluster_read_stream starting_cluster offset
      total
