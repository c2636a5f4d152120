-- ===== src/Fat16/Directory/Count.antt =====
-- The count of the items of a directory in src/fs/fat/fat16.c ends.
use marrow_os.Base.{
  ℕ, zero, suc, ◌+◌, ◌*◌, ◌%◌, ◌^◌, ◌<◌, ◌≡◌, ◌≢◌, refl, sym, ap, ◌∙◌, subst, lt→ltb, ==_ne, ◌==◌,
  if◌then◌else◌, some, arith,
}
use marrow_os.Streamer.{sector_size, Disk, DiskStream, disk_streamer_seek}
use marrow_os.Streamer.Stream.{disk_byte, disk_bytes, disk_streamer_read-disk_bytes}
use marrow_os.Fat16.{ok, FatPrivate, item_size, byte_at}
use marrow_os.Fat16.Directory.{count_items, count_fuel, fat16_get_total_items_for_directory}

-- How many of the `n` items from `start` on are in use.
unfoldable pub used_items : Disk → ℕ → ℕ → ℕ
used_items disk start zero = 0
used_items disk start (suc n) =
    (if disk_byte disk start == 0xe5 then 0 else 1) + used_items disk (start + 32) n

first_byte :
    (disk : Disk) (start : ℕ) → byte_at (disk_bytes disk start item_size) 0 ≡ disk_byte disk start
unfolding disk_bytes
first_byte disk start = refl

-- Whether the item is counted.
counted :
    (disk : Disk) (start i rest : ℕ)
    → (if disk_byte disk start == 0xe5 then i else i + 1) + rest
      ≡ i + ((if disk_byte disk start == 0xe5 then 0 else 1) + rest)
counted disk start i rest = ground arith

count_items-used_items :
    (disk : Disk) (n fuel : ℕ) (stream : DiskStream) (i : ℕ)
    → stream.disk ≡ disk.address
    → n < fuel
    → stream.pos + 32 * n + 32 < 2 ^ 31
    → ((m : ℕ) → m < n → disk_byte disk (stream.pos + 32 * m) ≢ 0)
    → disk_byte disk (stream.pos + 32 * n) ≡ 0
    → count_items disk fuel stream i ≡ some (ok (i + used_items disk stream.pos n))
unfolding count_items used_items
count_items-used_items disk n zero stream i d f b used ended = absurd (omega arith)
count_items-used_items disk zero (suc fuel) stream i d f b used ended =
    let here : disk_byte disk stream.pos ≡ 0 =
      ap (disk_byte disk) {x = stream.pos} {y = stream.pos + 32 * 0} (omega arith) ∙ ended in
    rw
      (
        lt→ltb stream.pos (2 ^ 31) (omega arith),
        disk_streamer_read-disk_bytes disk stream item_size d (omega arith),
        first_byte disk stream.pos,
        here,
        count_items,
      )
      (ap (λ k. some (ok k)) (omega arith))
count_items-used_items disk (suc n) (suc fuel) stream i d f b used ended =
    let here : disk_byte disk stream.pos ≢ 0 =
      subst (λ k. disk_byte disk k ≢ 0) {x = stream.pos + 32 * 0} {y = stream.pos} (omega arith)
        (used 0 (omega arith)) in
    let next : DiskStream = record stream { pos = stream.pos + 32 } in
    let behind : (m : ℕ) → stream.pos + 32 * suc m ≡ next.pos + 32 * m = λ m. omega arith in
    let i' = if disk_byte disk stream.pos == 0xe5 then i else i + 1 in
    let rest =
      count_items-used_items disk n fuel next i' d (omega arith) (omega arith)
        (λ m h. subst (λ k. disk_byte disk k ≢ 0) (behind m) (used (suc m) (omega arith)))
        (ap (disk_byte disk) (sym (behind n)) ∙ ended) in
    rw
      (
        lt→ltb stream.pos (2 ^ 31) (omega arith),
        disk_streamer_read-disk_bytes disk stream item_size d (omega arith),
        first_byte disk stream.pos,
        ==_ne (disk_byte disk stream.pos) 0 here,
        first_byte disk stream.pos,
        rest,
        count_items,
      )
      (ap (λ k. some (ok k)) (counted disk stream.pos i (used_items disk (stream.pos + 32) n)))

-- Where the stream is the disk's and a directory has an item whose name starts with 0 and that
-- ends below position 2 ^ 31, fat16_get_total_items_for_directory ends and returns how many of
-- the items before the first such item are not marked as deleted.
pub fat16_get_total_items_for_directory-used_items :
    (disk : Disk) (fat_private : FatPrivate) (sector n : ℕ)
    → fat_private.directory_stream.disk ≡ disk.address
    → sector * sector_size + 32 * n + 32 < 2 ^ 31
    → ((m : ℕ) → m < n → disk_byte disk (sector * sector_size + 32 * m) ≢ 0)
    → disk_byte disk (sector * sector_size + 32 * n) ≡ 0
    → fat16_get_total_items_for_directory disk fat_private sector
      ≡ some (ok (used_items disk (sector * sector_size) n))
unfolding fat16_get_total_items_for_directory disk_streamer_seek
fat16_get_total_items_for_directory-used_items disk fat_private sector n d b used ended =
    let start : sector * sector_size % 2 ^ 32 ≡ sector * sector_size = omega arith in
    rw start (
      count_items-used_items disk n count_fuel
        (record fat_private.directory_stream { pos = sector * sector_size }) 0 d (omega arith) b
        used ended
      ∙ ap (λ k. some (ok k)) (omega arith))
