-- ===== src/Streamer/Stream.antt =====
-- A stream is a window on the bytes of the disk.
use marrow_os.Base.{
  ℕ, zero, suc, ◌+◌, ◌-◌, ◌*◌, ◌/◌, ◌%◌, ◌^◌, ◌<◌, ◌≤◌, ◌≡◌, refl, sym, ap, ap₂, ◌∙◌, leb, ltb,
  List, [], ◌∷◌, ◌++◌, Option, some, arith, subst, dec_lt, ==_refl, true, false,
}
use native.Mathlib.Numerals.{unary_clauses}
use marrow_os.Streamer.{
  Read, read_on, all_ok, disk_read_block, sector_size, Disk, DiskStream, copy_out, read_rounds,
  disk_streamer_read,
}

-- The byte of the disk at `i`, over all its sectors.
unfoldable pub disk_byte : Disk → ℕ → ℕ
disk_byte disk i = disk.sector (i / sector_size) (i % sector_size)

-- The `total` bytes of the disk from `start` on.
unfoldable pub disk_bytes : Disk → ℕ → ℕ → List ℕ
disk_bytes disk start zero = []
disk_bytes disk start (suc total) = disk_byte disk start ∷ disk_bytes disk (start + 1) total

pub disk_bytes-append :
    (disk : Disk) (a start b : ℕ)
    → disk_bytes disk start a ++ disk_bytes disk (start + a) b ≡ disk_bytes disk start (a + b)
unfolding disk_bytes
disk_bytes-append disk zero start b =
    simp (unary_clauses) (ap (λ n. disk_bytes disk start n) {x = b} {y = 0 + b} (omega arith))
disk_bytes-append disk (suc a) start b =
    ap (λ t. disk_byte disk start ∷ t)
      (ap (λ k. disk_bytes disk (start + 1) a ++ disk_bytes disk k b) {x = start + suc a}
          {y = start + 1 + a} (omega arith)
        ∙ disk_bytes-append disk a (start + 1) b)
    ∙ ap (λ n. disk_bytes disk start n) {x = suc (a + b)} {y = suc a + b} (omega arith)

-- Within a sector the copy is the disk's.
copy_out-disk_bytes :
    (disk : Disk) (total sector offset : ℕ)
    → offset + total ≤ sector_size
    → copy_out total offset (disk.sector sector)
      ≡ disk_bytes disk (sector * sector_size + offset) total
unfolding copy_out disk_bytes disk_byte
copy_out-disk_bytes disk zero sector offset h = refl
copy_out-disk_bytes disk (suc total) sector offset h =
    ap₂ (λ b bs. b ∷ bs)
      (ap₂ (λ s i. disk.sector s i) {x = sector} {y = (sector * sector_size + offset) / sector_size}
        (omega arith) (omega arith))
      (copy_out-disk_bytes disk total sector (offset + 1) (omega arith)
        ∙ ap (λ k. disk_bytes disk k total) {x = sector * sector_size + (offset + 1)}
            {y = sector * sector_size + offset + 1} (omega arith))

read_in_sector :
    (disk : Disk) (start total : ℕ)
    → start % sector_size + total ≤ sector_size
    → copy_out total (start % sector_size) (disk.sector (start / sector_size))
      ≡ disk_bytes disk start total
read_in_sector disk start total h =
    copy_out-disk_bytes disk total (start / sector_size) (start % sector_size) h
    ∙ ap (λ k. disk_bytes disk k total)
        {x = start / sector_size * sector_size + start % sector_size} {y = start} (omega arith)

-- The bytes up to the end of the sector, and those behind it.
read_across :
    (disk : Disk) (start total : ℕ)
    → sector_size ≤ start % sector_size + total
    → let total_to_read = total - (start % sector_size + total - sector_size) in
      copy_out total_to_read (start % sector_size) (disk.sector (start / sector_size))
        ++ disk_bytes disk (start + total_to_read) (total - total_to_read)
      ≡ disk_bytes disk start total
read_across disk start total h =
    let total_to_read = total - (start % sector_size + total - sector_size) in
    rw (read_in_sector disk start total_to_read (omega arith)) (
      disk_bytes-append disk total_to_read start (total - total_to_read)
      ∙ ap (λ n. disk_bytes disk start n) {x = total_to_read + (total - total_to_read)} {y = total}
          (omega arith))

stream_at : Disk → ℕ → DiskStream
stream_at disk pos = record { pos = pos; disk = disk.address }

abbrev done : Read → Option Read
done = some

read_rounds-disk_bytes :
    (disk : Disk) (fuel total pos : ℕ)
    → total < fuel
    → pos + total < 2 ^ 31
    → read_rounds disk fuel (stream_at disk pos) total
      ≡ some (disk_bytes disk pos total, stream_at disk (pos + total), all_ok)
unfolding read_rounds disk_read_block stream_at read_on
read_rounds-disk_bytes disk zero total pos h b = absurd (omega arith)
read_rounds-disk_bytes disk (suc fuel) total pos h b =
    let fits : ltb (pos % sector_size + total) (2 ^ 31) ≡ true = ground arith in
    rw (fits, ==_refl disk.address, read_rounds)
      (elim (dec_lt (pos % sector_size + total) sector_size) [
        | yes l ↦
            let in_sector : leb sector_size (pos % sector_size + total) ≡ false = ground arith in
            let next_fits : ltb (pos + total) (2 ^ 31) ≡ true = ground arith in
            rw (in_sector, next_fits)
              (ap (λ bs. done (bs, stream_at disk (pos + total), all_ok))
                (read_in_sector disk pos total (omega arith)))
        | no nl ↦
            let total_to_read = total - (pos % sector_size + total - sector_size) in
            let across : leb sector_size (pos % sector_size + total) ≡ true = ground arith in
            let out =
              copy_out total_to_read (pos % sector_size) (disk.sector (pos / sector_size)) in
            let at_end : pos + total_to_read + (total - total_to_read) ≡ pos + total =
              omega arith in
            let next_fits : ltb (pos + total_to_read) (2 ^ 31) ≡ true = ground arith in
            rw (across, next_fits)
              (ap (read_on true out (stream_at disk (pos + total_to_read))) (
                  read_rounds-disk_bytes disk fuel (total - total_to_read) (pos + total_to_read)
                    (omega arith) (omega arith))
                ∙ (ap₂ (λ bs k. done (bs, stream_at disk k, all_ok))
                    (read_across disk pos total (omega arith)) at_end))
      ])

-- On a stream over the disk, where the position behind the request is below 2 ^ 31 and the drive
-- answers, disk_streamer_read ends, gives the requested bytes of the disk behind the position,
-- through as many sectors as they take, and moves the position on by their number.
pub disk_streamer_read-disk_bytes :
    (disk : Disk) (stream : DiskStream) (total : ℕ)
    → stream.disk ≡ disk.address
    → stream.pos + total < 2 ^ 31
    → disk_streamer_read disk stream total
      ≡ some (disk_bytes disk stream.pos total, record stream { pos = stream.pos + total }, all_ok)
unfolding disk_streamer_read stream_at
disk_streamer_read-disk_bytes disk stream total e b =
    subst
      (λ d.
        disk_streamer_read disk (record { pos = stream.pos; disk = d }) total
        ≡ some (
          disk_bytes disk stream.pos total,
          record { pos = stream.pos + total; disk = d },
          all_ok,
        ))
      (sym e) (read_rounds-disk_bytes disk (total + 1) total stream.pos (omega arith) b)
