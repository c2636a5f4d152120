-- ===== src/Streamer.antt =====
-- src/disk/streamer.c over src/disk/disk.c: a stream of bytes over the sectors of a disk.
pub mod Stream
use marrow_os.Base.{
  ℕ, zero, suc, ◌+◌, ◌-◌, ◌*◌, ◌/◌, ◌%◌, ◌^◌, ◌<◌, ◌==◌, leb, ltb, List, [], ◌∷◌, ◌++◌, Bool, true,
  false, Option, none, some, if◌then◌else◌,
}

abbrev pub sector_size : ℕ
sector_size = 512

-- The one disk: where its structure stands, and what `disk_read_sector` finds behind the ports, the
-- bytes of a sector by index. The drive is taken to answer each time: the loop that polls its status port
-- ends when it does.
pub record Disk : Type 0 where
  pub address : ℕ
  pub sector : ℕ → ℕ → ℕ

-- `pos` is an `int` that is never below 0 here.
pub record DiskStream : Type 0 where
  pub pos : ℕ
  pub disk : ℕ

pub data Status : Type 0 where
  all_ok : Status
  eio : Status

pub disk_get : Disk → ℕ → Option ℕ
disk_get disk index = if index == 0 then some disk.address else none

-- `disk_read_block` of one sector: its bytes, or `none` for EIO.
pub disk_read_block : Disk → ℕ → ℕ → Option (ℕ → ℕ)
disk_read_block disk idisk lba = if idisk == disk.address then some (disk.sector lba) else none

pub disk_streamer_new : Disk → ℕ → Option DiskStream
disk_streamer_new disk disk_id = elim (disk_get disk disk_id) [
  | none ↦ none
  | some d ↦ some (record { pos = 0; disk = d })
]

unfoldable pub disk_streamer_seek : DiskStream → ℕ → DiskStream
disk_streamer_seek stream pos = record stream { pos = pos }

-- The copy of `total` bytes from `buf[offset]` on.
unfoldable pub copy_out : ℕ → ℕ → (ℕ → ℕ) → List ℕ
copy_out zero offset buf = []
copy_out (suc total) offset buf = buf offset ∷ copy_out total (offset + 1) buf

abbrev pub Read : Type 0
Read = List ℕ × DiskStream × Status

-- The end of a read, behind the copy of `out`: the call for what is left gives `more`.
unfoldable pub read_on : Bool → List ℕ → DiskStream → Option Read → Option Read
read_on false out next more = some (out, next, all_ok)
read_on true out next none = none
read_on true out next (some (rest, last, res)) = some (out ++ rest, last, res)

-- `disk_streamer_read` on fuel: what it writes to `out`, the stream after it, and what it returns.
-- It calls itself when the request reaches the end of a sector. A sum that an `int` does not hold is a
-- fault.
unfoldable pub read_rounds : Disk → ℕ → DiskStream → ℕ → Option Read
read_rounds disk zero stream total = none
read_rounds disk (suc fuel) stream total =
    let sector = stream.pos / sector_size in
    let offset = stream.pos % sector_size in
    let overflow = leb sector_size (offset + total) in
    let total_to_read = if overflow then total - (offset + total - sector_size) else total in
    let next = record stream { pos = stream.pos + total_to_read } in
    let more = read_rounds disk fuel next (total - total_to_read) in
    if ltb (offset + total) (2 ^ 31)
    then elim (disk_read_block disk stream.disk sector) [
      | none ↦ some ([], stream, eio)
      | some buf ↦
          if ltb next.pos (2 ^ 31)
          then read_on overflow (copy_out total_to_read offset buf) next more
          else none
    ]
    else none

-- Each call reads at least one byte or is the last.
pub disk_streamer_read : Disk → DiskStream → ℕ → Option Read
disk_streamer_read disk stream total = read_rounds disk (total + 1) stream total
