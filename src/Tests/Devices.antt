-- ===== src/Tests/Devices.antt =====
-- The keyboard, the terminal, the descriptor table and the disk.
use marrow_os.Gdt.Decode.{AllSegments}
use marrow_os.Base.{length}
use marrow_os.Base.{
  ℕ, zero, suc, ◌+◌, ◌-◌, ◌*◌, ◌%◌, ◌≤◌, ◌<◌, ◌≡◌, refl, ◌⊎◌, ltb, leb, ◌&&◌, if◌then◌else◌, inl,
  inr, arith, List, [], ◌∷◌, some, replicate, get_or,
}
use marrow_os.Memory.{Mem}
use marrow_os.Terminal.{Terminal, print}
use marrow_os.Terminal.Tape.{position, InRow, cell_of, print-tape}
use marrow_os.Gdt.{gdt_structured_to_gdt, gdt_segments}
use marrow_os.Gdt.Decode.{DescribesAll, gdt_structured_to_gdt-DescribesAll}
use marrow_os.Streamer.{Disk, DiskStream, disk_streamer_read, all_ok}
use marrow_os.Streamer.Stream.{disk_bytes, disk_streamer_read-disk_bytes}

pub get_or-zeros : (n i : ℕ) → get_or {A = ℕ} (replicate n 0) i 0 ≡ 0
get_or-zeros zero i = refl
get_or-zeros (suc n) zero = refl
get_or-zeros (suc n) (suc i) = get_or-zeros n i

-- The cursor stands two cells before the end of a row.
abbrev screen : Terminal
screen = record { video_mem = λ i. 0; row = 3; col = 78 }

abbrev hello : List ℕ
hello = b'h' ∷ (b'e' ∷ (b'y' ∷ []))

print-tape_example :
    (t' : Terminal) × (print hello screen ≡ some t')
    × (position t' ≡ position screen + 3)
    × InRow t'
    × ((i : ℕ)
        → t'.video_mem i
          ≡ (if leb 318 i && ltb i (318 + 3) then cell_of (get_or hello (i - 318) 0) else 0))
print-tape_example =
    print-tape hello screen
      (
        (omega arith, omega arith, omega arith),
        ((omega arith, omega arith, omega arith), ((omega arith, omega arith, omega arith), tt)),
      )
      (omega arith) (omega arith)

abbrev mem : Mem
mem p = 0xee

-- The kernel's own table.
pub segments-IsSegment : AllSegments (gdt_segments 0x123456)
unfolding gdt_segments
segments-IsSegment = (
  (omega arith, omega arith, inl (omega arith)),
  (
    (omega arith, omega arith, inr refl),
    (
      (omega arith, omega arith, inr refl),
      (
        (omega arith, omega arith, inr refl),
        ((omega arith, omega arith, inr refl), ((omega arith, omega arith, inl (omega arith)), tt)),
      ),
    ),
  ),
)

gdt_structured_to_gdt-DescribesAll_example :
    (m' : Mem) × (gdt_structured_to_gdt 0x500 (gdt_segments 0x123456) mem ≡ some m')
    × DescribesAll m' 0x500 (gdt_segments 0x123456)
    × ((q : ℕ) → (q < 0x500) ⊎ (0x500 + 8 * length (gdt_segments 0x123456) ≤ q) → m' q ≡ mem q)
gdt_structured_to_gdt-DescribesAll_example =
    gdt_structured_to_gdt-DescribesAll 0x500 (gdt_segments 0x123456) mem segments-IsSegment

abbrev disk : Disk
disk = record { address = 0x9000; sector = λ s i. (s + i) % 256 }

abbrev stream : DiskStream
stream = record { pos = 510; disk = 0x9000 }

-- The read crosses two sectors' ends.
disk_streamer_read-disk_bytes_example :
    disk_streamer_read disk stream 600
    ≡ some (disk_bytes disk 510 600, record stream { pos = 1110 }, all_ok)
disk_streamer_read-disk_bytes_example =
    disk_streamer_read-disk_bytes disk stream 600 refl (omega arith)
