-- ===== src/Tests/Texts.antt =====
-- Bytes, strings and paths.
use marrow_os.Base.{
  ℕ, ◌%◌, ◌≡◌, refl, arith, pos, List, [], ◌∷◌, ◌++◌, map, take, drop, some, replicate,
}
use marrow_os.Memory.{Mem}
use marrow_os.CString.{strncpy}
use marrow_os.CString.Compare.{IsText}
use marrow_os.CString.Copy.{strncpy-take}
use marrow_os.Kheap.{Kernel}
use marrow_os.Kheap.Room.{Room, kernel_allocator}
use marrow_os.PathParser.{PathRoot, pathparser_parse}
use marrow_os.PathParser.Scan.{padded, AllNames}
use marrow_os.PathParser.Parts.{part_buffer}
use marrow_os.PathParser.RoundTrip.{format, pathparser_parse-format}
use marrow_os.Heap.Segments.{gaps}

abbrev mem : Mem
mem p = p % 256

abbrev shell : List ℕ
shell = b'S' ∷ (b'h' ∷ (b'1' ∷ []))

abbrev shell_lower : List ℕ
shell_lower = b's' ∷ (b'h' ∷ (b'1' ∷ []))

shell-IsText : IsText shell
shell-IsText = (omega arith, (omega arith, (omega arith, tt)))

shell_lower-IsText : IsText shell_lower
shell_lower-IsText = (omega arith, (omega arith, (omega arith, tt)))

abbrev buffer : List ℕ
buffer = 9 ∷ (9 ∷ (9 ∷ (9 ∷ [])))

-- The text is cut to two bytes.
strncpy-take_example : strncpy buffer shell 3 ≡ some (take 2 shell ++ 0 ∷ drop 3 buffer)
strncpy-take_example = strncpy-take buffer shell 3 shell-IsText (omega arith) (omega arith)

abbrev free_kernel : Kernel
free_kernel = record {
  heap = record { table = record { entries = replicate 8 0; total = 8 }; saddr = 0x100000 };
  mem = mem;
}

free_kernel-Room : Room 6 free_kernel
free_kernel-Room = record {
  segs = gaps 8;
  formed = record { entries_eq = refl; total_eq = refl; space = omega arith; reach = omega arith };
  above_zero = omega arith;
  enough = omega arith;
}

abbrev names : List (List ℕ)
names = (b'd' ∷ []) ∷ []

abbrev name : List ℕ
name = b'b' ∷ (b'c' ∷ [])

names_plain : AllNames (name ∷ names)
names_plain = (
  (cc, (omega arith, omega arith, (omega arith, omega arith, tt))),
  ((cc, (omega arith, omega arith, tt)), tt),
)

-- The path 0:/bc/d over the kernel heap.
pathparser_parse-format_example :
    (root : PathRoot) × (s' : Kernel) × (pathparser_parse kernel_allocator
        (format 0 (name ∷ names))
        free_kernel
      ≡ some (some root, s'))
    × (root.drive_no ≡ pos 0)
    × (map part_buffer root.parts ≡ map padded (name ∷ names))
pathparser_parse-format_example =
    pathparser_parse-format kernel_allocator 0 name names free_kernel (omega arith) names_plain
      (omega arith) free_kernel-Room
