-- ===== src/Tests/Pages.antt =====
-- A page directory at 1 MiB whose tables stand in a row from 2 MiB on, and a chunk that points to it.
use marrow_os.Base.{
  ℕ, some, ◌+◌, ◌-◌, ◌*◌, ◌/◌, ◌%◌, ◌<◌, ◌≡◌, refl, true, ap, ap₂, ◌≢◌, ◌==◌, ltb, leb, ◌&&◌,
  if◌then◌else◌, arith,
}
use marrow_os.Base.Bits.{bit_and_page}
use marrow_os.Process.Mapping.{Program, file_type_binary, process_map_memory}
use marrow_os.Process.Mapping.Binary.{process_map_memory-binary}
use marrow_os.Memory.{Mem}
use marrow_os.Paging.{
  all_ok, page_size, table_of, paging_set, paging_get, paging_map_to,
  paging_4gb_chunk_get_directory, paging_get_physical_address,
}
use marrow_os.Paging.Words.{read32}
use marrow_os.Paging.Entries.{IsPage, IsDirectory, paging_get-paging_set}
use marrow_os.Paging.Ranges.{IsChunk, Mapped}
use marrow_os.Paging.Translate.{paging_map_to-translates}

abbrev directory : ℕ
directory = 0x100000

abbrev chunk : ℕ
chunk = 0x80000

-- The bytes of a word.
byte_of : ℕ → ℕ → ℕ
byte_of v k =
    if k == 0
    then v % 256
    else (if k == 1 then v / 256 % 256 else (if k == 2 then v / 65536 % 256 else v / 16777216))

tables : Mem
tables p =
    if leb directory p && ltb p (directory + 4096)
    then byte_of (0x200000 + (p - directory) / 4 * 4096 + 7) ((p - directory) % 4)
    else (if p == chunk + 2 then 0x10 else 0)

index : (i k : ℕ) → k < 4 → (directory + 4 * i + k - directory) / 4 ≡ i
index i k l = omega arith

offset : (i k : ℕ) → k < 4 → (directory + 4 * i + k - directory) % 4 ≡ k
offset i k l = omega arith

tables-byte :
    (i k : ℕ)
    → i < 1024
    → k < 4
    → tables (directory + 4 * i + k) ≡ byte_of (0x200000 + i * 4096 + 7) k
unfolding tables
tables-byte i k h l =
    let inside : (leb directory (directory + 4 * i + k)
          && ltb (directory + 4 * i + k) (directory + 4096))
        ≡ true =
      ground arith in
    rw inside (ap₂ (λ j r. byte_of (0x200000 + j * 4096 + 7) r) (index i k l) (offset i k l))

read-tables : (i : ℕ) → i < 1024 → read32 tables (directory + 4 * i) ≡ (0x200 + i) * 4096 + 7
unfolding read32 byte_of
read-tables i h = omega (
  arith,
  ap tables {x = directory + 4 * i} {y = directory + 4 * i + 0} (omega arith),
  tables-byte i 0 h (omega arith),
  tables-byte i 1 h (omega arith),
  tables-byte i 2 h (omega arith),
  tables-byte i 3 h (omega arith),
)

table_of-tables : (i : ℕ) → i < 1024 → table_of directory i tables ≡ (0x200 + i) * 4096
unfolding table_of
table_of-tables i h = rw (read-tables i h) (bit_and_page (0x200 + i) 7 (omega arith) (omega arith))

tables-IsDirectory : IsDirectory directory tables
tables-IsDirectory = record {
  tables_apart = λ i j p q ne. rw (table_of-tables i p, table_of-tables j q) (omega arith);
  directory_apart = λ i p. rw (table_of-tables i p) (omega arith);
}

tables-IsChunk : IsChunk chunk directory tables
unfolding tables read32 paging_4gb_chunk_get_directory
tables-IsChunk = record {
  points = refl;
  formed = tables-IsDirectory;
  chunk_apart = λ i p. rw (table_of-tables i p) (omega arith);
}

paging_get-paging_set_example :
    let (res, m') = paging_set directory 0x400000 0x777007 tables in
    (res ≡ all_ok)
    × (paging_get directory 0x400000 m' ≡ 0x777007)
    × ((other : ℕ)
        → IsPage other
        → other ≢ 0x400000
        → paging_get directory other m' ≡ paging_get directory other tables)
    × IsDirectory directory m'
paging_get-paging_set_example =
    paging_get-paging_set directory 0x400000 0x777007 tables tables-IsDirectory (refl, omega arith)
      (omega arith)

paging_map_to-translates_example :
    let (res, m') = paging_map_to chunk 0x400000 0x10000 0x13000 7 tables in
    (res ≡ all_ok)
    × ((k : ℕ)
        → k < 0x13000 - 0x10000
        → paging_get_physical_address directory (0x400000 + k) m' ≡ 0x10000 + k)
    × Mapped directory 0x400000 0x10000 ((0x13000 - 0x10000) / page_size) 7 tables m'
    × IsChunk chunk directory m'
paging_map_to-translates_example =
    paging_map_to-translates chunk directory 0x400000 0x10000 0x13000 7 tables tables-IsChunk refl
      refl refl (omega arith) (omega arith) (omega arith) (omega arith)

-- A binary program of 0x2345 bytes at 64 KiB, with its stack at 128 KiB.
abbrev binary : Program
binary = record {
  page_directory = chunk;
  filetype = file_type_binary;
  ptr = 0x10000;
  size = 0x2345;
  elf_file = record {
    elf_memory = 0;
    virtual_base_address = 0;
    virtual_end_address = 0;
    physical_base_address = 0;
    physical_end_address = 0;
  };
  stack = 0x20000;
}

process_map_memory-binary_example :
    (m' : Mem) × (process_map_memory binary tables ≡ some (all_ok, m'))
    × ((k : ℕ) → k < 0x2345 → paging_get_physical_address directory (0x400000 + k) m' ≡ 0x10000 + k)
    × ((k : ℕ) → k < 16384 → paging_get_physical_address directory (0x3fb000 + k) m' ≡ 0x20000 + k)
process_map_memory-binary_example =
    process_map_memory-binary binary directory tables tables-IsChunk refl refl refl (omega arith)
      (omega arith)
