-- ===== src/Tests/Images.antt =====
-- A program of two segments in memory, and numbers that are printed.
use marrow_os.Base.{
  ℕ, ◌+◌, ◌-◌, ◌/◌, ◌%◌, ◌^◌, ◌≡◌, ◌==◌, if◌then◌else◌, arith, false, some, List, negsuc,
}
use marrow_os.Stdio.{udivmod64, print_ull, itoa}
use marrow_os.Stdio.Division.{udivmod64-div}
use marrow_os.Stdio.Digits.{read_digits, print_ull-reads}
use marrow_os.Stdio.Signed.{Spells, itoa-Spells}
use marrow_os.Memory.{Mem}
use marrow_os.Elf.{ElfFile}

-- The image at 0: two headers from 52 on, of 4096 bytes at 0x400000 and 8 bytes at 0x402000.
abbrev image : Mem
image p =
    if p == 28
    then 52
    else if p == 44
    then 2
    else if p == 52
    then 1
    else if p == 62
    then 0x40
    else if p == 69
    then 0x10
    else if p == 84
    then 1
    else if p == 93
    then 0x20
    else if p == 94
    then 0x40
    else if p == 100
    then 8
    else 0

abbrev program : ElfFile
program = record {
  elf_memory = 0;
  virtual_base_address = 0;
  virtual_end_address = 0;
  physical_base_address = 0;
  physical_end_address = 0;
}

udivmod64-div_example : udivmod64 (2 ^ 40 + 7) 1000 ≡ ((2 ^ 40 + 7) / 1000, (2 ^ 40 + 7) % 1000)
udivmod64-div_example = udivmod64-div (2 ^ 40 + 7) 1000 (omega arith) (omega arith) (omega arith)

print_ull-reads_example :
    (text : List ℕ) × (print_ull 0xdeadbeef0 16 false ≡ some text)
    × (read_digits 16 0 text ≡ 0xdeadbeef0)
print_ull-reads_example =
    print_ull-reads 16 false (omega arith) (omega arith) 0xdeadbeef0 (omega arith)

-- The least `int`.
itoa-Spells_example :
    (text : List ℕ) × (itoa (negsuc (2 ^ 31 - 1)) ≡ some text) × Spells (negsuc (2 ^ 31 - 1)) text
itoa-Spells_example = itoa-Spells (negsuc (2 ^ 31 - 1)) (omega arith)
