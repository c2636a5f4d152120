-- ===== src/Memory.antt =====
-- src/memory/memory.c: bytes at addresses of the 32-bit space. `memset` and `memcpy` go round by
-- round as their loops do, so overlapping ranges behave as in the source.
pub mod Laws
use marrow_os.Base.{
  ℕ, zero, suc, ◌+◌, ◌%◌, ◌^◌, ◌==◌, if◌then◌else◌, ℤ, pos, negsuc, ltb_ℤ, char_of_byte,
}

-- What every address holds.
abbrev pub Mem : Type 0
Mem = ℕ → ℕ

-- The byte at `p` is now `v`.
abbrev pub update : Mem → ℕ → ℕ → Mem
update m p v q = if q == p then v else m q

abbrev pub address : ℕ → ℕ
address p = p % 2 ^ 32

-- The loop of `memset` at index `i`, with `left` rounds to go.
pub memset_from : ℕ → ℕ → ℕ → ℕ → Mem → Mem
memset_from zero i ptr c m = m
memset_from (suc left) i ptr c m =
    memset_from left (i + 1) ptr c (update m (address (ptr + i)) (c % 256))

pub memset : ℕ → ℕ → ℕ → Mem → Mem
memset ptr c size m = memset_from size 0 ptr c m

-- The loop of `memcmp` at index `i` of both buffers, which are given by their bytes.
unfoldable pub memcmp_from : ℕ → ℕ → (ℕ → ℕ) → (ℕ → ℕ) → ℤ
memcmp_from zero i c1 c2 = pos 0
memcmp_from (suc count) i c1 c2 =
    let rest = memcmp_from count (i + 1) c1 c2 in
    if c1 i == c2 i
    then rest
    else (if ltb_ℤ (char_of_byte (c1 i)) (char_of_byte (c2 i)) then negsuc 0 else pos 1)

unfoldable pub memcmp : (ℕ → ℕ) → (ℕ → ℕ) → ℕ → ℤ
memcmp s1 s2 count = memcmp_from count 0 s1 s2

pub memcpy : ℕ → ℕ → ℕ → Mem → Mem
memcpy dest src zero m = m
memcpy dest src (suc len) m =
    memcpy (dest + 1) (src + 1) len (update m (address dest) (m (address src)))
