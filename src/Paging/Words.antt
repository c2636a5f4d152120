-- ===== src/Paging/Words.antt =====
-- Little-endian 32-bit words in memory.
use marrow_os.Base.{ℕ, ◌+◌, ◌*◌, ◌/◌, ◌%◌, ◌^◌, ◌≤◌, ◌<◌, ◌≡◌, ◌⊎◌, arith}
use marrow_os.Memory.{Mem, update}

unfoldable pub read32 : Mem → ℕ → ℕ
read32 m p = m p + 256 * m (p + 1) + 65536 * m (p + 2) + 16777216 * m (p + 3)

unfoldable pub write32 : Mem → ℕ → ℕ → Mem
write32 m p v =
    update
      (update (update (update m p (v % 256)) (p + 1) (v / 256 % 256)) (p + 2) (v / 65536 % 256))
      (p + 3) (v / 16777216 % 256)

pub write32-get : (m : Mem) (p v q : ℕ) → ((q < p) ⊎ (p + 4 ≤ q)) → write32 m p v q ≡ m q
unfolding write32
write32-get m p v q h = ground arith

pub read32-write32 : (m : Mem) (p v : ℕ) → v < 2 ^ 32 → read32 (write32 m p v) p ≡ v
unfolding read32 write32
read32-write32 m p v h = ground arith

pub read32-write32_disjoint :
    (m : Mem) (p v q : ℕ) → ((q + 4 ≤ p) ⊎ (p + 4 ≤ q)) → read32 (write32 m p v) q ≡ read32 m q
unfolding read32
read32-write32_disjoint m p v q h = ground (
  arith,
  write32-get m p v q,
  write32-get m p v (q + 1),
  write32-get m p v (q + 2),
  write32-get m p v (q + 3),
)
