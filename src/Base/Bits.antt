-- ===== src/Base/Bits.antt =====
-- Laws of the bit operations at variables: masks of low bits, page masks, flags in low bits.
use Prim.Native.Nat.{
  ℕ, zero, suc, ◌+◌, ◌-◌, ◌*◌, ◌/◌, ◌%◌, ◌^◌, ◌≤◌, ◌<◌, min, max, bit_and, bit_or, digits,
  bit_and-bitwise, bit_or-bitwise,
}
use mathlib.Core.Path.{◌≡◌, refl, ap, ◌∙◌}
use native.Mathlib.Nat.{pow-suc, one-le-pow}
use native.Mathlib.Omega.{arith}

-- The digits of a number are done after as many rounds as the number itself, so rounds that both
-- counts exceed it by change nothing. `past` is the rest where the left number has ended.
module _ (past : ℕ → ℕ) (digit : ℕ → ℕ → ℕ) where
  abbrev rounds : ℕ → ℕ → ℕ → ℕ
  rounds count left right = digits past digit count left right

  rounds_settle :
      (left right some_count other_count : ℕ)
      → left ≤ some_count
      → left ≤ other_count
      → rounds some_count left right ≡ rounds other_count left right
  rounds_settle zero right zero zero h h' = refl
  rounds_settle zero right zero (suc other) h h' = refl
  rounds_settle zero right (suc count) zero h h' = refl
  rounds_settle zero right (suc count) (suc other) h h' = refl
  rounds_settle (suc left) right zero other h h' = absurd (omega arith)
  rounds_settle (suc left) right (suc count) zero h h' = absurd (omega arith)
  rounds_settle (suc left) right (suc count) (suc other) h h' =
      let halves =
        rounds_settle (suc left / 2) (right / 2) count other (omega arith) (omega arith) in
      ap (λ t. t * 2 + digit (suc left % 2) (right % 2)) halves

  -- The lowest digits of both numbers come apart from the others.
  lowest_digit :
      ((right : ℕ) → past right ≡ past (right / 2) * 2 + digit 0 (right % 2))
      → (left right : ℕ)
      → rounds left left right
        ≡ rounds (left / 2) (left / 2) (right / 2) * 2 + digit (left % 2) (right % 2)
  lowest_digit rule zero right = rule right
  lowest_digit rule (suc left) right =
      ap (λ t. t * 2 + digit (suc left % 2) (right % 2))
        (rounds_settle (suc left / 2) (right / 2) left (suc left / 2) (omega arith) (omega arith))

pub bit_and_step : (a b : ℕ) → bit_and a b ≡ bit_and (a / 2) (b / 2) * 2 + min (a % 2) (b % 2)
bit_and_step a b =
    rw (bit_and-bitwise a b, bit_and-bitwise (a / 2) (b / 2))
      (lowest_digit (λ _. 0) min (λ right. omega arith) a b)

pub bit_or_step : (a b : ℕ) → bit_or a b ≡ bit_or (a / 2) (b / 2) * 2 + max (a % 2) (b % 2)
bit_or_step a b =
    rw (bit_or-bitwise a b, bit_or-bitwise (a / 2) (b / 2))
      (lowest_digit (λ right. right) max (λ right. omega arith) a b)

-- Zero as the right operand.
clears : (count left : ℕ) → rounds (λ _. 0) min count left 0 ≡ 0
clears zero left = refl
clears (suc count) zero = refl
clears (suc count) (suc left) = omega (arith, clears count (suc left / 2))

keeps : (count left : ℕ) → left ≤ count → rounds (λ right. right) max count left 0 ≡ left
keeps zero left h = omega arith
keeps (suc count) zero h = refl
keeps (suc count) (suc left) h = omega (arith, keeps count (suc left / 2) (omega arith))

pub bit_and-zero : (a : ℕ) → bit_and a 0 ≡ 0
bit_and-zero a = bit_and-bitwise a 0 ∙ clears a a

pub bit_or-zero : (a : ℕ) → bit_or a 0 ≡ a
bit_or-zero a = bit_or-bitwise a 0 ∙ keeps a a (omega arith)

pub mul-pow-suc : (q k : ℕ) → q * 2 ^ suc k ≡ 2 * (q * 2 ^ k)
mul-pow-suc q k = omega (arith, ap (λ (t : ℕ). q * t) (pow-suc 2 k))

-- A low field is or-ed in as a sum.
pub bit_or_low : (k q r : ℕ) → r < 2 ^ k → bit_or (q * 2 ^ k) r ≡ q * 2 ^ k + r
bit_or_low zero q r h = ground (arith, bit_or-zero q)
bit_or_low (suc k) q r h =
    ground
      (arith, pow-suc 2 k, mul-pow-suc q k, bit_or_step (q * 2 ^ suc k) r, bit_or_low k q (r / 2))

-- The double of a mask reads the half of a number.
bit_and-double : (a m : ℕ) → bit_and a (2 * m) ≡ 2 * bit_and (a / 2) m
bit_and-double a m =
    omega (arith, bit_and_step a (2 * m), ap (λ (t : ℕ). bit_and (a / 2) t) (half m))
  where
    half : (n : ℕ) → 2 * n / 2 ≡ n
    half n = omega arith

-- A mask whose `k` low bits are clear drops these bits of a number given by its two fields.
pub bit_and_high :
    (k q r m : ℕ) → r < 2 ^ k → bit_and (q * 2 ^ k + r) (m * 2 ^ k) ≡ bit_and q m * 2 ^ k
bit_and_high zero q r m h =
    ground (arith, ap (λ (t : ℕ). bit_and t (m * 1)) {x = q * 1 + r} {y = q} (omega arith))
bit_and_high (suc k) q r m h = ground (
  arith,
  pow-suc 2 k,
  mul-pow-suc q k,
  mul-pow-suc m k,
  mul-pow-suc (bit_and q m) k,
  bit_and-double (q * 2 ^ suc k + r) (m * 2 ^ k),
  bit_and_high k q (r / 2) m,
)

-- A mask of `k` ones keeps the low field.
pub bit_and_low : (k q r : ℕ) → r < 2 ^ k → bit_and (q * 2 ^ k + r) (2 ^ k - 1) ≡ r
bit_and_low zero q r h = omega (arith, bit_and-zero (q * 1 + r))
bit_and_low (suc k) q r h = ground (
  arith,
  pow-suc 2 k,
  one-le-pow k 2,
  mul-pow-suc q k,
  bit_and_step (q * 2 ^ suc k + r) (2 ^ suc k - 1),
  bit_and_low k q (r / 2),
)

pub bit_and_ones : (k a : ℕ) → bit_and a (2 ^ k - 1) ≡ a % 2 ^ k
bit_and_ones k a = ground (arith, one-le-pow k 2, bit_and_low k (a / 2 ^ k) (a % 2 ^ k))

-- The masks of the source, as arithmetic.
pub bit_and_nibble : (a : ℕ) → bit_and a 0x0f ≡ a % 16
bit_and_nibble a = bit_and_ones 4 a

pub bit_and_byte : (a : ℕ) → bit_and a 0xff ≡ a % 256
bit_and_byte a = bit_and_ones 8 a

-- `a & 0xfffff000` on 32 bits: the page that `a` lies in.
pub bit_and_page : (p r : ℕ) → r < 4096 → p < 2 ^ 20 → bit_and (p * 4096 + r) 0xfffff000 ≡ p * 4096
bit_and_page p r h hp = ground (arith, bit_and_high 12 p r 0xfffff, bit_and_ones 20 p)

-- `a & 0x80` on a byte: its top bit.
pub bit_and_top : (p r : ℕ) → r < 128 → p < 2 → bit_and (p * 128 + r) 0x80 ≡ p * 128
bit_and_top p r h hp = ground (arith, bit_and_high 7 p r 1, bit_and_ones 1 p)

-- Flags that are or-ed into a low field leave the high one.
pub bit_or_fields :
    (k q r s : ℕ)
    → r < 2 ^ k
    → s < 2 ^ k
    → (bit_or (q * 2 ^ k + r) s ≡ q * 2 ^ k + bit_or r s) × (bit_or r s < 2 ^ k)
bit_or_fields zero q r s h h' = ground (arith, bit_or-zero (q * 1 + r), bit_or-zero r)
bit_or_fields (suc k) q r s h h' = ground (
  arith,
  pow-suc 2 k,
  mul-pow-suc q k,
  bit_or_step (q * 2 ^ suc k + r) s,
  bit_or_step r s,
  bit_or_fields k q (r / 2) (s / 2),
)
