-- ===== src/Stdio/Division.antt =====
-- `udivmod64` of programs/stdlib/src/stdio.c divides.
use marrow_os.Base.{
  ℕ, zero, suc, ◌+◌, ◌-◌, ◌*◌, ◌/◌, ◌%◌, ◌^◌, ◌<◌, ◌≡◌, refl, sym, ap, ap₂, ◌∙◌, bit_or, leb, true,
  false, arith, dec_lt,
}
use marrow_os.Base.Bits.{bit_or_low, mul-pow-suc}
use native.Mathlib.Nat.{
  pow-suc, one-le-pow, div-div-eq-div-mul, add-mul, mul_assoc, add-mul-div_right,
  add-mul-mod_self_right, div-eq_of_lt, mod-eq_of_lt,
}
use marrow_os.Stdio.{divmod_from, udivmod64}

-- The next bit of the number goes below the remainder.
shift_in : (r b : ℕ) → r < 2 ^ 32 → b < 2 → bit_or (r * 2 % 2 ^ 64) b ≡ 2 * r + b
shift_in r b h h' =
    ap (λ t. bit_or t b) {x = r * 2 % 2 ^ 64} {y = r * 2 ^ 1} (omega arith)
    ∙ bit_or_low 1 r b (omega arith)
    ∙ omega arith

-- A number that is shifted right by one bit less.
halves : (n i : ℕ) → n / 2 ^ i ≡ 2 * (n / 2 ^ suc i) + n / 2 ^ i % 2
halves n i =
    let twice : n / 2 ^ i / 2 ≡ n / 2 ^ suc i =
      div-div-eq-div-mul n (2 ^ i) 2
      ∙ ap (λ t. n / t) {x = 2 ^ i * 2} {y = 2 ^ suc i} (omega (arith, pow-suc 2 i)) in
    omega (arith, twice)

twice_mul : (k x : ℕ) → 2 * k * x ≡ 2 * (k * x)
twice_mul k x = mul_assoc 2 k x

set_bit : (k i : ℕ) → bit_or (k * 2 ^ suc i) (2 ^ i) ≡ (2 * k + 1) * 2 ^ i
set_bit k i =
    bit_or_low (suc i) k (2 ^ i) (omega (arith, pow-suc 2 i, one-le-pow i 2))
    ∙ omega (arith, mul-pow-suc k i, add-mul (2 * k) 1 (2 ^ i), twice_mul k (2 ^ i))

-- A number given by quotient and remainder.
quotient : (k d r : ℕ) → r < d → (k * d + r) / d ≡ k
quotient k d r h =
    ap (λ t. t / d) {x = k * d + r} {y = r + k * d} (omega arith)
    ∙ add-mul-div_right r k (omega arith)
    ∙ ap (λ t. t + k) (div-eq_of_lt h)
    ∙ omega arith

remainder : (k d r : ℕ) → r < d → (k * d + r) % d ≡ r
remainder k d r h =
    ap (λ t. t % d) {x = k * d + r} {y = r + k * d} (omega arith)
    ∙ add-mul-mod_self_right r k d
    ∙ mod-eq_of_lt h

-- With `i` bits to go, the quotient and the remainder are those of the number without its last `i` bits.
divmod_from-div :
    (i n d k r : ℕ)
    → r < d
    → d < 2 ^ 32
    → n / 2 ^ i ≡ k * d + r
    → divmod_from i n d (k * 2 ^ i) r ≡ (n / d, n % d)
unfolding divmod_from
divmod_from-div zero n d k r h w e =
    let whole : n ≡ k * d + r = omega (arith, e) in
    ap₂ (λ q s. (q, s)) {x = k * 1} {y = n / d} {u = r % 2 ^ 32} {v = n % d}
      (omega arith ∙ sym (quotient k d r h) ∙ ap (λ t. t / d) (sym whole))
      (omega arith ∙ sym (remainder k d r h) ∙ ap (λ t. t % d) (sym whole))
divmod_from-div (suc i) n d k r h w e =
    let b = n / 2 ^ i % 2 in
    let r' = 2 * r + b in
    let bits : n / 2 ^ i ≡ 2 * (k * d) + r' = omega (arith, halves n i, e) in
    rw (shift_in r b (omega arith) (omega arith)) (elim (dec_lt r' d) [
      | yes below ↦
          let small : leb d r' ≡ false = ground arith in
          rw small (
            ap (λ q. divmod_from i n d q r') {x = k * 2 ^ suc i} {y = 2 * k * 2 ^ i}
              (omega (arith, mul-pow-suc k i, twice_mul k (2 ^ i)))
            ∙ divmod_from-div i n d (2 * k) r' below w (omega (arith, bits, twice_mul k d)))
      | no above ↦
          let large : leb d r' ≡ true = ground arith in
          rw (large, set_bit k i)
            (divmod_from-div i n d (2 * k + 1) (r' - d) (omega arith) w
              (omega (arith, bits, add-mul (2 * k) 1 d, twice_mul k d)))
    ])

-- udivmod64 of a 64-bit number by a divisor of 32 bits that is not 0 gives the quotient and the
-- remainder of the division.
pub udivmod64-div : (n d : ℕ) → n < 2 ^ 64 → 0 < d → d < 2 ^ 32 → udivmod64 n d ≡ (n / d, n % d)
unfolding udivmod64
udivmod64-div n d h p w =
    ap (λ q. divmod_from 64 n d q 0) {x = 0} {y = 0 * 2 ^ 64} refl
    ∙ divmod_from-div 64 n d 0 0 p w (omega arith)
