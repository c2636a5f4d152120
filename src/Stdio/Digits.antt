-- ===== src/Stdio/Digits.antt =====
-- The texts that programs/stdlib/src/stdio.c and itoa print for a number, read back.
use marrow_os.Base.{
  ℕ, zero, suc, ◌+◌, ◌-◌, ◌*◌, ◌/◌, ◌%◌, ◌^◌, ◌<◌, ◌≤◌, ◌≡◌, refl, sym, ap, ◌∙◌, Bool, true, false,
  ltb, ◌==◌, ◌&&◌, if◌then◌else◌, some, List, [], ◌∷◌, arith, ==_ne, ℕ_discrete,
}
use native.Mathlib.Nat.{
  mod-lt, div-le_self, pow-zero, div-add-mod', div-lt_iff_lt-mul, pow-le-pow_left, pow-suc,
}
use marrow_os.Stdio.{digit, uint_digits, ull_digits, print_uint, print_ull}
use marrow_os.Stdio.Division.{udivmod64-div}

-- What a digit stands for, and a text of digits behind the number `n`.
unfoldable pub value : ℕ → ℕ
value c = if ltb c 58 then c - 48 else if ltb c 97 then c - 55 else c - 87

unfoldable pub read_digits : ℕ → ℕ → List ℕ → ℕ
read_digits base n [] = n
read_digits base n (c ∷ text) = read_digits base (n * base + value c) text

-- The first `count` digits stand for their places in the table.
in_place : Bool → ℕ → Bool
in_place upper zero = true
in_place upper (suc count) = (value (digit upper count) == count) && in_place upper count

in_place-value :
    (upper : Bool) (count d : ℕ)
    → d < count
    → in_place upper count ≡ true
    → value (digit upper d) ≡ d
unfolding in_place
in_place-value upper zero d h table = absurd (omega arith)
in_place-value upper (suc count) d h table = ground (arith, in_place-value upper count d)

table_in_place : (upper : Bool) → in_place upper 16 ≡ true
unfolding in_place value digit
table_in_place true = refl
table_in_place false = refl

value-digit : (upper : Bool) (d : ℕ) → d < 16 → value (digit upper d) ≡ d
value-digit upper d h = in_place-value upper 16 d h (table_in_place upper)

module _ (base : ℕ) (upper : Bool) (lo : 8 ≤ base) (hi : base ≤ 16) where
  read_next :
      (val : ℕ) (buf : List ℕ)
      → read_digits base (val / base) (digit upper (val % base) ∷ buf) ≡ read_digits base val buf
  unfolding read_digits
  read_next val buf =
      let below : val % base < base = mod-lt val (omega arith) in
      let whole : val / base * base + value (digit upper (val % base)) ≡ val =
        ap (λ v. val / base * base + v) (value-digit upper (val % base) (omega arith))
        ∙ div-add-mod' val base in
      ap (λ n. read_digits base n buf) whole

  fewer : (val loc : ℕ) → val < base ^ suc loc → val / base < base ^ loc
  fewer val loc h =
      (div-lt_iff_lt-mul {k = base} {x = val} {y = base ^ loc} (omega arith)).1
        (omega (arith, pow-suc base loc, h))

  uint_digits-reads :
      (loc val : ℕ) (buf : List ℕ)
      → val < base ^ loc
      → (text : List ℕ) × (uint_digits loc val base upper buf ≡ some text)
        × (read_digits base 0 text ≡ read_digits base val buf)
  unfolding uint_digits
  uint_digits-reads zero val buf h =
      let is_zero : val ≡ 0 = omega (arith, pow-zero base) in
      (buf, rw is_zero refl, ap (λ n. read_digits base n buf) (sym is_zero))
  uint_digits-reads (suc loc) val buf h = elim (ℕ_discrete val 0) [
    | yes is_zero ↦ (buf, rw is_zero refl, ap (λ n. read_digits base n buf) (sym is_zero))
    | no more ↦
        let (text, run, reads) =
          uint_digits-reads loc (val / base) (digit upper (val % base) ∷ buf) (fewer val loc h) in
        (text, rw (==_ne val 0 more) run, reads ∙ read_next val buf)
  ]

  zero_reads : read_digits base 0 (b'0' ∷ []) ≡ 0
  unfolding read_digits value
  zero_reads = omega arith

  nothing_more : (n : ℕ) → read_digits base n [] ≡ n
  unfolding read_digits
  nothing_more n = refl

  -- Where the buffer is large enough for every number below the bound.
  print-reads :
      (loc bound val : ℕ)
      → bound ≤ 8 ^ loc
      → val < bound
      → (text : List ℕ) × ((if val == 0
            then some (b'0' ∷ [])
            else uint_digits loc val base upper [])
          ≡ some text)
        × (read_digits base 0 text ≡ val)
  print-reads loc bound val room h = elim (ℕ_discrete val 0) [
    | yes is_zero ↦ (b'0' ∷ [], rw is_zero refl, rw is_zero zero_reads)
    | no more ↦
        let (text, run, reads) =
          uint_digits-reads loc val [] (omega (arith, pow-le-pow_left {n = 8} {m = base} lo loc)) in
        (text, rw (==_ne val 0 more) run, reads ∙ nothing_more val)
  ]

  -- On numbers of 64 bits the loop of print_ull is that of print_uint.
  ull_digits-uint_digits :
      (loc val : ℕ) (buf : List ℕ)
      → val < 2 ^ 64
      → ull_digits loc val base upper buf ≡ uint_digits loc val base upper buf
  unfolding ull_digits uint_digits
  ull_digits-uint_digits zero val buf h = refl
  ull_digits-uint_digits (suc loc) val buf h =
      let smaller : val / base ≤ val = div-le_self val base in
      rw (udivmod64-div val base h (omega arith) (omega arith), ull_digits)
        (ap (λ more. if val == 0 then some buf else more)
          (ull_digits-uint_digits loc (val / base) (digit upper (val % base) ∷ buf) (omega arith)))

  -- print_uint of a 32-bit number in a base from 8 to 16 stays inside its buffer, and prints digits
  -- that read back as the number.
  pub print_uint-reads :
      (val : ℕ)
      → val < 2 ^ 32
      → (text : List ℕ) × (print_uint val base upper ≡ some text) × (read_digits base 0 text ≡ val)
  unfolding print_uint
  print_uint-reads val h = print-reads 15 (2 ^ 32) val (omega arith) h

  -- print_ull of a 64-bit number in a base from 8 to 16, over udivmod64, stays inside its buffer
  -- and prints digits that read back as the number.
  pub print_ull-reads :
      (val : ℕ)
      → val < 2 ^ 64
      → (text : List ℕ) × (print_ull val base upper ≡ some text) × (read_digits base 0 text ≡ val)
  unfolding print_ull
  print_ull-reads val h =
      let (text, run, reads) = print-reads 23 (2 ^ 64) val (omega arith) h in
      (
        text,
        ap (λ more. if val == 0 then some (b'0' ∷ []) else more)
              (ull_digits-uint_digits 23 val [] h)
            ∙ run,
        reads,
      )
