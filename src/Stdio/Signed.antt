-- ===== src/Stdio/Signed.antt =====
-- The text that itoa of programs/stdlib/src/stdlib.c makes of an `int`.
use mathlib.Core.Option
use marrow_os.Base.{
  ℕ, zero, suc, ◌+◌, ◌*◌, ◌/◌, ◌%◌, ◌^◌, ◌<◌, ◌≤◌, ◌≡◌, ◌≢◌, refl, sym, ap, ◌∙◌, Bool, true, false,
  Option, some, List, [], ◌∷◌, arith, ==_ne, ℕ_discrete, ℤ, pos, negsuc,
}
use native.Mathlib.Nat.{pow-suc, pow-zero}
use marrow_os.Stdio.{itoa, itoa_digits, itoa_sign, itoa_magnitude}
use marrow_os.Stdio.Digits.{value, read_digits}

-- The text is the number: digits, or a minus sign and the digits of its magnitude.
abbrev pub Spells : ℤ → List ℕ → Type 0
Spells (pos n) text = read_digits 10 0 text ≡ n
Spells (negsuc n) [] = ⊥
Spells (negsuc n) (c ∷ text) = (c ≡ b'-') × (read_digits 10 0 text ≡ n + 1)

-- Without its sign.
abbrev pub magnitude : ℤ → ℕ
magnitude (pos n) = n
magnitude (negsuc n) = n + 1

-- What the loop leaves: at most `k` bytes are used, and one if the number is not 0.
record Leaves (loc i : ℕ) (text : List ℕ) (k : ℕ) : Type 0 where
  left : ℕ
  out : List ℕ
  run : itoa_digits loc i text ≡ some (left, out)
  reads : read_digits 10 0 out ≡ read_digits 10 i text
  room : loc ≤ left + k
  used : (i ≢ 0) → left < loc
  kept : left ≤ loc

next_digit :
    (i : ℕ) (text : List ℕ)
    → read_digits 10 (i / 10) ((b'0' + i % 10) ∷ text) ≡ read_digits 10 i text
unfolding read_digits value
next_digit i text =
    ap (λ n. read_digits 10 n text) {x = i / 10 * 10 + value (b'0' + i % 10)} {y = i} (ground arith)

itoa_digits-Leaves : (loc k i : ℕ) (text : List ℕ) → k ≤ loc → i < 10 ^ k → Leaves loc i text k
unfolding itoa_digits
itoa_digits-Leaves zero k i text h b =
    let is_zero : i ≡ 0 =
      omega (arith, pow-zero 10, ap (λ n. 10 ^ n) {x = k} {y = 0} (omega arith)) in
    record {
      left = 0;
      out = text;
      run = rw is_zero refl;
      reads = ap (λ n. read_digits 10 n text) (sym is_zero);
      room = omega arith;
      used = λ ne. absurd (ne is_zero);
      kept = omega arith;
    }
itoa_digits-Leaves (suc loc) zero i text h b =
    let is_zero : i ≡ 0 = omega (arith, pow-zero 10) in
    record {
      left = suc loc;
      out = text;
      run = rw is_zero refl;
      reads = ap (λ n. read_digits 10 n text) (sym is_zero);
      room = omega arith;
      used = λ ne. absurd (ne is_zero);
      kept = omega arith;
    }
itoa_digits-Leaves (suc loc) (suc k) i text h b = elim (ℕ_discrete i 0) [
  | yes is_zero ↦ record {
    left = suc loc;
    out = text;
    run = rw is_zero refl;
    reads = ap (λ n. read_digits 10 n text) (sym is_zero);
    room = omega arith;
    used = λ ne. absurd (ne is_zero);
    kept = omega arith;
  }
  | no more ↦
      let d =
        itoa_digits-Leaves loc k (i / 10) ((b'0' + i % 10) ∷ text) (omega arith)
          (omega (arith, pow-suc 10 k)) in
      record {
        left = d.left;
        out = d.out;
        run = rw (==_ne i 0 more) d.run;
        reads = d.reads ∙ next_digit i text;
        room = omega (arith, d.room);
        used = λ ne. omega (arith, d.kept);
        kept = omega (arith, d.kept);
      }
]

zero_text : read_digits 10 0 (b'0' ∷ []) ≡ 0
unfolding read_digits value
zero_text = omega arith

nothing_more : (n : ℕ) → read_digits 10 n [] ≡ n
unfolding read_digits
nothing_more n = refl

-- A number with digits gets its sign.
ends :
    (neg : Bool) (i left : ℕ) (out : List ℕ) (res : Option (List ℕ))
    → itoa_digits 11 i [] ≡ some (left, out)
    → left < 11
    → itoa_sign neg (left, out) ≡ res
    → itoa_magnitude neg i ≡ res
unfolding itoa_magnitude Option.bind
ends neg i left out res run h e = rw (run, ==_ne left 11 (λ e. omega arith)) e

sign_plus : (left : ℕ) (out : List ℕ) → itoa_sign false (left, out) ≡ some out
unfolding itoa_sign
sign_plus left out = refl

sign_minus : (left : ℕ) (out : List ℕ) → 0 < left → itoa_sign true (left, out) ≡ some (b'-' ∷ out)
unfolding itoa_sign
sign_minus zero out h = absurd (omega arith)
sign_minus (suc left) out h = refl

unsigned :
    (i : ℕ)
    → i < 10 ^ 10
    → (text : List ℕ) × (itoa_magnitude false i ≡ some text) × (read_digits 10 0 text ≡ i)
unfolding itoa_magnitude itoa_digits itoa_sign Option.bind
unsigned i h = elim (ℕ_discrete i 0) [
  | yes is_zero ↦ (b'0' ∷ [], rw is_zero refl, zero_text ∙ sym is_zero)
  | no more ↦
      let d = itoa_digits-Leaves 11 10 i [] (omega arith) h in
      (
        d.out,
        ends false i d.left d.out (itoa_sign false (d.left, d.out)) d.run (d.used more) refl
            ∙ sign_plus d.left d.out,
        d.reads ∙ nothing_more i,
      )
]

signed :
    (i : ℕ)
    → i < 10 ^ 10
    → i ≢ 0
    → (text : List ℕ) × (itoa_magnitude true i ≡ some (b'-' ∷ text)) × (read_digits 10 0 text ≡ i)
signed i h more =
    let d = itoa_digits-Leaves 11 10 i [] (omega arith) h in
    (
      d.out,
      ends true i d.left d.out (itoa_sign true (d.left, d.out)) d.run (d.used more) refl
          ∙ sign_minus d.left d.out (omega (arith, d.room)),
      d.reads ∙ nothing_more i,
    )

-- itoa of an int of magnitude at most 2 ^ 31 stays inside its buffer, and the text spells the
-- number, also the least.
pub itoa-Spells :
    (z : ℤ) → magnitude z ≤ 2 ^ 31 → (text : List ℕ) × (itoa z ≡ some text) × Spells z text
unfolding itoa
itoa-Spells (pos n) h = unsigned n (omega arith)
itoa-Spells (negsuc n) h =
    let (text, run, reads) = signed (n + 1) (omega arith) (λ e. omega arith) in
    (b'-' ∷ text, run, (refl, reads))
