-- ===== src/Stdio.antt =====
-- programs/stdlib/src/stdio.c and itoa of programs/stdlib/src/stdlib.c: numbers and formats that user
-- programs print. What is printed is the list of its characters; `none` is a fault, such as a write
-- before the start of a buffer.
pub mod Division
pub mod Digits
pub mod Signed
use mathlib.Core.Option
use marrow_os.Base.{
  ℕ, zero, suc, ◌+◌, ◌-◌, ◌*◌, ◌/◌, ◌%◌, ◌^◌, ◌||◌, bit_or, Bool, true, false, leb, ltb, ◌==◌,
  if◌then◌else◌, Option, none, some, List, [], ◌∷◌, ◌++◌, get_or, ℤ, pos, negsuc, length,
}

abbrev pub lower_digits : List ℕ
lower_digits =
    b'0'
    ∷ (b'1'
        ∷ (b'2'
            ∷ (b'3'
                ∷ (b'4'
                    ∷ (b'5'
                        ∷ (b'6'
                            ∷ (b'7'
                                ∷ (b'8'
                                    ∷ (b'9'
                                        ∷ (b'a'
                                            ∷ (b'b'
                                                ∷ (b'c' ∷ (b'd' ∷ (b'e' ∷ (b'f' ∷ [])))))))))))))))

abbrev pub upper_digits : List ℕ
upper_digits =
    b'0'
    ∷ (b'1'
        ∷ (b'2'
            ∷ (b'3'
                ∷ (b'4'
                    ∷ (b'5'
                        ∷ (b'6'
                            ∷ (b'7'
                                ∷ (b'8'
                                    ∷ (b'9'
                                        ∷ (b'A'
                                            ∷ (b'B'
                                                ∷ (b'C' ∷ (b'D' ∷ (b'E' ∷ (b'F' ∷ [])))))))))))))))

unfoldable pub digit : Bool → ℕ → ℕ
digit upper d = if upper then get_or upper_digits d 0 else get_or lower_digits d 0

-- The loop of `udivmod64` from bit `i` down, with `suc i` rounds to go: the quotient and the remainder.
pub divmod_from : ℕ → ℕ → ℕ → ℕ → ℕ → ℕ × ℕ
divmod_from zero n d q r = (q, r % 2 ^ 32)
divmod_from (suc i) n d q r =
    let r' = bit_or (r * 2 % 2 ^ 64) (n / 2 ^ i % 2) in
    divmod_from i n d (if leb d r' then bit_or q (2 ^ i) else q) (if leb d r' then r' - d else r')

pub udivmod64 : ℕ → ℕ → ℕ × ℕ
udivmod64 n d = divmod_from 64 n d 0 0

-- The loop of `print_uint` with `loc` bytes free before the text in `buf`.
pub uint_digits : ℕ → ℕ → ℕ → Bool → List ℕ → Option (List ℕ)
uint_digits zero val base upper buf = if val == 0 then some buf else none
uint_digits (suc loc) val base upper buf =
    let more = uint_digits loc (val / base) base upper (digit upper (val % base) ∷ buf) in
    if val == 0 then some buf else more

pub print_uint : ℕ → ℕ → Bool → Option (List ℕ)
print_uint val base upper = if val == 0 then some (b'0' ∷ []) else uint_digits 15 val base upper []

-- The loop of `print_ull`.
pub ull_digits : ℕ → ℕ → ℕ → Bool → List ℕ → Option (List ℕ)
ull_digits zero val base upper buf = if val == 0 then some buf else none
ull_digits (suc loc) val base upper buf =
    let divided = udivmod64 val base in
    let more = ull_digits loc divided.0 base upper (digit upper divided.1 ∷ buf) in
    if val == 0 then some buf else more

pub print_ull : ℕ → ℕ → Bool → Option (List ℕ)
print_ull val base upper = if val == 0 then some (b'0' ∷ []) else ull_digits 23 val base upper []

-- A `long long` as its 64-bit pattern.
pub print_ll : ℕ → Option (List ℕ)
print_ll val =
    if leb (2 ^ 63) val
    then Option.map (λ text. b'-' ∷ text) (print_ull (2 ^ 64 - val) 10 false)
    else print_ull val 10 false

-- The loop of `itoa` on the number below zero that has this magnitude: what is left of `loc`, and the
-- text behind it.
pub itoa_digits : ℕ → ℕ → List ℕ → Option (ℕ × List ℕ)
itoa_digits zero i text = if i == 0 then some (0, text) else none
itoa_digits (suc loc) i text =
    let more = itoa_digits loc (i / 10) ((b'0' + i % 10) ∷ text) in
    if i == 0 then some (suc loc, text) else more

-- The sign, before the text.
pub itoa_sign : Bool → ℕ × List ℕ → Option (List ℕ)
itoa_sign false (loc, text) = some text
itoa_sign true (zero, text) = none
itoa_sign true (suc loc, text) = some (b'-' ∷ text)

pub itoa_magnitude : Bool → ℕ → Option (List ℕ)
itoa_magnitude neg i =
    Option.bind (itoa_digits 11 i [])
      (λ r. itoa_sign neg (if r.0 == 11 then (10, b'0' ∷ r.1) else r))

pub itoa : ℤ → Option (List ℕ)
itoa (pos n) = itoa_magnitude false n
itoa (negsuc n) = itoa_magnitude true (n + 1)

-- The variable arguments: words of 32 bits, pointers to texts, and words of 64 bits.
pub data Arg : Type 0 where
  word : ℕ → Arg
  text : List ℕ → Arg
  long_long : ℕ → Arg

-- A word as an `int`.
abbrev pub int_of : ℕ → ℤ
int_of w = if leb (2 ^ 31) w then negsuc (2 ^ 32 - 1 - w) else pos w

abbrev pub Printed : Type 0
Printed = Option (List ℕ × List Arg)

-- `va_arg` of a type that the next argument does not have is a fault.
pub take_word : (ℕ → Option (List ℕ)) → List Arg → Printed
take_word f (word w ∷ args) = Option.map (λ out. (out, args)) (f w)
take_word f _ = none

pub take_long_long : (ℕ → Option (List ℕ)) → List Arg → Printed
take_long_long f (long_long w ∷ args) = Option.map (λ out. (out, args)) (f w)
take_long_long f _ = none

pub take_text : List Arg → Printed
take_text (text s ∷ args) = some (s, args)
take_text _ = none

-- A word in a base, as `%u`, `%x`, `%X` and `%o` print it, or as an `int`.
pub print_int : List Arg → Printed
print_int args = take_word (λ w. itoa (int_of w)) args

-- The cases that `%` and `%l` share: on 32 bits a `long` is a word. Any other character is printed.
pub word_conversion : ℕ → List Arg → Printed
word_conversion c args =
    if c == b'd' || c == b'i'
    then print_int args
    else if c == b'u'
    then take_word (λ w. print_uint w 10 false) args
    else if c == b'x'
    then take_word (λ w. print_uint w 16 false) args
    else if c == b'X'
    then take_word (λ w. print_uint w 16 true) args
    else if c == b'o'
    then take_word (λ w. print_uint w 8 false) args
    else some (c ∷ [], args)

pub conversion : ℕ → List Arg → Printed
conversion c args =
    if c == b's'
    then take_text args
    else if c == b'c'
    then take_word (λ w. some (w % 256 ∷ [])) args
    else if c == b'p'
    then take_word (λ w. Option.map (λ out. b'0' ∷ (b'x' ∷ out)) (print_uint w 16 false)) args
    else word_conversion c args

pub ll_conversion : ℕ → List Arg → Printed
ll_conversion c args =
    if c == b'd' || c == b'i'
    then take_long_long print_ll args
    else if c == b'u'
    then take_long_long (λ w. print_ull w 10 false) args
    else if c == b'x'
    then take_long_long (λ w. print_ull w 16 false) args
    else if c == b'X'
    then take_long_long (λ w. print_ull w 16 true) args
    else if c == b'o'
    then take_long_long (λ w. print_ull w 8 false) args
    else some (c ∷ [], args)

-- What is printed first, and then the rest.
pub print_then : Printed → (List Arg → Option (List ℕ)) → Option (List ℕ)
print_then none k = none
print_then (some (out, args)) k = Option.map (λ rest. out ++ rest) (k args)

-- The loop of `printf`. A conversion without a character reads the terminator as one, and the loop goes
-- on behind it: a fault.
pub printf : List ℕ → List Arg → Option (List ℕ)
printf [] args = some []
printf (c ∷ []) args = if c == b'%' then none else some (c ∷ [])
printf (c ∷ (d ∷ [])) args =
    let plain = printf (d ∷ []) args in
    if c == b'%'
    then (if d == b'l' then none else print_then (conversion d args) (λ rest. some []))
    else print_then (some (c ∷ [], args)) (λ rest. plain)
printf (c ∷ (d ∷ (e ∷ []))) args =
    let plain = printf (d ∷ (e ∷ [])) args in
    if c == b'%'
    then (if d == b'l'
        then (if e == b'l' then none else print_then (word_conversion e args) (λ rest. some []))
        else print_then (conversion d args) (printf (e ∷ [])))
    else print_then (some (c ∷ [], args)) (λ rest. plain)
printf (c ∷ (d ∷ (e ∷ (g ∷ fmt)))) args =
    let plain = printf (d ∷ (e ∷ (g ∷ fmt))) args in
    if c == b'%'
    then (if d == b'l'
        then (if e == b'l'
            then print_then (ll_conversion g args) (printf fmt)
            else print_then (word_conversion e args) (printf (g ∷ fmt)))
        else print_then (conversion d args) (printf (e ∷ (g ∷ fmt))))
    else print_then (some (c ∷ [], args)) (λ rest. plain)
