-- ===== src/CString.antt =====
-- src/string/string.c. A C string is the list of its bytes from the pointer on; its end reads as the
-- terminator, 0. A buffer that is written is a list of its size, and `none` is a write behind it.
pub mod Compare
pub mod Copy
use mathlib.Core.Option
use marrow_os.Base.{
  ℕ, zero, suc, ◌+◌, ◌-◌, Bool, not, ◌&&◌, ◌||◌, Option, none, some, List, [], ◌∷◌, ltb, leb, ◌==◌,
  if◌then◌else◌, ℤ, pos, negsuc, store,
}
use marrow_os.Base.Int.{sub_ℕ}

-- `*ptr`
abbrev pub byte : List ℕ → ℕ
byte [] = 0
byte (c ∷ cs) = c

-- `ptr + 1`
abbrev pub rest : List ℕ → List ℕ
rest [] = []
rest (c ∷ cs) = cs

-- A `char` is signed, and no byte from 128 up lies between 65 and 90.
unfoldable pub tolower : ℕ → ℕ
tolower s1 = if leb 65 s1 && leb s1 90 then s1 + 32 else s1

unfoldable pub strlen : List ℕ → ℕ
strlen [] = 0
strlen (c ∷ cs) = if c == 0 then 0 else suc (strlen cs)

unfoldable pub strnlen : List ℕ → ℕ → ℕ
strnlen ptr zero = 0
strnlen [] (suc max) = 0
strnlen (c ∷ cs) (suc max) = if c == 0 then 0 else suc (strnlen cs max)

unfoldable pub is_digit : ℕ → Bool
is_digit c = leb 48 c && leb c 57

-- The difference of two bytes as an `int`.
pub istrncmp : List ℕ → List ℕ → ℕ → ℤ
istrncmp s1 s2 zero = pos 0
istrncmp s1 s2 (suc n) =
    let u1 = byte s1 in
    let u2 = byte s2 in
    let more = istrncmp (rest s1) (rest s2) n in
    if not (u1 == u2) && not (tolower u1 == tolower u2)
    then sub_ℕ u1 u2
    else (if u1 == 0 then pos 0 else more)

unfoldable pub strncmp : List ℕ → List ℕ → ℕ → ℤ
strncmp s1 s2 zero = pos 0
strncmp s1 s2 (suc n) =
    let u1 = byte s1 in
    let u2 = byte s2 in
    let more = strncmp (rest s1) (rest s2) n in
    if not (u1 == u2) then sub_ℕ u1 u2 else (if u1 == 0 then pos 0 else more)

unfoldable pub strnlen_terminator : List ℕ → ℕ → ℕ → ℕ
strnlen_terminator str zero terminator = 0
strnlen_terminator [] (suc max) terminator = 0
strnlen_terminator (c ∷ cs) (suc max) terminator =
    if c == 0 || c == terminator then 0 else suc (strnlen_terminator cs max terminator)

-- The loop of `strcpy` at index `i` of the destination.
pub strcpy_from : List ℕ → ℕ → List ℕ → Option (List ℕ)
strcpy_from dest i [] = store dest i 0
strcpy_from dest i (c ∷ src) =
    let more = Option.bind (store dest i c) (λ d. strcpy_from d (i + 1) src) in
    if c == 0 then store dest i 0 else more

pub strcpy : List ℕ → List ℕ → Option (List ℕ)
strcpy dest src = strcpy_from dest 0 src

-- The loop of `strncpy` at index `i`, with `left` rounds to go.
pub strncpy_from : List ℕ → ℕ → List ℕ → ℕ → Option (List ℕ)
strncpy_from dest i src zero = store dest i 0
strncpy_from dest i [] (suc left) = store dest i 0
strncpy_from dest i (c ∷ src) (suc left) =
    let more = Option.bind (store dest i c) (λ d. strncpy_from d (i + 1) src left) in
    if c == 0 then store dest i 0 else more

pub strncpy : List ℕ → List ℕ → ℕ → Option (List ℕ)
strncpy dest src count = strncpy_from dest 0 src (count - 1)

-- `c - 48` of a signed `char`.
unfoldable pub tonumericdigit : ℕ → ℤ
tonumericdigit c = if ltb c 128 then sub_ℕ c 48 else negsuc (255 - c + 48)
