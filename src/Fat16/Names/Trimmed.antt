-- ===== src/Fat16/Names/Trimmed.antt =====
-- The name of a directory item as a text.
use mathlib.Core.Option
use marrow_os.Base.{
  ℕ, zero, suc, ◌+◌, ◌-◌, ◌≤◌, ◌<◌, ◌≡◌, refl, ap, ◌∙◌, true, Bool-cases, inl, inr, if◌then◌else◌,
  Option, some, List, [], ◌∷◌, ◌++◌, length, replicate, store, store-append, length-append,
  append_assoc, append-nil, arith,
}
use marrow_os.CString.Compare.{IsText}
use marrow_os.Fat16.{FatDirectoryItem}
use marrow_os.Fat16.Names.{
  ends_field, fat16_to_proper_string, append_ext, fat16_get_full_relative_filename,
}

-- A field up to its first space or zero.
unfoldable pub trimmed : List ℕ → List ℕ
trimmed [] = []
trimmed (c ∷ field) = if ends_field c then [] else c ∷ trimmed field

unfoldable pub with_dot : List ℕ → List ℕ
with_dot [] = []
with_dot (c ∷ ext) = b'.' ∷ (c ∷ ext)

-- NAME.EXT, or NAME where the extension is empty.
unfoldable pub full_name : FatDirectoryItem → List ℕ
full_name item = trimmed item.filename ++ with_dot (trimmed item.ext)

length-trimmed : (field : List ℕ) → length (trimmed field) ≤ length field
unfolding trimmed
length-trimmed [] = omega arith
length-trimmed (c ∷ field) = ground (arith, length-trimmed field)

pub trimmed-IsText : (field : List ℕ) → IsText (trimmed field)
unfolding trimmed ends_field
trimmed-IsText [] = tt
trimmed-IsText (c ∷ field) = ground (arith, trimmed-IsText field)

-- A text of `name` in a buffer that is zero behind it.
abbrev zeros_behind : List ℕ → ℕ → List ℕ
zeros_behind name left = name ++ replicate left 0

terminate :
    (pre : List ℕ) (left : ℕ)
    → store (zeros_behind pre (suc left)) (length pre) 0
      ≡ some (zeros_behind (pre ++ []) (suc left))
terminate pre left = rw (append-nil pre) (store-append pre (replicate left 0) 0 0)

same_count :
    (name : List ℕ) (left left' : ℕ)
    → left ≡ left'
    → ◌≡◌ {A = Option (List ℕ × ℕ)}
        (some (zeros_behind name left, length name))
        (some (zeros_behind name left', length name))
same_count name left left' e = ap (λ n. some (zeros_behind name n, length name)) e

zero_ends : ends_field 0 ≡ true
unfolding ends_field
zero_ends = refl

-- The copy writes the trimmed field over zeros.
fat16_to_proper_string-trimmed :
    (field pre : List ℕ) (left : ℕ)
    → length field < left
    → fat16_to_proper_string (zeros_behind pre left) (length pre) field
      ≡ some (
        zeros_behind (pre ++ trimmed field) (left - length (trimmed field)),
        length (pre ++ trimmed field),
      )
unfolding fat16_to_proper_string trimmed Option.bind
fat16_to_proper_string-trimmed field pre zero h = absurd (omega arith)
fat16_to_proper_string-trimmed [] pre (suc left) h =
    rw (terminate pre left, append-nil pre) (same_count pre (suc left) (suc left - 0) (omega arith))
fat16_to_proper_string-trimmed (c ∷ field) pre (suc left) h = elim (Bool-cases (ends_field c)) [
  | inl ends ↦
      rw (ends, terminate pre left, append-nil pre)
        (same_count pre (suc left) (suc left - 0) (omega arith))
  | inr goes ↦
      let one : length (pre ++ c ∷ []) ≡ length pre + 1 = length-append pre (c ∷ []) in
      let here : zeros_behind (pre ++ c ∷ []) left ≡ pre ++ c ∷ replicate left 0 =
        append_assoc pre (c ∷ []) (replicate left 0) in
      let there : (pre ++ c ∷ []) ++ trimmed field ≡ pre ++ c ∷ trimmed field =
        append_assoc pre (c ∷ []) (trimmed field) in
      let more = fat16_to_proper_string-trimmed field (pre ++ c ∷ []) left (omega arith) in
      rw (goes, store-append pre (replicate left 0) 0 c, ← here, ← one, more, there)
        (same_count (pre ++ c ∷ trimmed field) (left - length (trimmed field))
          (suc left - suc (length (trimmed field))) (omega arith))
]

append_ext-with_dot :
    (ext pre : List ℕ) (left : ℕ)
    → length ext + 1 < left
    → append_ext ext (zeros_behind pre left) (length pre)
      ≡ some (zeros_behind (pre ++ with_dot (trimmed ext)) (left - length (with_dot (trimmed ext))))
unfolding append_ext trimmed with_dot Option.bind
append_ext-with_dot ext pre zero h = absurd (omega arith)
append_ext-with_dot [] pre (suc left) h =
    rw (zero_ends, append-nil pre)
      (ap (λ n. some (zeros_behind pre n)) {x = suc left} {y = suc left - 0} (omega arith))
append_ext-with_dot (c ∷ ext) pre (suc left) h = elim (Bool-cases (ends_field c)) [
  | inl ends ↦
      rw (ends, append-nil pre)
        (ap (λ n. some (zeros_behind pre n)) {x = suc left} {y = suc left - 0} (omega arith))
  | inr goes ↦
      let one : length (pre ++ b'.' ∷ []) ≡ length pre + 1 = length-append pre (b'.' ∷ []) in
      let here : zeros_behind (pre ++ b'.' ∷ []) left ≡ pre ++ b'.' ∷ replicate left 0 =
        append_assoc pre (b'.' ∷ []) (replicate left 0) in
      let field : trimmed (c ∷ ext) ≡ c ∷ trimmed ext = rw goes in
      let there : (pre ++ b'.' ∷ []) ++ c ∷ trimmed ext ≡ pre ++ b'.' ∷ (c ∷ trimmed ext) =
        append_assoc pre (b'.' ∷ []) (c ∷ trimmed ext) in
      let more = fat16_to_proper_string-trimmed (c ∷ ext) (pre ++ b'.' ∷ []) left (omega arith) in
      rw (goes, store-append pre (replicate left 0) 0 b'.', ← here, ← one, more, goes, there)
        (ap (λ n. some (zeros_behind (pre ++ b'.' ∷ (c ∷ trimmed ext)) n))
          {x = left - suc (length (trimmed ext))} {y = suc left - suc (suc (length (trimmed ext)))}
          (omega arith))
]

pub fat16_get_full_relative_filename-full_name :
    (item : FatDirectoryItem) (max_len : ℕ)
    → length item.filename ≤ 8
    → length item.ext ≤ 3
    → 13 ≤ max_len
    → fat16_get_full_relative_filename item max_len
      ≡ some (full_name item ++ replicate (max_len - length (full_name item)) 0)
unfolding fat16_get_full_relative_filename full_name Option.bind
fat16_get_full_relative_filename-full_name item max_len n e h =
    rw (fat16_to_proper_string-trimmed item.filename [] max_len (omega arith)) (
      append_ext-with_dot item.ext (trimmed item.filename)
        (max_len - length (trimmed item.filename)) (omega (arith, length-trimmed item.filename))
      ∙ ap (λ k. some (zeros_behind (full_name item) k))
          {x = max_len - length (trimmed item.filename) - length (with_dot (trimmed item.ext))}
          {y = max_len - length (full_name item)}
          (omega (arith, length-append (trimmed item.filename) (with_dot (trimmed item.ext)))))

append-IsText : (s t : List ℕ) → IsText s → IsText t → IsText (s ++ t)
append-IsText [] t p q = q
append-IsText (c ∷ s) t p q = (p.0, append-IsText s t p.1 q)

with_dot-IsText : (ext : List ℕ) → IsText ext → IsText (with_dot ext)
unfolding with_dot
with_dot-IsText [] t = tt
with_dot-IsText (c ∷ ext) t = (λ e. omega arith, t)

pub full_name-IsText : (item : FatDirectoryItem) → IsText (full_name item)
unfolding full_name
full_name-IsText item =
    append-IsText (trimmed item.filename) (with_dot (trimmed item.ext))
      (trimmed-IsText item.filename) (with_dot-IsText (trimmed item.ext) (trimmed-IsText item.ext))

length-with_dot : (ext : List ℕ) → length (with_dot ext) ≤ length ext + 1
unfolding with_dot
length-with_dot [] = omega arith
length-with_dot (c ∷ ext) = omega arith

pub length-full_name :
    (item : FatDirectoryItem) → length (full_name item) ≤ length item.filename + length item.ext + 1
unfolding full_name
length-full_name item = omega (
  arith,
  length-append (trimmed item.filename) (with_dot (trimmed item.ext)),
  length-trimmed item.filename,
  length-trimmed item.ext,
  length-with_dot (trimmed item.ext),
)
