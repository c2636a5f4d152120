-- ===== src/Fat16/Items/Lookup.antt =====
-- The search for a name in a directory, in src/fs/fat/fat16.c.
use marrow_os.Base.{
  ℕ, zero, suc, ◌-◌, ◌≤◌, ◌<◌, ◌≡◌, refl, ap, ◌∙◌, Bool, true, false, none, some, List, [], ◌∷◌,
  ◌++◌, length, replicate, map, arith, pos, ◌↔◌, ℤ, negsuc,
}
use marrow_os.CString.{tolower, istrncmp}
use marrow_os.CString.Compare.{
  IsText, istrncmp-zero_iff, istrncmp-terminator_left, istrncmp-terminator_right,
}
use marrow_os.PathParser.{max_path, is_zero}
use marrow_os.Fat16.{FatDirectoryItem}
use marrow_os.Fat16.Names.Trimmed.{
  full_name, fat16_get_full_relative_filename-full_name, full_name-IsText, length-full_name,
}
use marrow_os.Fat16.Items.{is_named, find_from}

-- The fields have at most the bytes that the disk has for them.
pub record HasFields (item : FatDirectoryItem) : Type 0 where
  pub filename : length item.filename ≤ 8
  pub ext : length item.ext ≤ 3

-- The names differ in case alone.
abbrev pub SameName : FatDirectoryItem → List ℕ → Type 0
SameName item name = map tolower (full_name item) ≡ map tolower name

-- `name` as a part of a path has it: a text, and the terminator with what is behind it.
pub record IsPart (name : List ℕ) : Type 0 where
  pub text : IsText name
  pub fits : length name < max_path

is_zero_iff : (z : ℤ) → (is_zero z ≡ true) ↔ (z ≡ pos 0)
is_zero_iff (pos zero) = (λ _. refl, λ _. refl)
is_zero_iff (pos (suc n)) = (λ e. cc, λ e. cc)
is_zero_iff (negsuc n) = (λ e. cc, λ e. cc)

-- A lookup reads the item's name from a buffer, and compares it with a part of the path.
compared :
    (item : FatDirectoryItem) (name behind : List ℕ)
    → HasFields item
    → is_named item (name ++ 0 ∷ behind) ≡ some (is_zero (istrncmp (full_name item) name max_path))
unfolding is_named
compared item name behind f =
    let left = max_path - length (full_name item) in
    let some_left : left ≡ suc (left - 1) =
      omega (arith, length-full_name item, f.filename, f.ext) in
    rw
      (
        fat16_get_full_relative_filename-full_name item max_path f.filename f.ext (omega arith),
        is_named,
      )
      (ap (λ z. some (is_zero z))
        (ap (λ k. istrncmp (full_name item ++ replicate k 0) (name ++ 0 ∷ behind) max_path)
            some_left
          ∙ istrncmp-terminator_left (full_name item) (replicate (left - 1) 0) (name ++ 0 ∷ behind)
              max_path
          ∙ istrncmp-terminator_right (full_name item) name behind max_path))

compared_iff :
    (item : FatDirectoryItem) (name : List ℕ)
    → HasFields item
    → IsPart name
    → (is_zero (istrncmp (full_name item) name max_path) ≡ true) ↔ SameName item name
compared_iff item name f p =
    let zero_iff =
      istrncmp-zero_iff (full_name item) name max_path (full_name-IsText item) p.text
        (omega (arith, length-full_name item, f.filename, f.ext)) in
    let test = is_zero_iff (istrncmp (full_name item) name max_path) in
    (λ e. zero_iff.0 (test.0 e), λ e. test.1 (zero_iff.1 e))

is_named-true :
    (item : FatDirectoryItem) (name behind : List ℕ)
    → HasFields item
    → IsPart name
    → SameName item name
    → is_named item (name ++ 0 ∷ behind) ≡ some true
is_named-true item name behind f p e =
    compared item name behind f ∙ ap some ((compared_iff item name f p).1 e)

is_named-false :
    (item : FatDirectoryItem) (name behind : List ℕ)
    → HasFields item
    → IsPart name
    → ¬ (SameName item name)
    → is_named item (name ++ 0 ∷ behind) ≡ some false
is_named-false item name behind f p ne =
    compared item name behind f
    ∙ ap some (
        other (is_zero (istrncmp (full_name item) name max_path))
          (λ e. ne ((compared_iff item name f p).0 e)))
  where
    other : (b : Bool) → ¬ (b ≡ true) → b ≡ false
    other true h = absurd (h refl)
    other false h = refl

-- Items with their fields, none of which has the name.
abbrev pub NoneNamed : List ℕ → List FatDirectoryItem → Type 0
NoneNamed name [] = Unit
NoneNamed name (item ∷ items) = HasFields item × (¬ (SameName item name)) × NoneNamed name items

-- Where the first items have other names and the next one has the name of the part, up to case,
-- and is among the counted ones, the search of fat16_find_item_in_directory finds it.
pub find_from-first :
    (name behind : List ℕ) (before : List FatDirectoryItem) (item : FatDirectoryItem)
    (others : List FatDirectoryItem) (total : ℕ)
    → IsPart name
    → NoneNamed name before
    → HasFields item
    → SameName item name
    → length before < total
    → find_from total (before ++ item ∷ others) (name ++ 0 ∷ behind) ≡ some (some item)
unfolding find_from
find_from-first name behind before item others zero p n f e h = absurd (omega arith)
find_from-first name behind [] item others (suc total) p n f e h =
    rw (is_named-true item name behind f p e, find_from) refl
find_from-first name behind (other ∷ before) item others (suc total) p n f e h =
    rw (is_named-false other name behind n.0 p n.1, find_from)
      (find_from-first name behind before item others total p n.2 f e (omega arith))

-- Where none of the first `total` items has the name, nothing is found, whatever stands behind them.
pub find_from-none :
    (name behind : List ℕ) (items others : List FatDirectoryItem)
    → IsPart name
    → NoneNamed name items
    → find_from (length items) (items ++ others) (name ++ 0 ∷ behind) ≡ some none
unfolding find_from
find_from-none name behind [] others p n = refl
find_from-none name behind (item ∷ items) others p n =
    rw (is_named-false item name behind n.0 p n.1, find_from)
      (find_from-none name behind items others p n.2)
