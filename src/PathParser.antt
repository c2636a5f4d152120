-- ===== src/PathParser.antt =====
-- src/fs/pparser.c: a path such as 0:/dir/file.txt as a drive number and a list of parts, over the
-- allocator that it takes its structures from.
pub mod Scan
pub mod Parts
pub mod RoundTrip
pub mod Frees
use mathlib.Core.Option
use marrow_os.Allocator.{Allocator}
use marrow_os.Base.{
  ℕ, zero, suc, ◌+◌, Bool, true, false, ◌&&◌, ◌||◌, Option, none, some, List, [], ◌∷◌, length, ltb,
  leb, ◌==◌, if◌then◌else◌, ℤ, pos, store, replicate, drop, get_or,
}
use marrow_os.Base.Run.{Run, pure, fault, ◌>>=◌, ◌>>◌}
use marrow_os.CString.{byte, rest, strlen, strnlen, is_digit, tonumericdigit}
use marrow_os.Memory.{memcmp}

abbrev pub max_path : ℕ
max_path = 108

abbrev pub slash : ℕ
slash = b'/'

-- `sizeof(struct path_root)` and `sizeof(struct path_part)` on 32 bits.
abbrev pub struct_size : ℕ
struct_size = 8

-- `struct path_part` at `node`, with its string: the pointer and the 108 bytes there.
pub record PathPart : Type 0 where
  pub node : ℕ
  pub part_ptr : ℕ
  pub part : List ℕ

-- `struct path_root` at `root`; the parts in the order of their `next` links.
pub record PathRoot : Type 0 where
  pub root : ℕ
  pub drive_no : ℤ
  pub parts : List PathPart

abbrev pub is_zero : ℤ → Bool
is_zero (pos zero) = true
is_zero _ = false

pub path_valid_format : List ℕ → Bool
path_valid_format filename =
    let len = strnlen filename max_path in
    leb 3 len
    && is_digit (byte filename)
    && is_zero (memcmp (λ i. get_or filename (i + 1) 0) (λ i. get_or (b':' ∷ b'/' ∷ []) i 0) 2)

-- The drive and the path behind it; `none` is -EBADPATH.
pub get_drive_by_path : List ℕ → Option (ℤ × List ℕ)
get_drive_by_path path =
    if path_valid_format path then some (tonumericdigit (byte path), drop 3 path) else none

-- The loop of `pathparser_get_path_part` at index `i` of the buffer: the buffer, the count and the
-- path that is left, or `none` for a write behind the buffer.
pub copy_part : List ℕ → ℕ → List ℕ → Option (List ℕ × ℕ × List ℕ)
copy_part buffer i [] = some (buffer, i, [])
copy_part buffer i (c ∷ path) =
    let more = Option.bind (store buffer i c) (λ b. copy_part b (i + 1) path) in
    if c == slash || c == 0 then some (buffer, i, c ∷ path) else more

pub skip_slash : List ℕ → List ℕ
skip_slash path = if byte path == slash then rest path else path

module _ (a : Allocator) where
  open a use {State, kzalloc, kfree as free}

  kfree : ℕ → Run State (Unit {0})
  kfree ptr s = Option.map (λ s'. (tt, s')) (free ptr s)

  pub create_root : ℤ → Run State (Option PathRoot)
  create_root drive_number = do
    path_r ← kzalloc struct_size
    if path_r == 0
        then pure none
        else pure (some (record { root = path_r; drive_no = drive_number; parts = [] }))

  -- The string, if there is one, and the path behind it.
  pub get_path_part : List ℕ → Run State (Option (ℕ × List ℕ) × List ℕ)
  get_path_part path = do
    ptr ← kzalloc max_path
    if ptr == 0 then pure (none, path) else elim (copy_part (replicate max_path 0) 0 path) [
      | none ↦ fault
      | some (buffer, i, left) ↦
          if i == 0
          then (kfree ptr >> pure (none, skip_slash left))
          else pure (some (ptr, buffer), skip_slash left)
    ]

  pub parser_path_part : List ℕ → Run State (Option PathPart × List ℕ)
  parser_path_part path = do
    (str, left) ← get_path_part path
    elim str [
      | none ↦ pure (none, left)
      | some (ptr, buffer) ↦ do
        node ← kzalloc struct_size
        if node == 0
            then (kfree ptr >> pure (none, left))
            else pure (some (record { node = node; part_ptr = ptr; part = buffer }), left)
    ]

  -- The `while (part)` loop: the parts behind the first. Fuel above the length of the path is enough.
  pub more_parts : ℕ → List ℕ → Run State (List PathPart)
  more_parts zero path = fault
  more_parts (suc fuel) path = do
    (part, left) ← parser_path_part path
    elim part [ none ↦ pure [] | some p ↦ do ps ← more_parts fuel left; pure (p ∷ ps) ]

  -- From the point where the root is made: the first part, the others, and the cleanup of an error.
  parse_parts : PathRoot → List ℕ → Run State (Option PathRoot)
  parse_parts path_root path = do
    (first_part, left) ← parser_path_part path
    elim first_part [
      | none ↦ (kfree path_root.root >> pure none)
      | some p ↦ do
        ps ← more_parts (suc (length left)) left
        pure (some (record path_root { parts = p ∷ ps }))
    ]

  pub pathparser_parse : List ℕ → Run State (Option PathRoot)
  pathparser_parse path =
      if ltb max_path (strlen path) then pure none else elim (get_drive_by_path path) [
        | none ↦ pure none
        | some (drive, left) ↦ do
          path_root ← create_root drive
          elim path_root [ none ↦ pure none | some r ↦ parse_parts r left ]
      ]

  free_parts : List PathPart → Run State (Unit {0})
  free_parts [] = pure tt
  free_parts (p ∷ ps) = do kfree p.part_ptr; kfree p.node; free_parts ps

  pub pathparser_free : PathRoot → Run State (Unit {0})
  pathparser_free root = do free_parts root.parts; kfree root.root
