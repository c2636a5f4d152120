-- ===== src/File.antt =====
-- src/fs/file.c: the table of open files, over the allocator and the file system that a disk carries.
pub mod Descriptors
pub mod Opens
pub mod Filesystems
use mathlib.Core.Option
use marrow_os.Allocator.{Allocator}
use marrow_os.Base.{
  ℕ, zero, suc, ◌+◌, ◌-◌, ◌^◌, Bool, true, false, ◌||◌, Option, none, some, List, [], ◌∷◌, ltb, leb,
  ◌==◌, if◌then◌else◌, ℤ, pos, negsuc, get_or, set, replicate,
}
use marrow_os.Base.Run.{Run, pure, fault, ◌>>=◌, ◌>>◌}
use marrow_os.CString.{strncmp}
use marrow_os.PathParser.{PathPart, PathRoot, pathparser_parse, pathparser_free}

abbrev pub max_file_descriptors : ℕ
max_file_descriptors = 512

-- `sizeof(struct file_descriptor)` on 32 bits.
abbrev pub descriptor_size : ℕ
descriptor_size = 16

pub data FileMode : Type 0 where
  file_mode_read file_mode_write file_mode_append file_mode_invalid : FileMode

-- `struct filesystem`: its functions, which work on the state `S`. A pointer is its 32-bit pattern,
-- which `open` also uses for an error.
pub record Filesystem (S : Type 0) : Type 0 where
  pub resolve : ℕ → Run S ℤ
  pub open_file : ℕ → List PathPart → FileMode → Run S ℕ
  pub read : ℕ → ℕ → ℕ → ℕ → Run S (ℤ × List ℕ)
  pub seek : ℕ → ℕ → ℕ → Run S ℤ
  pub stat : ℕ → ℕ → Run S (ℤ × List ℕ)
  pub close : ℕ → Run S ℤ

-- `struct file_descriptor` at `node`.
pub record FileDescriptor (S : Type 0) : Type 0 where
  pub node : ℕ
  pub index : ℕ
  pub filesystem : Filesystem S
  pub private_data : ℕ
  pub disk : ℕ

-- `file_descriptors`, and the state that the allocator and the file systems work on.
pub record Files (S : Type 0) : Type 0 where
  pub descriptors : List (Option (FileDescriptor S))
  pub state : S

-- The disk: its address and its file system.
pub record Mount (S : Type 0) : Type 0 where
  pub address : ℕ
  pub filesystem : Option (Filesystem S)

-- `ISERR` of a pointer, and `-EIO`, `-EINVARG`, `-ENOMEM` as results.
abbrev pub is_err : ℕ → Bool
is_err p = leb (2 ^ 31) p

abbrev pub eio : ℤ
eio = negsuc 0

abbrev pub einvarg : ℤ
einvarg = negsuc 1

pub file_get_mode_by_string : List ℕ → FileMode
file_get_mode_by_string str = elim (strncmp str (b'r' ∷ []) 1) [
  | pos zero ↦ file_mode_read
  | _ ↦ elim (strncmp str (b'w' ∷ []) 1) [ pos zero ↦ file_mode_write | _ ↦ file_mode_invalid ]
]

-- `fs_resolve` over the file systems that are registered.
unfoldable pub fs_resolve : {S : Type 0} → ℕ → List (Filesystem S) → Run S (Option (Filesystem S))
fs_resolve disk [] = pure none
fs_resolve disk (fs ∷ filesystems) = do
  res ← fs.resolve disk
  elim res [ pos zero ↦ pure (some fs) | _ ↦ fs_resolve disk filesystems ]

-- The loop of `file_new_descriptor` up to the first free slot, from slot `i` on.
unfoldable pub free_slot : {A : Type 0} → List (Option A) → ℕ → Option ℕ
free_slot [] i = none
free_slot (none ∷ slots) i = some i
free_slot (some d ∷ slots) i = free_slot slots (i + 1)

unfoldable pub file_get_descriptor : {S : Type 0} → ℤ → Files S → Option (FileDescriptor S)
file_get_descriptor (negsuc n) f = none
file_get_descriptor (pos zero) f = none
file_get_descriptor (pos (suc index)) f =
    if ltb max_file_descriptors (suc index) then none else get_or f.descriptors index none

-- A call that works on the state behind the table.
pub on_state : {S A : Type 0} → Run S A → Run (Files S) A
on_state m f = Option.map (λ r. (r.0, record f { state = r.1 })) (m f.state)

module _ (a : Allocator) where
  open a use {State, kzalloc, kfree}

  pub file_free_descriptor : FileDescriptor State → Run (Files State) (Unit {0})
  file_free_descriptor desc f =
      Option.map
        (λ s. (tt, record f { descriptors = set f.descriptors (desc.index - 1) none; state = s }))
        (kfree desc.node f.state)

  -- `file_new_descriptor` with the fields that `fopen` then writes; `none` is -ENOMEM. The pointer
  -- that `kzalloc` returns is written through at once, so a null pointer is a fault.
  pub file_new_descriptor :
      Filesystem State → ℕ → ℕ → Run (Files State) (Option (FileDescriptor State))
  file_new_descriptor filesystem private_data disk f = elim (free_slot f.descriptors 0) [
    | none ↦ some (none, f)
    | some i ↦ elim (kzalloc descriptor_size f.state) [
      | none ↦ none
      | some (node, s) ↦
          if node == 0
          then none
          else let desc : FileDescriptor State = record {
            node = node;
            index = suc i;
            filesystem = filesystem;
            private_data = private_data;
            disk = disk;
          } in
            some (some desc, record f { descriptors = set f.descriptors i (some desc); state = s })
    ]
  ]

  -- The label `out` of `fopen` for an error: the path is given back, and `private_data`, unless it is
  -- null, is closed, also where it is the error that `open` returned.
  fopen_error : PathRoot → Option (Filesystem State) → ℕ → Run (Files State) ℕ
  fopen_error root_path filesystem private_data = do
    on_state (pathparser_free a root_path)
    elim filesystem [
      | none ↦ pure 0
      | some fs ↦ if private_data == 0 then pure 0 else (on_state (fs.close private_data) >> pure 0)
    ]

  pub fopen_file : PathRoot → Filesystem State → ℕ → FileMode → Run (Files State) ℕ
  fopen_file root_path fs disk mode = do
    private_data ← on_state (fs.open_file disk root_path.parts mode)
    if is_err private_data then fopen_error root_path (some fs) private_data else do
      desc ← file_new_descriptor fs private_data disk
      elim desc [ none ↦ fopen_error root_path (some fs) private_data | some d ↦ pure d.index ]

  -- `disk_get` knows drive 0 only.
  pub fopen : Mount State → List ℕ → List ℕ → Run (Files State) ℕ
  fopen mount filename mode_str = do
    parsed ← on_state (pathparser_parse a filename)
    elim parsed [
      | none ↦ pure 0
      | some root_path ↦ elim root_path.parts [
        | [] ↦ fopen_error root_path none 0
        | _ ∷ _ ↦ elim root_path.drive_no [
          | pos zero ↦ elim mount.filesystem [
            | none ↦ fopen_error root_path none 0
            | some fs ↦ elim (file_get_mode_by_string mode_str) [
              | file_mode_invalid ↦ fopen_error root_path (some fs) 0
              | file_mode_read ↦ fopen_file root_path fs mount.address file_mode_read
              | file_mode_write ↦ fopen_file root_path fs mount.address file_mode_write
              | file_mode_append ↦ fopen_file root_path fs mount.address file_mode_append
            ]
          ]
          | _ ↦ fopen_error root_path none 0
        ]
      ]
    ]

  -- The rest of `fclose` for what the file system returned.
  pub close_descriptor : FileDescriptor State → ℤ → Run (Files State) ℤ
  close_descriptor desc (pos zero) = file_free_descriptor desc >> pure (pos 0)
  close_descriptor desc (pos (suc n)) = pure (pos (suc n))
  close_descriptor desc (negsuc n) = pure (negsuc n)

  pub fclose : ℤ → Run (Files State) ℤ
  fclose fd f = elim (file_get_descriptor fd f) [
    | none ↦ some (eio, f)
    | some desc ↦ (on_state (desc.filesystem.close desc.private_data) >>= close_descriptor desc) f
  ]

  pub fstat : ℤ → Run (Files State) (ℤ × List ℕ)
  fstat fd f = elim (file_get_descriptor fd f) [
    | none ↦ some ((eio, []), f)
    | some desc ↦ on_state (desc.filesystem.stat desc.disk desc.private_data) f
  ]

  pub fseek : ℤ → ℕ → ℕ → Run (Files State) ℤ
  fseek fd offset whence f = elim (file_get_descriptor fd f) [
    | none ↦ some (eio, f)
    | some desc ↦ on_state (desc.filesystem.seek desc.private_data offset whence) f
  ]

  -- What `fread` returns and writes to `ptr`; a `fd` below 1 has no descriptor either.
  pub fread : ℕ → ℕ → ℤ → Run (Files State) (ℤ × List ℕ)
  fread size nmemb fd f =
      if size == 0 || nmemb == 0 then some ((einvarg, []), f) else elim (file_get_descriptor fd f) [
        | none ↦ some ((einvarg, []), f)
        | some desc ↦ on_state (desc.filesystem.read desc.disk desc.private_data size nmemb) f
      ]
