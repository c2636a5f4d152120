-- ===== src/File/Filesystems.antt =====
-- src/fs/file.c: the table of file systems, and the start of the file layer. `none` is the endless loop
-- behind the message for a full table.
use mathlib.Core.Option
use marrow_os.Base.{ℕ, Option, none, some, List, [], ◌∷◌, set, replicate}
use marrow_os.File.{Filesystem, FileDescriptor, max_file_descriptors, free_slot}

abbrev pub max_filesystems : ℕ
max_filesystems = 12

abbrev pub FilesystemTable : Type 0 → Type 0
FilesystemTable S = List (Option (Filesystem S))

pub fs_get_free_filesystem : {S : Type 0} → FilesystemTable S → Option ℕ
fs_get_free_filesystem filesystems = free_slot filesystems 0

pub fs_insert_filesystem :
    {S : Type 0} → Filesystem S → FilesystemTable S → Option (FilesystemTable S)
fs_insert_filesystem filesystem filesystems = elim (fs_get_free_filesystem filesystems) [
  | none ↦ none
  | some i ↦ some (set filesystems i (some filesystem))
]

-- `fs_static_load` inserts the one file system that `fat16_init` gives.
pub fs_load : {S : Type 0} → Filesystem S → Option (FilesystemTable S)
fs_load fat16 = fs_insert_filesystem fat16 (replicate max_filesystems none)

pub fs_init :
    {S : Type 0} → Filesystem S → Option (List (Option (FileDescriptor S)) × FilesystemTable S)
fs_init fat16 =
    Option.map (λ filesystems. (replicate max_file_descriptors none, filesystems)) (fs_load fat16)

-- The file systems that `fs_resolve` asks, in the order of the table.
unfoldable pub registered : {S : Type 0} → FilesystemTable S → List (Filesystem S)
registered [] = []
registered (none ∷ filesystems) = registered filesystems
registered (some filesystem ∷ filesystems) = filesystem ∷ registered filesystems
