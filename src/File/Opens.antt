-- ===== src/File/Opens.antt =====
-- `fopen` in src/fs/file.c, step by step over what the file system's `open` returns.
use marrow_os.Allocator.{Allocator}
use marrow_os.Base.{
  ℕ, suc, ◌<◌, ltb_le, get_or-set_self, length, arith, ℤ, ◌≡◌, ◌≢◌, refl, ◌∙◌, true, false, none,
  some, List, [], ◌∷◌, set, pos, ==_ne, Option-cases, inl, inr,
}
use marrow_os.Base.Run.{Run, >>=-none, >>=-some}
use marrow_os.CString.{strncmp}
use marrow_os.PathParser.{PathPart, PathRoot, pathparser_parse, pathparser_free}
use marrow_os.PathParser.Frees.{pathparser_free-Keeps}
use marrow_os.File.{
  file_mode_read, max_file_descriptors, file_get_descriptor, fread, file_get_mode_by_string,
  Filesystem, FileDescriptor, Files, Mount, is_err, descriptor_size, free_slot, on_state,
  file_new_descriptor, fopen_error, fopen_file, fopen,
}
use marrow_os.File.Descriptors.{IsTable, entered, file_new_descriptor-entered}

-- The mode "r".
abbrev pub read_mode : List ℕ
read_mode = b'r' ∷ []

abbrev pub mounted : {S : Type 0} → ℕ → Filesystem S → Mount S
mounted disk fs = record { address = disk; filesystem = some fs }

module _ (a : Allocator) (disk : ℕ) (fs : Filesystem a.State) (f : Files a.State) where
  -- The files over another state.
  abbrev pub in_state : a.State → Files a.State
  in_state s = record f { state = s }

  on_state-some :
      {A : Type 0} (m : Run a.State A) (s s' : a.State) (x : A)
      → m s ≡ some (x, s')
      → on_state m (in_state s) ≡ some (x, in_state s')
  unfolding on_state
  on_state-some m s s' x e = rw (e, on_state) refl

  on_state-none :
      {A : Type 0} (m : Run a.State A) (s : a.State) → m s ≡ none → on_state m (in_state s) ≡ none
  unfolding on_state
  on_state-none m s e = rw (e, on_state) refl

  -- A path on drive 0 that parses leads to the file system's `open`.
  pub fopen-parsed :
      (filename : List ℕ) (s : a.State) (node : ℕ) (part : PathPart) (next : List PathPart)
      → pathparser_parse a filename f.state
        ≡ some (some (record { root = node; drive_no = pos 0; parts = part ∷ next }), s)
      → fopen a (mounted disk fs) filename read_mode f
        ≡ fopen_file a
            (record { root = node; drive_no = pos 0; parts = part ∷ next })
            fs
            disk
            file_mode_read
            (in_state s)
  unfolding fopen file_get_mode_by_string strncmp
  fopen-parsed filename s node part next e =
      >>=-some (on_state (pathparser_parse a filename)) _ f (in_state s) _
        (on_state-some (pathparser_parse a filename) f.state s _ e)

  module _ (root_path : PathRoot) (s s' : a.State) (private_data : ℕ)
      (opens : fs.open_file disk root_path.parts file_mode_read s ≡ some (private_data, s')) where
    pub fopen_file-opens :
        (i node : ℕ) (s'' : a.State)
        → is_err private_data ≡ false
        → free_slot f.descriptors 0 ≡ some i
        → a.kzalloc descriptor_size s' ≡ some (node, s'')
        → node ≢ 0
        → fopen_file a root_path fs disk file_mode_read (in_state s)
          ≡ some (
            suc i,
            record f {
              descriptors = set f.descriptors i (some (entered node i fs private_data disk));
              state = s'';
            },
          )
    unfolding fopen_file
    fopen_file-opens i node s'' good free run ne =
        >>=-some (on_state (fs.open_file disk root_path.parts file_mode_read)) _ (in_state s)
          (in_state s') private_data
          (on_state-some (fs.open_file disk root_path.parts file_mode_read) s s' private_data opens)
        ∙ rw good (
            >>=-some (file_new_descriptor a fs private_data disk) _ (in_state s') _ _ (
              file_new_descriptor-entered a i node (in_state s') s'' fs private_data disk free run
                ne))

    -- The path is given back, and then the error is closed.
    error_faults :
        (P : a.State → Type 0)
        → ((ptr : ℕ) (t t' : a.State) → P t → a.kfree ptr t ≡ some t' → P t')
        → ((t : a.State) → P t → fs.close private_data t ≡ none)
        → P s'
        → private_data ≢ 0
        → fopen_error a root_path (some fs) private_data (in_state s') ≡ none
    unfolding fopen_error
    error_faults P keeps faults p ne = elim (Option-cases (pathparser_free a root_path s')) [
      | inl stuck ↦
          >>=-none (on_state (pathparser_free a root_path)) _ (in_state s')
            (on_state-none (pathparser_free a root_path) s' stuck)
      | inr (r, ends) ↦
          >>=-some (on_state (pathparser_free a root_path)) _ (in_state s') (in_state r.1) r.0
            (on_state-some (pathparser_free a root_path) s' r.1 r.0 ends)
          ∙ rw (==_ne private_data 0 ne) (
              >>=-none (on_state (fs.close private_data)) _ (in_state r.1) (
                on_state-none (fs.close private_data) r.1
                  (faults r.1 (pathparser_free-Keeps a P keeps root_path s' r.1 r.0 p ends))))
    ]

    pub fopen_file-fails :
        (P : a.State → Type 0)
        → ((ptr : ℕ) (t t' : a.State) → P t → a.kfree ptr t ≡ some t' → P t')
        → ((t : a.State) → P t → fs.close private_data t ≡ none)
        → P s'
        → is_err private_data ≡ true
        → private_data ≢ 0
        → fopen_file a root_path fs disk file_mode_read (in_state s) ≡ none
    unfolding fopen_file fopen_error
    fopen_file-fails P keeps faults p bad ne =
        >>=-some (on_state (fs.open_file disk root_path.parts file_mode_read)) _ (in_state s)
          (in_state s') private_data
          (on_state-some (fs.open_file disk root_path.parts file_mode_read) s s' private_data opens)
        ∙ rw bad (error_faults P keeps faults p ne)

-- A read of one member by the number of an entered descriptor is the file system's.
pub fread-entered :
    (a : Allocator) (f : Files a.State) (i size : ℕ) (d : FileDescriptor a.State) (s s' : a.State)
    (out : ℤ × List ℕ)
    → IsTable f
    → i < max_file_descriptors
    → 0 < size
    → d.filesystem.read d.disk d.private_data size 1 s ≡ some (out, s')
    → fread a size 1
        (pos (suc i))
        (record f { descriptors = set f.descriptors i (some d); state = s })
      ≡ some (out, record f { descriptors = set f.descriptors i (some d); state = s' })
unfolding fread file_get_descriptor on_state
fread-entered a f i size d s s' out table inside positive run =
    let within : i < length f.descriptors = omega (arith, table) in
    rw
      (
        ==_ne size 0 (λ e. omega arith),
        ltb_le max_file_descriptors (suc i) inside,
        get_or-set_self f.descriptors i (some d) none within,
        run,
      )
      refl
