-- ===== src/Fat16/Mount/Whole.antt =====
-- `fopen` and `fread` of src/fs/file.c over the FAT16 file system: from the path of a file in the root
-- directory to its contents, and for a name that is not there.
use marrow_os.Allocator.{Allocator, small_request}
use marrow_os.Base.{
  ℕ, suc, ◌+◌, ◌-◌, ◌*◌, ◌^◌, ◌≤◌, ◌<◌, ◌≡◌, refl, ap, subst, ◌∙◌, false, Option, none, some, List,
  [], ◌∷◌, ◌++◌, map, length, take, drop, replicate, drop-replicate, length-append, arith, pos, ℤ,
}
use marrow_os.PathParser.{PathPart, max_path, pathparser_parse}
use marrow_os.PathParser.Scan.{IsName, IsPlain, padded}
use marrow_os.PathParser.Parts.{part_buffer}
use marrow_os.CString.Compare.{IsText}
use marrow_os.PathParser.RoundTrip.{format, pathparser_parse-Room}
use marrow_os.Streamer.{Disk}
use marrow_os.File.{
  Filesystem, Files, fopen, fread, free_slot, is_err, max_file_descriptors, descriptor_size,
}
use marrow_os.File.Descriptors.{IsTable, free_slot-free, entered}
use marrow_os.File.Opens.{
  read_mode, mounted, fopen-parsed, fopen_file-opens, fopen_file-fails, fread-entered,
}
use marrow_os.Fat16.{FatPrivate, FatDirectoryItem}
use marrow_os.Fat16.Chain.{fat16_get_first_cluster}
use marrow_os.Fat16.Chain.Contents.{IsMounted, Chain, file_bytes, cluster_size}
use marrow_os.Fat16.Items.{is_subdirectory, ItemCopy}
use marrow_os.Fat16.Items.Lookup.{IsPart}
use marrow_os.Fat16.Items.Found.{IsFirst, IsMissing}
use marrow_os.Fat16.Files.{put, fat16_read, FatState, FatFileDescriptor}
use marrow_os.Fat16.Files.Opening.{opened, fat16_open-file, fat16_open-missing, fat16_close-unknown}
use marrow_os.Fat16.Files.Reading.{file_at, fat16_read-contents}
use marrow_os.Fat16.Files.Seeking.{put-here}
use marrow_os.Fat16.Mount.{fat16_fs}
use marrow_os.Fat16.Mount.Shared.{Ready, fat_allocator, fat_kfree-keeps, fat_kzalloc-some}

plain-IsText : (name : List ℕ) → IsPlain name → IsText name
plain-IsText [] h = tt
plain-IsText (c ∷ name) h = (h.1, plain-IsText name h.2)

-- A name of a path as a text that fits.
name-IsPart : (name : List ℕ) → IsName name → length (format 0 (name ∷ [])) ≤ max_path → IsPart name
name-IsPart name h l = record {
  text = plain-IsText name h.1;
  fits = omega (arith, length-append name []);
}

-- The buffer of a part ends in zeros.
padded-zero :
    (name : List ℕ)
    → length name < max_path
    → padded name ≡ name ++ 0 ∷ replicate (max_path - length name - 1) 0
padded-zero name h =
    ap (λ t. name ++ t)
      (drop-replicate max_path (length name) 0
        ∙ ap (λ k. replicate k 0) {x = max_path - length name}
            {y = suc (max_path - length name - 1)} (omega arith))

is_err-low : (ptr : ℕ) → ptr < 2 ^ 31 → is_err ptr ≡ false
is_err-low ptr h = ground arith

slot_inside :
    {S : Type 0} (f : Files S) (i : ℕ)
    → IsTable f
    → free_slot f.descriptors 0 ≡ some i
    → i < max_file_descriptors
slot_inside f i table free =
    let (n, at, inside, _) = free_slot-free f.descriptors 0 i free in omega (arith, table)

module _ (a : Allocator) (disk : Disk) (fs_private : FatPrivate)
    (descriptors : ℕ → Option FatFileDescriptor) where
  abbrev shared : Allocator
  shared = fat_allocator a fs_private descriptors

  -- What the path of one name parses to.
  record Parsed (n : ℕ) (name : List ℕ) (s : FatState a.State) : Type 0 where
    root : ℕ
    part : PathPart
    state : FatState a.State
    run :
        pathparser_parse shared (format 0 (name ∷ [])) s
        ≡ some (some (record { root = root; drive_no = pos 0; parts = part ∷ [] }), state)
    named : part.part ≡ name ++ 0 ∷ replicate (max_path - length name - 1) 0
    ready : Ready a fs_private descriptors (suc n) state

  one_part :
      (n : ℕ) (name : List ℕ) (s s' : FatState a.State) (root : ℕ) (drive : ℤ)
      (parts : List PathPart)
      → pathparser_parse shared (format 0 (name ∷ [])) s
        ≡ some (some (record { root = root; drive_no = drive; parts = parts }), s')
      → drive ≡ pos 0
      → map part_buffer parts ≡ padded name ∷ []
      → length name < max_path
      → Ready a fs_private descriptors (suc n) s'
      → Parsed n name s
  one_part n name s s' root drive [] run d e h r = absurd (cc e)
  one_part n name s s' root drive (part ∷ (other ∷ parts)) run d e h r = absurd (cc e)
  one_part n name s s' root drive (part ∷ []) run d e h r = record {
    root = root;
    part = part;
    state = s';
    run =
        run ∙ ap (λ z. some (some (record { root = root; drive_no = z; parts = part ∷ [] }), s')) d;
    named = (let first : part.part ≡ padded name = cc e in first ∙ padded-zero name h);
    ready = r;
  }

  parses :
      (n : ℕ) (name : List ℕ) (s : FatState a.State)
      → IsName name
      → length (format 0 (name ∷ [])) ≤ max_path
      → Ready a fs_private descriptors (4 + n) s
      → Parsed n name s
  parses n name s h l r =
      let (root, s', run, drive, parts, ready) =
        pathparser_parse-Room shared n 0 name [] s (omega arith) (h, tt) l
          (subst (λ k. Ready a fs_private descriptors k s) {x = 4 + n} {y = 2 + 2 + n} (omega arith)
            r) in
      one_part n name s s' root.root root.drive_no root.parts run drive parts
        (omega (arith, length-append name [])) ready

  abbrev fat : Filesystem (FatState a.State)
  fat = fat16_fs a disk

  -- While there is room, pointers of the heap are below 2 ^ 31, and so no errors.
  abbrev pub IsLow : Type 0
  IsLow =
      (n size p : ℕ) (s s' : a.State)
      → a.Room (suc n) s
      → 0 < size
      → size ≤ small_request
      → a.kzalloc size s ≡ some (p, s')
      → p < 2 ^ 31

  module _ (f : Files (FatState a.State)) (name : List ℕ) (is_name : IsName name)
      (short : length (format 0 (name ∷ [])) ≤ max_path)
      (at_start : f.state.descriptors ≡ descriptors)
      (mount : f.state.fs_private ≡ some fs_private) where
    -- Over a mounted FAT16 file system, with room for five requests and no descriptor at the
    -- address that -EIO is as a pointer, fopen of a path of one name that no counted item of the
    -- root directory has is a fault: the error that fat16_open returns is closed as if it were a
    -- descriptor.
    pub fopen-fat16_missing :
        a.Room 5 f.state.heap
        → IsMissing fs_private.root_directory name
        → descriptors (2 ^ 32 - 1) ≡ none
        → fopen shared (mounted disk.address fat) (format 0 (name ∷ [])) read_mode f ≡ none
    unfolding fat16_fs
    fopen-fat16_missing room missing no_such =
        let p = parses 1 name f.state is_name short (room, mount, at_start) in
        let part = name-IsPart name is_name short in
        let (h, failed, _) =
          fat16_open-missing a disk fs_private 1 p.state p.part [] name _ p.ready.1 p.named part
            missing p.ready.0 in
        fopen-parsed shared disk.address fat f (format 0 (name ∷ [])) p.state p.root p.part [] p.run
        ∙ fopen_file-fails shared disk.address fat f
            (record { root = p.root; drive_no = pos 0; parts = p.part ∷ [] }) p.state
            (record p.state { heap = h }) (2 ^ 32 - 1) failed (λ t. t.descriptors ≡ descriptors)
            (fat_kfree-keeps a fs_private descriptors)
            (λ t e. fat16_close-unknown a (2 ^ 32 - 1) t (ap (λ ds. ds (2 ^ 32 - 1)) e ∙ no_such))
            p.ready.2 refl (λ e. omega arith)

    -- A file of the root directory, whose clusters form a chain.
    module _ (item : FatDirectoryItem) (clusters : List ℕ) (m : IsMounted disk fs_private)
        (first : IsFirst fs_private.root_directory name item) (file : is_subdirectory item ≡ false)
        (chain : Chain disk fs_private (fat16_get_first_cluster item) clusters) (low : IsLow)
        (i : ℕ) (table : IsTable f) (free : free_slot f.descriptors 0 ≡ some i) where
      abbrev bytes : List ℕ
      bytes = file_bytes disk fs_private (fat16_get_first_cluster item ∷ clusters)

      -- A read from the start of the file.
      abbrev read_state : FatState a.State → ℕ → ℕ → ItemCopy → ℕ → FatState a.State
      read_state s ptr node copy size = record s {
        descriptors =
            put s.descriptors ptr
              (some (file_at node copy (0 * cluster_size disk fs_private + size)));
      }

      read_start :
          (s : FatState a.State) (ptr node copy size : ℕ)
          → s.fs_private ≡ some fs_private
          → s.descriptors ptr ≡ some (file_at node (record { node = copy; item = item }) 0)
          → size < 2 ^ 31
          → size ≤ length bytes
          → length bytes ≤ 2 ^ 31
          → fat16_read a disk ptr size 1 s
            ≡ some (
              (pos 1, take size bytes),
              read_state s ptr node (record { node = copy; item = item }) size,
            )
      read_start s ptr node copy size mount' here w h b =
          let cloned : ItemCopy = record { node = copy; item = item } in
          let unit = cluster_size disk fs_private in
          fat16_read-contents a disk fs_private m node cloned clusters chain s ptr 0 size mount'
            (here ∙ ap (λ k. some (file_at node cloned k)) {x = 0} {y = 0 * unit} (omega arith))
            (omega arith) w (omega arith) b
          ∙ ap (λ k. some ((pos 1, take size (drop k bytes)), read_state s ptr node cloned size))
              {x = 0 * unit} {y = 0} (omega arith)

      -- Over a mounted FAT16 file system whose root directory has a file of the name, up to case,
      -- whose clusters form a chain in reach, with a free slot and room for seven requests on a
      -- heap whose addresses are below 2 ^ 31 while it has room, fopen of its path on drive 0
      -- returns the slot's file number, and fread of one member under it, of at least one byte
      -- and no more than the clusters hold, which is at most 2 ^ 31, then returns 1 and the first
      -- bytes of the clusters.
      pub fread-fopen :
          (size : ℕ)
          → a.Room 7 f.state.heap
          → 0 < size
          → size < 2 ^ 31
          → size ≤ length bytes
          → length bytes ≤ 2 ^ 31
          → (f' : Files (FatState a.State)) × (f'' : Files (FatState a.State)) × (fopen shared
                (mounted disk.address fat)
                (format 0 (name ∷ []))
                read_mode
                f
              ≡ some (suc i, f'))
            × (fread shared size 1 (pos (suc i)) f' ≡ some ((pos 1, take size bytes), f''))
      unfolding fat16_fs
      fread-fopen size room positive w h b =
          let p = parses 3 name f.state is_name short (room, mount, at_start) in
          let part = name-IsPart name is_name short in
          let (ptr, node, copy, heap, opens, ne, (h1, run1), r) =
            fat16_open-file a disk fs_private 1 p.state p.part name _ item p.ready.1 p.named part
              first file p.ready.0 in
          let (desc, h2, run2, ne2, _) =
            a.room_kzalloc 0 descriptor_size heap r (omega arith) (omega arith) in
          let cloned : ItemCopy = record { node = copy; item = item } in
          let s2 : FatState a.State = opened a disk fs_private p.state heap ptr node cloned in
          let s3 : FatState a.State = record s2 { heap = h2 } in
          let good : is_err ptr ≡ false =
            is_err-low ptr
              (low 3 _ ptr p.state.heap h1 p.ready.0 (omega arith) (omega arith) run1) in
          let read =
            read_start s3 ptr node copy size p.ready.1
              (put-here p.state.descriptors ptr (some (file_at node cloned 0))) w h b in
          (
            _,
            _,
            fopen-parsed shared disk.address fat f (format 0 (name ∷ [])) p.state p.root p.part []
                  p.run
                ∙ fopen_file-opens shared disk.address fat f
                    (record { root = p.root; drive_no = pos 0; parts = p.part ∷ [] }) p.state s2 ptr
                    opens i desc s3 good free
                    (fat_kzalloc-some a fs_private descriptors descriptor_size desc s2 h2 run2) ne2,
            fread-entered shared f i size (entered desc i fat ptr disk.address) s3 _ _ table
                (slot_inside f i table free) positive read,
          )
