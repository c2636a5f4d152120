-- ===== src/File/Descriptors.antt =====
-- File numbers of src/fs/file.c: what `file_new_descriptor` enters is what `file_get_descriptor` finds.
use mathlib.Core.Option.{some-injective}
use marrow_os.Allocator.{Allocator}
use marrow_os.Base.{
  ℕ, zero, suc, ◌+◌, ◌-◌, ◌≤◌, ◌<◌, ◌≡◌, ◌≢◌, refl, sym, ap, subst, ◌∙◌, Option, none, some, List,
  [], ◌∷◌, length, pos, get_or, set, get_or-set_self, get_or-set_ne, length-set, arith, ==_ne,
  ltb_le,
}
use marrow_os.Base.Run.{pure, >>=-some}
use marrow_os.File.{
  Filesystem, FileDescriptor, Files, max_file_descriptors, descriptor_size, free_slot,
  file_get_descriptor, file_new_descriptor, file_free_descriptor, fclose, close_descriptor,
  on_state,
}

pub free_slot-free :
    {A : Type 0} (slots : List (Option A)) (j i : ℕ)
    → free_slot slots j ≡ some i
    → (n : ℕ) × (i ≡ j + n) × (n < length slots) × (get_or slots n none ≡ none)
unfolding free_slot
free_slot-free [] j i h = cc
free_slot-free (none ∷ slots) j i h =
    (0, sym (some-injective _ _ h) ∙ omega arith, omega arith, refl)
free_slot-free (some d ∷ slots) j i h =
    let (n, at, inside, free) = free_slot-free slots (j + 1) i h in
    (suc n, omega arith, omega arith, free)

-- The descriptor that is entered at slot `i`.
abbrev pub entered : {S : Type 0} → ℕ → ℕ → Filesystem S → ℕ → ℕ → FileDescriptor S
entered node i fs private_data disk = record {
  node = node;
  index = suc i;
  filesystem = fs;
  private_data = private_data;
  disk = disk;
}

pub file_new_descriptor-entered :
    (a : Allocator) (i node : ℕ) (f : Files a.State) (s : a.State) (fs : Filesystem a.State)
    (private_data disk : ℕ)
    → free_slot f.descriptors 0 ≡ some i
    → a.kzalloc descriptor_size f.state ≡ some (node, s)
    → node ≢ 0
    → file_new_descriptor a fs private_data disk f
      ≡ some (
        some (entered node i fs private_data disk),
        record f {
          descriptors = set f.descriptors i (some (entered node i fs private_data disk));
          state = s;
        },
      )
unfolding file_new_descriptor
file_new_descriptor-entered a i node f s fs private_data disk free run ne =
    rw (free, file_new_descriptor, run, ==_ne node 0 ne) refl

-- The table has its 512 slots.
abbrev pub IsTable : {S : Type 0} → Files S → Type 0
IsTable f = length f.descriptors ≡ max_file_descriptors

other :
    {S : Type 0} (f : Files S) (i : ℕ) (d : Option (FileDescriptor S)) (s : S) (fd : ℕ)
    → fd ≢ suc i
    → file_get_descriptor (pos fd) (record f { descriptors = set f.descriptors i d; state = s })
      ≡ file_get_descriptor (pos fd) f
unfolding file_get_descriptor
other f i d s zero ne = refl
other f i d s (suc index) ne =
    rw (get_or-set_ne f.descriptors d none (λ e. ne (ap suc (sym e)))) refl

-- Where a slot is free and the allocator has room, `file_new_descriptor` takes a file number from 1 to
-- 512 that had no descriptor; `file_get_descriptor` then finds the new descriptor under it, and under
-- every other file number what it found before.
pub file_get_descriptor-file_new_descriptor :
    (a : Allocator) (n i : ℕ) (f : Files a.State) (fs : Filesystem a.State) (private_data disk : ℕ)
    → IsTable f
    → a.Room (suc n) f.state
    → free_slot f.descriptors 0 ≡ some i
    → (d : FileDescriptor a.State) × (f' : Files a.State) × (file_new_descriptor a fs private_data
          disk f
        ≡ some (some d, f'))
      × (d.private_data ≡ private_data)
      × (0 < d.index)
      × (d.index ≤ max_file_descriptors)
      × (file_get_descriptor (pos d.index) f ≡ none)
      × (file_get_descriptor (pos d.index) f' ≡ some d)
      × ((fd : ℕ) → fd ≢ d.index → file_get_descriptor (pos fd) f' ≡ file_get_descriptor (pos fd) f)
      × IsTable f'
unfolding file_get_descriptor
file_get_descriptor-file_new_descriptor a n i f fs private_data disk table room free =
    let (node, s, run, ne, _) =
      a.room_kzalloc n descriptor_size f.state room (omega arith) (omega arith) in
    let (m, at, inside, empty) = free_slot-free f.descriptors 0 i free in
    let d : FileDescriptor a.State = record {
      node = node;
      index = suc i;
      filesystem = fs;
      private_data = private_data;
      disk = disk;
    } in
    let f' : Files a.State = record f { descriptors = set f.descriptors i (some d); state = s } in
    (
      d,
      f',
      file_new_descriptor-entered a i node f s fs private_data disk free run ne,
      refl,
      omega arith,
      omega arith,
      (let slot : get_or f.descriptors i none ≡ none =
            subst (λ k. get_or f.descriptors k none ≡ none) (omega (arith, at)) empty in
          rw slot (ground arith)),
      rw
          (
            get_or-set_self f.descriptors i (some d) none (omega (arith, at, inside)),
            ltb_le max_file_descriptors (suc i) (omega (arith, at, inside)),
          )
          refl,
      λ fd ne'. other f i (some d) s fd ne',
      length-set f.descriptors i (some d) ∙ table,
    )

-- Where the file system closes the file without an error and the allocator takes the descriptor back,
-- `fclose` returns 0, the file number has no descriptor any more, and every other one is as before.
pub fclose-closes :
    (a : Allocator) (i : ℕ) (f : Files a.State) (desc : FileDescriptor a.State) (s s' : a.State)
    → IsTable f
    → i < max_file_descriptors
    → desc.index ≡ suc i
    → file_get_descriptor (pos (suc i)) f ≡ some desc
    → desc.filesystem.close desc.private_data f.state ≡ some (pos 0, s)
    → a.kfree desc.node s ≡ some s'
    → (f' : Files a.State) × (fclose a (pos (suc i)) f ≡ some (pos 0, f'))
      × (f'.state ≡ s')
      × (file_get_descriptor (pos (suc i)) f' ≡ none)
      × ((fd : ℕ) → fd ≢ suc i → file_get_descriptor (pos fd) f' ≡ file_get_descriptor (pos fd) f)
unfolding fclose file_get_descriptor file_free_descriptor on_state close_descriptor
fclose-closes a i f desc s s' table l at found closed freed =
    let call : on_state (desc.filesystem.close desc.private_data) f
        ≡ some (pos 0, record f { state = s }) =
      rw (closed, on_state) refl in
    let slot : desc.index - 1 ≡ i = omega (arith, at) in
    let release : file_free_descriptor a desc (record f { state = s })
        ≡ some (tt, record { descriptors = set f.descriptors i none; state = s' }) =
      rw (freed, file_free_descriptor, slot) refl in
    (
      record { descriptors = set f.descriptors i none; state = s' },
      rw (found, fclose)
          (>>=-some (on_state (desc.filesystem.close desc.private_data)) (close_descriptor a desc) f
              (record f { state = s }) (pos 0) call
            ∙ >>=-some (file_free_descriptor a desc) (λ _. pure (pos 0)) (record f { state = s })
                (record { descriptors = set f.descriptors i none; state = s' }) tt release),
      refl,
      rw (get_or-set_self f.descriptors i none none (omega arith)) (ground arith),
      λ fd ne. other f i none s' fd ne,
    )
