-- ===== src/Fat16/Mount/Shared.antt =====
-- The heap that src/fs/file.c and src/fs/fat/fat16.c share, as an allocator over the mounted file
-- system.
use mathlib.Core.Option.{some-injective}
use marrow_os.Allocator.{Allocator, small_request}
use marrow_os.Base.{
  ℕ, suc, ◌≤◌, ◌<◌, ◌≡◌, ◌≢◌, refl, sym, subst, ◌∙◌, Option, none, some, Option-cases, inl, inr, ap,
}
use marrow_os.Fat16.{FatPrivate}
use marrow_os.Fat16.Files.{FatState, FatFileDescriptor}

module _ (a : Allocator) (fs_private : FatPrivate)
    (descriptors : ℕ → Option FatFileDescriptor) where
  -- The heap of a mounted file system, while its descriptors stay.
  abbrev pub Ready : ℕ → FatState a.State → Type 0
  Ready n s = a.Room n s.heap × (s.fs_private ≡ some fs_private) × (s.descriptors ≡ descriptors)

  unfoldable pub fat_kzalloc : ℕ → FatState a.State → Option (ℕ × FatState a.State)
  fat_kzalloc size s = elim (a.kzalloc size s.heap) [
    | none ↦ none
    | some (p, h) ↦ some (p, record s { heap = h })
  ]

  unfoldable pub fat_kfree : ℕ → FatState a.State → Option (FatState a.State)
  fat_kfree p s = elim (a.kfree p s.heap) [ none ↦ none | some h ↦ some (record s { heap = h }) ]

  pub fat_room_kzalloc :
      (n size : ℕ) (s : FatState a.State)
      → Ready (suc n) s
      → 0 < size
      → size ≤ small_request
      → (p : ℕ) × (s' : FatState a.State) × (fat_kzalloc size s ≡ some (p, s'))
        × (p ≢ 0)
        × Ready n s'
  unfolding fat_kzalloc
  fat_room_kzalloc n size s r lo hi =
      let (p, h, run, ne, r') = a.room_kzalloc n size s.heap r.0 lo hi in
      (p, record s { heap = h }, rw (run, fat_kzalloc) refl, ne, (r', r.1, r.2))

  pub fat_room_kfree :
      (n size p : ℕ) (s s' : FatState a.State)
      → Ready (suc n) s
      → 0 < size
      → size ≤ small_request
      → fat_kzalloc size s ≡ some (p, s')
      → (s'' : FatState a.State) × (fat_kfree p s' ≡ some s'') × Ready (suc n) s''
  unfolding fat_kzalloc fat_kfree
  fat_room_kfree n size p s s' r lo hi e =
      let (q, h, run, ne, _) = a.room_kzalloc n size s.heap r.0 lo hi in
      let (h', freed, r') = a.room_kfree n size q s.heap h r.0 lo hi run in
      let given : fat_kzalloc size s ≡ some (q, record s { heap = h }) =
        rw (run, fat_kzalloc) refl in
      let same : ◌≡◌ {A = ℕ × FatState a.State} (q, record s { heap = h }) (p, s') =
        some-injective _ _ (sym given ∙ e) in
      subst (λ t. (s'' : FatState a.State) × (fat_kfree t.0 t.1 ≡ some s'') × Ready (suc n) s'')
        same (record s { heap = h' }, rw (freed, fat_kfree) refl, (r', r.1, r.2))

  -- The calls of file.c over the file system use the same heap as those of fat16.c.
  abbrev pub fat_allocator : Allocator
  fat_allocator = record {
    State = FatState a.State;
    kzalloc = fat_kzalloc;
    kfree = fat_kfree;
    Room = Ready;
    room_kzalloc = fat_room_kzalloc;
    room_kfree = fat_room_kfree;
  }

  pub fat_kfree-keeps :
      (ptr : ℕ) (t t' : FatState a.State)
      → t.descriptors ≡ descriptors
      → fat_kfree ptr t ≡ some t'
      → t'.descriptors ≡ descriptors
  unfolding fat_kfree
  fat_kfree-keeps ptr t t' e run = elim (Option-cases (a.kfree ptr t.heap)) [
    | inl stuck ↦
        let none_left : fat_kfree ptr t ≡ none = rw (stuck, fat_kfree) refl in
        absurd (cc (run, none_left))
    | inr (h, freed) ↦
        let left : fat_kfree ptr t ≡ some (record t { heap = h }) = rw (freed, fat_kfree) refl in
        let same : ◌≡◌ {A = FatState a.State} (record t { heap = h }) t' =
          some-injective _ _ (sym left ∙ run) in
        sym (ap (λ u. u.descriptors) same) ∙ e
  ]

  pub fat_kzalloc-some :
      (size p : ℕ) (s : FatState a.State) (h : a.State)
      → a.kzalloc size s.heap ≡ some (p, h)
      → fat_kzalloc size s ≡ some (p, record s { heap = h })
  unfolding fat_kzalloc
  fat_kzalloc-some size p s h e = rw (e, fat_kzalloc) refl
