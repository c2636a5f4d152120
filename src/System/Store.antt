-- ===== src/System/Store.antt =====
-- The kernel heap as the allocator of the file layer and of the ELF loader, which work on the store.
use mathlib.Core.Option
use mathlib.Core.Option.{some-injective}
use marrow_os.Allocator.{Allocator, small_request}
use marrow_os.Base.{ℕ, suc, ◌≤◌, ◌<◌, ◌≡◌, ◌≢◌, sym, subst, ap, ◌∙◌, Option, some}
use marrow_os.Elf.Load.{Backing}
use marrow_os.Kheap.Room.{Room, kernel_kzalloc, kernel_kfree}
use marrow_os.Kheap.{kzalloc, kfree}
use marrow_os.System.{Store}

pub store_kzalloc : ℕ → Store → Option (ℕ × Store)
store_kzalloc size s = Option.map (λ r. (r.0, record s { heap = r.1 })) (kzalloc size s.heap)

pub store_kfree : ℕ → Store → Option Store
store_kfree ptr s = Option.map (λ k. record s { heap = k }) (kfree ptr s.heap)

pub Room-store_kzalloc :
    (n size : ℕ) (s : Store)
    → Room (suc n) s.heap
    → 0 < size
    → size ≤ small_request
    → (p : ℕ) × (s' : Store) × (store_kzalloc size s ≡ some (p, s')) × (p ≢ 0) × Room n s'.heap
unfolding store_kzalloc
Room-store_kzalloc n size s r a b =
    let (p, k, run, ne, left) = kernel_kzalloc n size s.heap r a b in
    (p, record s { heap = k }, ap (Option.map (λ x. (x.0, record s { heap = x.1 }))) run, ne, left)

pub Room-store_kfree :
    (n size p : ℕ) (s s' : Store)
    → Room (suc n) s.heap
    → 0 < size
    → size ≤ small_request
    → store_kzalloc size s ≡ some (p, s')
    → (s'' : Store) × (store_kfree p s' ≡ some s'') × Room (suc n) s''.heap
unfolding store_kzalloc store_kfree
Room-store_kfree n size p s s' r a b e =
    let (q, k, run, ne, left) = kernel_kzalloc n size s.heap r a b in
    let (k'', freed, room) = kernel_kfree n size q s.heap k r a b run in
    let given = ap (Option.map (λ x. (x.0, record s { heap = x.1 }))) run in
    let same : ◌≡◌ {A = ℕ × Store} (q, record s { heap = k }) (p, s') =
      some-injective _ _ (sym given ∙ e) in
    subst (λ t. (s'' : Store) × (store_kfree t.0 t.1 ≡ some s'') × Room (suc n) s''.heap) same
      (record s { heap = k'' }, ap (Option.map (λ k1. record s { heap = k1 })) freed, room)

abbrev pub store_allocator : Allocator
store_allocator = record {
  State = Store;
  kzalloc = store_kzalloc;
  kfree = store_kfree;
  Room = λ n s. Room n s.heap;
  room_kzalloc = Room-store_kzalloc;
  room_kfree = Room-store_kfree;
}

abbrev pub store_backing : Backing Store
store_backing = record {
  memory = λ s. s.heap.mem;
  with_memory = λ m s. record s { heap = record s.heap { mem = m } };
}
