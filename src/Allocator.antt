-- ===== src/Allocator.antt =====
-- What the kernel's components ask of src/memory/heap/kheap.c: `kzalloc` and `kfree` over a state,
-- and when requests of at most one block succeed. `none` is a fault.
use marrow_os.Base.{ℕ, suc, ◌≤◌, ◌<◌, ◌≡◌, ◌≢◌, Option, some}

-- The largest request that takes one block.
abbrev pub small_request : ℕ
small_request = 4096

pub record Allocator : Type 1 where
  pub State : Type 0
  pub kzalloc : ℕ → State → Option (ℕ × State)
  pub kfree : ℕ → State → Option State
  -- There is room for that many requests of at most one block.
  pub Room : ℕ → State → Type 0
  pub room_kzalloc :
      (n size : ℕ) (s : State)
      → Room (suc n) s
      → 0 < size
      → size ≤ small_request
      → (p : ℕ) × (s' : State) × (kzalloc size s ≡ some (p, s')) × (p ≢ 0) × Room n s'
  pub room_kfree :
      (n size p : ℕ) (s s' : State)
      → Room (suc n) s
      → 0 < size
      → size ≤ small_request
      → kzalloc size s ≡ some (p, s')
      → (s'' : State) × (kfree p s' ≡ some s'') × Room (suc n) s''
