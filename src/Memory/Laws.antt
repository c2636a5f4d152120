-- ===== src/Memory/Laws.antt =====
-- What `memset`, `memcpy` and `memcmp` of src/memory/memory.c do.
use marrow_os.Base.{
  ℕ, zero, suc, ◌+◌, ◌-◌, ◌%◌, ◌^◌, ◌≤◌, ◌<◌, ◌≡◌, refl, sym, ap, ◌∙◌, ℕ_discrete, ◌≢◌, ◌↔◌, ◌⊎◌,
  ◌&&◌, ltb, leb, if◌then◌else◌, arith, pos,
}
use marrow_os.Memory.{Mem, update, address, memset_from, memset, memcmp_from, memcmp, memcpy}

memset_from-get :
    (left i ptr c : ℕ) (m : Mem) (q : ℕ)
    → ptr + i + left ≤ 2 ^ 32
    → memset_from left i ptr c m q
      ≡ (if leb (ptr + i) q && ltb q (ptr + i + left) then c % 256 else m q)
unfolding memset_from
memset_from-get zero i ptr c m q h = ground arith
memset_from-get (suc left) i ptr c m q h =
    ground (arith, memset_from-get left (i + 1) ptr c (update m (address (ptr + i)) (c % 256)) q)

-- Within the address space `memset` writes the low byte of `c` to each of the `size` bytes from
-- `ptr` on, and leaves every other byte as it was.
pub memset-get :
    (ptr c size : ℕ) (m : Mem) (q : ℕ)
    → ptr + size ≤ 2 ^ 32
    → memset ptr c size m q ≡ (if leb ptr q && ltb q (ptr + size) then c % 256 else m q)
unfolding memset
memset-get ptr c size m q h = ground (arith, memset_from-get size 0 ptr c m q)

-- Where the destination does not lie inside the source's range behind its start, `memcpy` gives
-- each destination byte the source byte from before the call, and leaves the others as they were.
pub memcpy-get :
    (dest src len : ℕ) (m : Mem) (q : ℕ)
    → dest + len ≤ 2 ^ 32
    → src + len ≤ 2 ^ 32
    → ((dest ≤ src) ⊎ (src + len ≤ dest))
    → memcpy dest src len m q
      ≡ (if leb dest q && ltb q (dest + len) then m (src + (q - dest)) else m q)
unfolding memcpy
memcpy-get dest src zero m q h k d = ground arith
memcpy-get dest src (suc len) m q h k d = ground (
  arith,
  memcpy-get (dest + 1) (src + 1) len (update m (address dest) (m (address src))) q (omega arith)
      (omega arith) (omega arith),
  ap m {x = src + 1 + (q - (dest + 1))} {y = src + (q - dest)},
)

memcmp_from-same :
    (count i : ℕ) (c1 c2 : ℕ → ℕ)
    → c1 i ≡ c2 i
    → memcmp_from (suc count) i c1 c2 ≡ memcmp_from count (i + 1) c1 c2
unfolding memcmp_from
memcmp_from-same count i c1 c2 e = ground arith

memcmp_from-differ :
    (count i : ℕ) (c1 c2 : ℕ → ℕ) → c1 i ≢ c2 i → memcmp_from (suc count) i c1 c2 ≢ pos 0
unfolding memcmp_from
memcmp_from-differ count i c1 c2 ne = ground arith

abbrev SameFrom : ℕ → ℕ → (ℕ → ℕ) → (ℕ → ℕ) → Type 0
SameFrom i count c1 c2 = (j : ℕ) → i ≤ j → j < i + count → c1 j ≡ c2 j

SameFrom-suc :
    (count i : ℕ) (c1 c2 : ℕ → ℕ)
    → c1 i ≡ c2 i
    → SameFrom (i + 1) count c1 c2
    → SameFrom i (suc count) c1 c2
SameFrom-suc count i c1 c2 e s j a b = elim (ℕ_discrete i j) [
  | yes here ↦ rw (← here) e
  | no past ↦ s j (omega arith) (omega arith)
]

memcmp_from-zero_iff :
    (count i : ℕ) (c1 c2 : ℕ → ℕ) → (memcmp_from count i c1 c2 ≡ pos 0) ↔ SameFrom i count c1 c2
unfolding memcmp_from
memcmp_from-zero_iff zero i c1 c2 = (λ _ j a b. absurd (omega arith), λ _. refl)
memcmp_from-zero_iff (suc count) i c1 c2 =
    let (to, from) = memcmp_from-zero_iff count (i + 1) c1 c2 in
    elim (ℕ_discrete (c1 i) (c2 i)) [
      | yes e ↦ (
        λ h. SameFrom-suc count i c1 c2 e (to (sym (memcmp_from-same count i c1 c2 e) ∙ h)),
        λ s. memcmp_from-same count i c1 c2 e ∙ from (λ j a b. s j (omega arith) (omega arith)),
      )
      | no ne ↦ (
        λ h. absurd (memcmp_from-differ count i c1 c2 ne h),
        λ s. absurd (ne (s i (omega arith) (omega arith))),
      )
    ]

-- `memcmp` returns 0 exactly when the first `count` bytes of the two buffers are the same.
pub memcmp-zero_iff :
    (c1 c2 : ℕ → ℕ) (count : ℕ) → (memcmp c1 c2 count ≡ pos 0) ↔ ((j : ℕ) → j < count → c1 j ≡ c2 j)
unfolding memcmp
memcmp-zero_iff c1 c2 count =
    let (to, from) = memcmp_from-zero_iff count 0 c1 c2 in
    (λ h j b. to h j (omega arith) (omega arith), λ s. from (λ j a b. s j (omega arith)))
