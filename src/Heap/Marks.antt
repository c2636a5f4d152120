-- ===== src/Heap/Marks.antt =====
-- What `heap_mark_blocks_taken` and `heap_mark_blocks_free` write.
use mathlib.Core.Option
use marrow_os.Base.{
  ℕ, zero, suc, ◌+◌, ◌≤◌, ◌≡◌, refl, sym, ap, subst, Bool, true, false, some, List, [], ◌∷◌, ◌++◌,
  append_assoc, length, length-append, replicate, store-append, get_elem?-append, ◌==◌,
  if◌then◌else◌, arith, bit_and, bit_or,
}
use marrow_os.Heap.{mark_taken, mark_free, entry_taken, entry_free, has_next}

-- The entry of a block with `n` more of its allocation behind it.
abbrev pub link : ℕ → ℕ
link zero = 0x01
link (suc n) = 0x81

-- The entry of the first block of an allocation of `n + 1` blocks.
abbrev pub header : ℕ → ℕ
header zero = 0x41
header (suc n) = 0xc1

-- The entries behind the first of an allocation of `n + 1` blocks.
abbrev pub links : ℕ → List ℕ
links zero = []
links (suc n) = link n ∷ links n

pub length-links : (n : ℕ) → length (links n) ≡ n
length-links zero = refl
length-links (suc n) = ap suc (length-links n)

abbrev pub is_last : ℕ → Bool
is_last zero = true
is_last (suc n) = false

append-snoc : (pre xs : List ℕ) (e : ℕ) → (pre ++ e ∷ []) ++ xs ≡ pre ++ e ∷ xs
append-snoc pre xs e = append_assoc pre (e ∷ []) xs

length-snoc : (pre : List ℕ) (e : ℕ) → length (pre ++ e ∷ []) ≡ length pre + 1
length-snoc pre e = length-append pre (e ∷ [])

-- The entry that the loop prepares for the next block.
next_link :
    (ys : List ℕ) (i end : ℕ)
    → end ≡ i + suc (suc (length ys))
    → (if i + 2 == end then entry_taken else bit_or entry_taken has_next) ≡ link (length ys)
next_link [] i end h = ground arith
next_link (y ∷ ys) i end h = ground arith

-- The loop overwrites a run of blocks by `e` and its links, and nothing else.
pub mark_taken_run :
    (xs pre post : List ℕ) (x i end e : ℕ)
    → i ≡ length pre
    → end ≡ i + suc (length xs)
    → mark_taken (suc (length xs)) i end e (pre ++ x ∷ (xs ++ post))
      ≡ some (pre ++ e ∷ (links (length xs) ++ post))
unfolding mark_taken Option.bind
mark_taken_run [] pre post x i end e hi he = rw (hi, store-append pre post x e)
mark_taken_run (y ∷ ys) pre post x i end e hi he =
    rw (hi, store-append pre (y ∷ (ys ++ post)) x e)
      (subst
        (λ f.
          mark_taken (suc (length ys)) (length pre + 1) end f (pre ++ e ∷ (y ∷ (ys ++ post)))
          ≡ some (pre ++ e ∷ (link (length ys) ∷ (links (length ys) ++ post))))
        (sym (next_link ys (length pre) end (omega arith)))
        (rw
          (
            ← append-snoc pre (y ∷ (ys ++ post)) e,
            ← append-snoc pre (link (length ys) ∷ (links (length ys) ++ post)) e,
          )
          (mark_taken_run ys (pre ++ e ∷ []) post y (length pre + 1) end (link (length ys))
            (sym (length-snoc pre e)) (omega arith))))

link_ends : (n : ℕ) → (bit_and (link n) has_next == 0) ≡ is_last n
link_ends zero = refl
link_ends (suc n) = refl

-- The loop clears a chain of blocks up to its last, which has no successor.
pub mark_free_run :
    (n : ℕ) (pre post : List ℕ) (e i left : ℕ)
    → i ≡ length pre
    → suc n ≤ left
    → (bit_and e has_next == 0) ≡ is_last n
    → mark_free left i (pre ++ e ∷ (links n ++ post))
      ≡ some (pre ++ entry_free ∷ (replicate n entry_free ++ post))
unfolding mark_free Option.bind
mark_free_run n pre post e i zero hi hl he = absurd (omega arith)
mark_free_run zero pre post e i (suc left) hi hl he =
    rw (hi, get_elem?-append pre post e, store-append pre post e entry_free, he)
mark_free_run (suc n) pre post e i (suc left) hi hl he =
    rw
      (
        hi,
        get_elem?-append pre (links (suc n) ++ post) e,
        store-append pre (links (suc n) ++ post) e entry_free,
        he,
      )
      (rw
        (
          ← append-snoc pre (link n ∷ (links n ++ post)) entry_free,
          ← append-snoc pre (entry_free ∷ (replicate n entry_free ++ post)) entry_free,
        )
        (mark_free_run n (pre ++ entry_free ∷ []) post (link n) (length pre + 1) left
          (sym (length-snoc pre entry_free)) (omega arith) (link_ends n)))
