-- ===== src/Heap/FirstFit.antt =====
-- Which block `heap_get_start_block` returns.
use mathlib.Core.Option
use marrow_os.Base.{
  ℕ, zero, suc, ◌+◌, ◌<◌, ◌≡◌, refl, sym, ◌∙◌, ap, Bool, true, false, ◌&&◌, Option, none, some,
  List, [], ◌∷◌, ◌++◌, append-nil, append_assoc, length, length-append, ◌==◌, if◌then◌else◌,
  Bool-cases, inl, inr, arith, ◌≢◌, add-one, ==_refl, ==_ne, ℕ_discrete,
}
use marrow_os.Heap.{Heap, scan_blocks, heap_get_start_block, heap_get_entry_type, entry_free}

-- A block whose entry type is FREE.
abbrev pub is_free : ℕ → Bool
is_free e = heap_get_entry_type e == entry_free

unfoldable pub all_free : List ℕ → Bool
all_free [] = true
all_free (e ∷ es) = is_free e && all_free es

-- The table starts with `n` free blocks.
unfoldable pub run_free : List ℕ → ℕ → Bool
run_free es zero = true
run_free [] (suc n) = false
run_free (e ∷ es) (suc n) = is_free e && run_free es n

-- The first index, counted from `i`, at which `n` free blocks start.
unfoldable pub first_fit : List ℕ → ℕ → ℕ → Option ℕ
first_fit [] n i = none
first_fit (e ∷ es) n i = if run_free (e ∷ es) n then some i else first_fit es n (i + 1)

-- Where the free blocks at the very end of the table start.
unfoldable pub last_run : List ℕ → ℕ → Option ℕ
last_run [] i = none
last_run (e ∷ es) i = if all_free (e ∷ es) then some i else last_run es (i + 1)

abbrev pub or_else : Option ℕ → Option ℕ → Option ℕ
or_else none b = b
or_else (some a) b = some a

unfoldable pub fit_or_tail : List ℕ → ℕ → ℕ → Option ℕ
unfolding first_fit last_run
fit_or_tail es n i = or_else (first_fit es n i) (last_run es i)

run_free-short : (es : List ℕ) (n : ℕ) → length es < n → run_free es n ≡ false
unfolding run_free
run_free-short [] zero h = absurd (omega arith)
run_free-short [] (suc n) h = refl
run_free-short (e ∷ es) zero h = absurd (omega arith)
run_free-short (e ∷ es) (suc n) h = ground (arith, run_free-short es n)

pub first_fit-short : (es : List ℕ) (n i : ℕ) → length es < n → first_fit es n i ≡ none
unfolding first_fit run_free
first_fit-short [] n i h = refl
first_fit-short (e ∷ es) n i h =
    rw (run_free-short (e ∷ es) n h) (first_fit-short es n (i + 1) (omega arith))

-- A run of free blocks in front of one more.
run_free-full :
    (ps es : List ℕ) (e n : ℕ)
    → all_free ps ≡ true
    → is_free e ≡ true
    → suc (length ps) ≡ n
    → run_free (ps ++ e ∷ es) n ≡ true
unfolding run_free all_free
run_free-full [] es e zero h f l = absurd (omega arith)
run_free-full [] es e (suc zero) h f l = ground arith
run_free-full [] es e (suc (suc n)) h f l = absurd (omega arith)
run_free-full (p ∷ ps) es e zero h f l = absurd (omega arith)
run_free-full (p ∷ ps) es e (suc n) h f l = ground (arith, run_free-full ps es e n)

all_free-append :
    (ps : List ℕ) (e : ℕ) → all_free ps ≡ true → is_free e ≡ true → all_free (ps ++ e ∷ []) ≡ true
unfolding all_free
all_free-append [] e h f = ground arith
all_free-append (p ∷ ps) e h f = ground (arith, all_free-append ps e)

run_free-taken :
    (ps es : List ℕ) (e n : ℕ)
    → is_free e ≡ false
    → length ps < n
    → run_free (ps ++ e ∷ es) n ≡ false
unfolding run_free
run_free-taken [] es e zero f l = absurd (omega arith)
run_free-taken [] es e (suc n) f l = rw f
run_free-taken (p ∷ ps) es e zero f l = absurd (omega arith)
run_free-taken (p ∷ ps) es e (suc n) f l = ground (arith, run_free-taken ps es e n)

all_free-taken : (ps es : List ℕ) (e : ℕ) → is_free e ≡ false → all_free (ps ++ e ∷ es) ≡ false
unfolding all_free
all_free-taken [] es e f = rw f
all_free-taken (p ∷ ps) es e f = ground (arith, all_free-taken ps es e)

-- No fit starts in a run that is too short and ends at a taken block.
fit_or_tail-taken :
    (ps es : List ℕ) (e n s j : ℕ)
    → is_free e ≡ false
    → length ps < n
    → j ≡ s + length ps + 1
    → fit_or_tail (ps ++ e ∷ es) n s ≡ fit_or_tail es n j
unfolding fit_or_tail all_free
fit_or_tail-taken [] es e n s j f l eq =
    rw (run_free-taken [] es e n f l, f) (let k : s + 1 ≡ j = omega arith in rw k)
fit_or_tail-taken (p ∷ ps) es e n s j f l eq =
    rw (run_free-taken (p ∷ ps) es e n f l, all_free-taken (p ∷ ps) es e f)
      (fit_or_tail-taken ps es e n (s + 1) j f (omega arith) (omega arith))

fit_or_tail-hit :
    (e : ℕ) (es : List ℕ) (n s : ℕ) → run_free (e ∷ es) n ≡ true → fit_or_tail (e ∷ es) n s ≡ some s
unfolding fit_or_tail
fit_or_tail-hit e es n s h = rw h

fit_or_tail-tail :
    (e : ℕ) (es : List ℕ) (n s : ℕ)
    → all_free (e ∷ es) ≡ true
    → length (e ∷ es) < n
    → fit_or_tail (e ∷ es) n s ≡ some s
unfolding fit_or_tail
fit_or_tail-tail e es n s a h = rw (first_fit-short (e ∷ es) n s h, a)

module _ (k : ℕ) (es : List ℕ) (e i c n : ℕ) (st : Option ℕ) where
  scan-taken :
      is_free e ≡ false → scan_blocks (suc k) (e ∷ es) i st c n ≡ scan_blocks k es (i + 1) none 0 n
  unfolding scan_blocks
  scan-taken f = rw f

  scan-hit :
      is_free e ≡ true
      → c + 1 ≡ n
      → scan_blocks (suc k) (e ∷ es) i st c n ≡ some (some (Option.get_or st i))
  unfolding scan_blocks
  scan-hit f h = rw (f, h, ==_refl n)

  scan-more :
      is_free e ≡ true
      → c + 1 ≢ n
      → scan_blocks (suc k) (e ∷ es) i st c n
        ≡ scan_blocks k es (i + 1) (some (Option.get_or st i)) (suc c) n
  unfolding scan_blocks
  scan-more f h = rw (f, ==_ne _ _ h, add-one c)

-- The loop from a state with no run open, and from one with the run `p ∷ ps` open.
mutual
  unfolding fit_or_tail scan_blocks all_free run_free

  scan-none :
      (n : ℕ) (es : List ℕ) (i : ℕ)
      → 0 < n
      → scan_blocks (length es) es i none 0 n ≡ some (fit_or_tail es n i)
  scan-none n [] i h = refl
  scan-none n (e ∷ es) i h = elim (Bool-cases (is_free e)) [
    | inr f ↦
        scan-taken (length es) es e i 0 n none f
        ∙ scan-none n es (i + 1) h
        ∙ ap some (sym (fit_or_tail-taken [] es e n i (i + 1) f h (omega arith)))
    | inl f ↦ elim (ℕ_discrete 1 n) [
      | yes one ↦
          scan-hit (length es) es e i 0 n none f one
          ∙ ap some (sym (fit_or_tail-hit e es n i (run_free-full [] es e n refl f one)))
      | no more ↦
          scan-more (length es) es e i 0 n none f more
          ∙ scan-run n es e [] i (i + 1) (ground arith) (omega arith) refl
    ]
  ]

  scan-run :
      (n : ℕ) (es : List ℕ) (p : ℕ) (ps : List ℕ) (s i : ℕ)
      → all_free (p ∷ ps) ≡ true
      → suc (length ps) < n
      → i ≡ s + suc (length ps)
      → scan_blocks (length es) es i (some s) (suc (length ps)) n
        ≡ some (fit_or_tail (p ∷ ps ++ es) n s)
  scan-run n [] p ps s i a l eq =
      ap some (sym (fit_or_tail-tail p (ps ++ []) n s (rw append-nil a) (rw append-nil l)))
  scan-run n (e ∷ es) p ps s i a l eq =
      let snoc : length (ps ++ e ∷ []) ≡ suc (length ps) =
        omega (arith, length-append ps (e ∷ [])) in
      elim (Bool-cases (is_free e)) [
        | inr f ↦
            scan-taken (length es) es e i (suc (length ps)) n (some s) f
            ∙ scan-none n es (i + 1) (omega arith)
            ∙ ap some (sym (fit_or_tail-taken (p ∷ ps) es e n s (i + 1) f l (omega arith)))
        | inl f ↦ elim (ℕ_discrete (suc (length ps) + 1) n) [
          | yes full ↦
              scan-hit (length es) es e i (suc (length ps)) n (some s) f full
              ∙ ap some (
                  sym (
                    fit_or_tail-hit p (ps ++ e ∷ es) n s
                      (run_free-full (p ∷ ps) es e n a f (omega arith))))
          | no more ↦
              scan-more (length es) es e i (suc (length ps)) n (some s) f more
              ∙ rw (← snoc, ← append_assoc ps (e ∷ []) es)
                  (scan-run n es p (ps ++ e ∷ []) s (i + 1) (all_free-append (p ∷ ps) e a f)
                    (omega (arith, snoc)) (omega (arith, snoc)))
        ]
      ]

pub heap_get_start_block_lem :
    (heap : Heap) (n : ℕ)
    → heap.table.total ≡ length heap.table.entries
    → 0 < n
    → heap_get_start_block heap n ≡ some (fit_or_tail heap.table.entries n 0)
unfolding heap_get_start_block
heap_get_start_block_lem heap n t h = rw t (scan-none n heap.table.entries 0 h)
