-- ===== src/PathParser/Scan.antt =====
-- How one part is copied out of a path by the loop of `pathparser_get_path_part`.
use mathlib.Core.Option
use marrow_os.Base.{
  ℕ, ◌+◌, ◌≤◌, ◌≡◌, refl, sym, ap₂, ◌∙◌, ◌≢◌, some, List, [], ◌∷◌, ◌++◌, append_assoc, length,
  length-append, replicate, drop, store-append, arith, ==_ne,
}
use marrow_os.PathParser.{copy_part, skip_slash, slash, max_path}

-- Bytes that do not end a part.
abbrev pub IsPlain : List ℕ → Type 0
IsPlain [] = Unit
IsPlain (c ∷ cs) = (c ≢ slash) × (c ≢ 0) × IsPlain cs

-- The name of a file or a directory.
abbrev pub IsName : List ℕ → Type 0
IsName p = (p ≢ []) × IsPlain p

abbrev pub AllNames : List (List ℕ) → Type 0
AllNames [] = Unit
AllNames (p ∷ ps) = IsName p × AllNames ps

-- The path behind a part: each further part with a slash in front.
abbrev pub suffix : List (List ℕ) → List ℕ
suffix [] = []
suffix (p ∷ ps) = slash ∷ (p ++ suffix ps)

-- The parts with a slash between them.
abbrev pub join : List (List ℕ) → List ℕ
join [] = []
join (p ∷ ps) = p ++ suffix ps

pub skip_slash-suffix : (ps : List (List ℕ)) → skip_slash (suffix ps) ≡ join ps
unfolding skip_slash
skip_slash-suffix [] = refl
skip_slash-suffix (p ∷ ps) = refl

-- The buffer of `MARROWOS_MAX_PATH` bytes that holds a part.
abbrev pub padded : List ℕ → List ℕ
padded p = p ++ drop (length p) (replicate max_path 0)

pub copy_part-plain :
    (p : List ℕ) (ps : List (List ℕ)) (pre d : List ℕ) (i : ℕ)
    → IsPlain p
    → i ≡ length pre
    → length p ≤ length d
    → copy_part (pre ++ d) i (p ++ suffix ps)
      ≡ some (pre ++ (p ++ drop (length p) d), i + length p, suffix ps)
unfolding copy_part Option.bind
copy_part-plain [] [] pre d i t e h = ground arith
copy_part-plain [] (q ∷ ps) pre d i t e h = ground arith
copy_part-plain (c ∷ p) ps pre [] i t e h = absurd (omega arith)
copy_part-plain (c ∷ p) ps pre (x ∷ d) i t e h =
    rw (e, ==_ne c slash t.0, ==_ne c 0 t.1, store-append pre d x c)
      (rw (← append_assoc pre (c ∷ []) d) (
        copy_part-plain p ps (pre ++ c ∷ []) d (length pre + 1) t.2
          (sym (length-append pre (c ∷ []))) (omega arith)
        ∙ ap₂ (λ b k. some (b, k, suffix ps)) (append_assoc pre (c ∷ []) (p ++ drop (length p) d))
            (omega arith)))
