-- ===== src/CString/Compare.antt =====
-- `strncmp` and `istrncmp` of src/string/string.c, and the lengths.
use marrow_os.Base.{
  ℕ, zero, suc, ◌<◌, ◌≡◌, refl, ◌≢◌, ◌↔◌, List, [], ◌∷◌, ◌++◌, map, length, arith, pos, min,
}
use marrow_os.CString.{byte, rest, tolower, strlen, strnlen, istrncmp, strncmp}

-- No byte of the text is the terminator.
abbrev pub IsText : List ℕ → Type 0
IsText [] = Unit
IsText (c ∷ cs) = (c ≢ 0) × IsText cs

pub strlen-text : (s : List ℕ) → IsText s → strlen s ≡ length s
unfolding strlen
strlen-text [] t = refl
strlen-text (c ∷ cs) t = ground (arith, strlen-text cs t.1)

-- `strnlen` is the length of the string, but at most `max`.
pub strnlen-strlen : (s : List ℕ) (max : ℕ) → strnlen s max ≡ min (strlen s) max
unfolding strnlen strlen
strnlen-strlen s zero = omega arith
strnlen-strlen [] (suc max) = omega arith
strnlen-strlen (c ∷ cs) (suc max) = ground (arith, strnlen-strlen cs max)

-- Texts shorter than `n` compare equal under `strncmp` exactly when they are the same.
pub strncmp-zero_iff :
    (s t : List ℕ) (n : ℕ) → IsText s → IsText t → length s < n → (strncmp s t n ≡ pos 0) ↔ (s ≡ t)
unfolding strncmp
strncmp-zero_iff s t zero p q h = absurd (omega arith)
strncmp-zero_iff [] [] (suc n) p q h = (λ _. refl, λ _. refl)
strncmp-zero_iff [] (d ∷ t) (suc n) p q h = (λ e. ground arith, λ e. cc)
strncmp-zero_iff (c ∷ s) [] (suc n) p q h = (λ e. ground arith, λ e. cc)
strncmp-zero_iff (c ∷ s) (d ∷ t) (suc n) p q h =
    let (to, from) = strncmp-zero_iff s t n p.1 q.1 (omega arith) in
    (λ e. ground (arith, to), λ e. ground (arith, from))

pub tolower_zero : tolower 0 ≡ 0
unfolding tolower
tolower_zero = refl

pub tolower-zero : (c : ℕ) → tolower c ≡ 0 → c ≡ 0
unfolding tolower
tolower-zero c h = ground arith

-- Texts shorter than `n` compare equal under `istrncmp` exactly when they differ in case alone.
pub istrncmp-zero_iff :
    (s t : List ℕ) (n : ℕ)
    → IsText s
    → IsText t
    → length s < n
    → (istrncmp s t n ≡ pos 0) ↔ (map tolower s ≡ map tolower t)
unfolding istrncmp
istrncmp-zero_iff s t zero p q h = absurd (omega arith)
istrncmp-zero_iff [] [] (suc n) p q h = (λ _. refl, λ _. refl)
istrncmp-zero_iff [] (d ∷ t) (suc n) p q h =
    (λ e. ground (arith, tolower-zero d, tolower_zero), λ e. cc)
istrncmp-zero_iff (c ∷ s) [] (suc n) p q h =
    (λ e. ground (arith, tolower-zero c, tolower_zero), λ e. cc)
istrncmp-zero_iff (c ∷ s) (d ∷ t) (suc n) p q h =
    let (to, from) = istrncmp-zero_iff s t n p.1 q.1 (omega arith) in
    (λ e. ground (arith, to), λ e. ground (arith, from))

-- What stands behind the terminator is not compared.
pub istrncmp-terminator_left : (s r t : List ℕ) (n : ℕ) → istrncmp (s ++ 0 ∷ r) t n ≡ istrncmp s t n
unfolding istrncmp
istrncmp-terminator_left s r t zero = refl
istrncmp-terminator_left [] r t (suc n) = refl
istrncmp-terminator_left (c ∷ s) r t (suc n) = rw (istrncmp-terminator_left s r (rest t) n) refl

pub istrncmp-terminator_right :
    (s t r : List ℕ) (n : ℕ) → istrncmp s (t ++ 0 ∷ r) n ≡ istrncmp s t n
unfolding istrncmp
istrncmp-terminator_right s t r zero = refl
istrncmp-terminator_right s [] r (suc n) = ground (arith, tolower-zero (byte s), tolower_zero)
istrncmp-terminator_right s (d ∷ t) r (suc n) = rw (istrncmp-terminator_right (rest s) t r n) refl
