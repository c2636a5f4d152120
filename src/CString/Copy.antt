-- ===== src/CString/Copy.antt =====
-- `strncpy` of src/string/string.c.
use mathlib.Core.Option
use marrow_os.Base.{
  ℕ, zero, suc, ◌+◌, ◌-◌, ◌≤◌, ◌<◌, ◌≡◌, refl, sym, ap, ◌∙◌, some, List, [], ◌∷◌, ◌++◌,
  append_assoc, length, length-append, length-take, take, drop, store-append, arith, ==_ne,
}
use marrow_os.CString.{strncpy, strncpy_from}
use marrow_os.CString.Compare.{IsText}

strncpy_from-take :
    (left : ℕ) (src pre d : List ℕ) (i : ℕ)
    → IsText src
    → i ≡ length pre
    → length (take left src) < length d
    → strncpy_from (pre ++ d) i src left
      ≡ some (pre ++ (take left src ++ 0 ∷ drop (suc (length (take left src))) d))
unfolding strncpy_from Option.bind
strncpy_from-take left src pre [] i t e h = absurd (omega arith)
strncpy_from-take zero src pre (x ∷ d) i t e h = rw (e, store-append pre d x 0)
strncpy_from-take (suc left) [] pre (x ∷ d) i t e h = rw (e, store-append pre d x 0)
strncpy_from-take (suc left) (c ∷ src) pre (x ∷ d) i t e h =
    rw (e, ==_ne c 0 t.0, store-append pre d x c)
      (rw (← append_assoc pre (c ∷ []) d) (
        strncpy_from-take left src (pre ++ c ∷ []) d (length pre + 1) t.1
          (sym (length-append pre (c ∷ []))) (omega arith)
        ∙ ap some (
            append_assoc pre (c ∷ [])
              (take left src ++ 0 ∷ drop (suc (length (take left src))) d))))

-- `strncpy` of a text into a buffer of at least `count` bytes stays inside it: it writes the first
-- `count - 1` bytes of the text, or all of it if it is shorter, then the terminator, and leaves the
-- bytes behind that as they were.
pub strncpy-take :
    (dest src : List ℕ) (count : ℕ)
    → IsText src
    → 0 < count
    → count ≤ length dest
    → strncpy dest src count
      ≡ some (take (count - 1) src ++ 0 ∷ drop (suc (length (take (count - 1) src))) dest)
unfolding strncpy
strncpy-take dest src count t p h =
    strncpy_from-take (count - 1) src [] dest 0 t refl (omega (arith, length-take (count - 1) src))
