-- ===== src/PathParser/RoundTrip.antt =====
-- `pathparser_parse` reads back the path that a drive and a list of names spell.
use marrow_os.Allocator.{Allocator}
use marrow_os.Base.{
  ℕ, suc, ◌+◌, ◌≤◌, ◌<◌, ◌≡◌, refl, ap₂, subst, ◌∙◌, ◌≢◌, true, Option, some, List, [], ◌∷◌, ◌++◌,
  map, length, length-append, arith, ==_ne, ℤ, pos, ltb_le,
}
use marrow_os.Base.Run.{>>=-some}
use marrow_os.CString.{strlen, is_digit, tonumericdigit}
use marrow_os.Memory.{memcmp, memcmp_from}
use marrow_os.CString.Compare.{IsText, strlen-text, strnlen-strlen}
use marrow_os.PathParser.{
  PathPart, PathRoot, max_path, slash, struct_size, pathparser_parse, get_drive_by_path,
  path_valid_format, create_root, parse_parts, parser_path_part, more_parts,
}
use marrow_os.PathParser.Parts.{
  AllShort, requests, part_buffer, parser_path_part-name, more_parts-join,
}
use marrow_os.PathParser.Scan.{IsPlain, AllNames, suffix, join, padded}

-- The path `d:/p/q/…`.
abbrev pub format : ℕ → List (List ℕ) → List ℕ
format d ps = (48 + d) ∷ (b':' ∷ (slash ∷ join ps))

plain-IsText : (p : List ℕ) (rest : List ℕ) → IsPlain p → IsText rest → IsText (p ++ rest)
plain-IsText [] rest t u = u
plain-IsText (c ∷ p) rest t u = (t.1, plain-IsText p rest t.2 u)

suffix-IsText : (ps : List (List ℕ)) → AllNames ps → IsText (suffix ps)
suffix-IsText [] t = tt
suffix-IsText (p ∷ ps) t = (omega arith, plain-IsText p (suffix ps) t.0.1 (suffix-IsText ps t.1))

-- Each part of a path that fits is short enough for its buffer.
suffix-AllShort : (ps : List (List ℕ)) → length (suffix ps) ≤ max_path → AllShort ps
suffix-AllShort [] h = tt
suffix-AllShort (p ∷ ps) h = (
  omega (arith, length-append p (suffix ps)),
  suffix-AllShort ps (omega (arith, length-append p (suffix ps))),
)

length-suffix : (ps : List (List ℕ)) → length ps ≤ length (suffix ps)
length-suffix [] = omega arith
length-suffix (p ∷ ps) = omega (arith, length-suffix ps, length-append p (suffix ps))

length-join : (ps : List (List ℕ)) → AllNames ps → length ps ≤ length (join ps)
length-join [] t = omega arith
length-join ([] ∷ ps) t = absurd (t.0.0 refl)
length-join ((c ∷ p) ∷ ps) t = omega (arith, length-suffix ps, length-append p (suffix ps))

format-valid :
    (d : ℕ) (tail : List ℕ)
    → d < 10
    → IsText tail
    → path_valid_format ((48 + d) ∷ (b':' ∷ (slash ∷ tail))) ≡ true
unfolding path_valid_format memcmp memcmp_from is_digit
format-valid d tail h t =
    let path = (48 + d) ∷ (b':' ∷ (slash ∷ tail)) in
    let text : IsText path = (omega arith, (omega arith, (omega arith, t))) in
    ground (arith, strnlen-strlen path max_path, strlen-text path text)

drive_of_format :
    (d : ℕ) (tail : List ℕ)
    → d < 10
    → IsText tail
    → get_drive_by_path ((48 + d) ∷ (b':' ∷ (slash ∷ tail))) ≡ some (pos d, tail)
unfolding get_drive_by_path tonumericdigit
drive_of_format d tail h t = rw (format-valid d tail h t) (ground arith)

module _ (a : Allocator) (s s' : a.State) where
  root_run :
      (drive : ℤ) (root : ℕ)
      → a.kzalloc struct_size s ≡ some (root, s')
      → root ≢ 0
      → create_root a drive s
        ≡ some (some (record { root = root; drive_no = drive; parts = [] }), s')
  unfolding create_root
  root_run drive root e nz = >>=-some (a.kzalloc struct_size) _ s s' root e ∙ rw (==_ne root 0 nz)

  parts_run :
      (r : PathRoot) (path left : List ℕ) (p : PathPart) (ps : List PathPart) (s'' : a.State)
      → parser_path_part a path s ≡ some ((some p, left), s')
      → more_parts a (suc (length left)) left s' ≡ some (ps, s'')
      → parse_parts a r path s ≡ some (some (record r { parts = p ∷ ps }), s'')
  unfolding parse_parts
  parts_run r path left p ps s'' e e' =
      >>=-some (parser_path_part a path) _ s s' _ e
      ∙ >>=-some (more_parts a (suc (length left)) left) _ s' s'' _ e'

  parse_run :
      (path left : List ℕ) (drive : ℤ) (r : PathRoot) (out : Option PathRoot × a.State)
      → strlen path ≤ max_path
      → get_drive_by_path path ≡ some (drive, left)
      → create_root a drive s ≡ some (some r, s')
      → parse_parts a r left s' ≡ some out
      → pathparser_parse a path s ≡ some out
  unfolding pathparser_parse
  parse_run path left drive r out l e e' e'' =
      rw (ltb_le max_path (strlen path) l, e) (>>=-some (create_root a drive) _ s s' _ e' ∙ e'')

format-IsText :
    (d : ℕ) (p : List ℕ) (ps : List (List ℕ)) → AllNames (p ∷ ps) → IsText (format d (p ∷ ps))
format-IsText d p ps t = (
  omega arith,
  (omega arith, (omega arith, plain-IsText p (suffix ps) t.0.1 (suffix-IsText ps t.1))),
)

pub pathparser_parse-Room :
    (a : Allocator) (n d : ℕ) (p : List ℕ) (ps : List (List ℕ)) (s : a.State)
    → d < 10
    → AllNames (p ∷ ps)
    → length (format d (p ∷ ps)) ≤ max_path
    → a.Room (requests (p ∷ ps) + 2 + n) s
    → (root : PathRoot) × (s' : a.State) × (pathparser_parse a (format d (p ∷ ps)) s
        ≡ some (some root, s'))
      × (root.drive_no ≡ pos d)
      × (map part_buffer root.parts ≡ map padded (p ∷ ps))
      × a.Room (suc n) s'
pathparser_parse-Room a n d p ps s hd t l r =
    let short : AllShort (p ∷ ps) =
      suffix-AllShort (p ∷ ps) (omega (arith, length-append p (suffix ps))) in
    let (root, s1, e1, nz, r1) =
      a.room_kzalloc (requests (p ∷ ps) + 1 + n) struct_size s
        (subst (λ k. a.Room k s) (omega arith) r) (omega arith) (omega arith) in
    let (part, s2, e2, b, r2) =
      parser_path_part-name a (requests ps + 1 + n) p ps s1
        (subst (λ k. a.Room k s1) (omega arith) r1) t.0 short.0 in
    let (parts, s3, e3, bs, r3) =
      more_parts-join a ps (suc (length (join ps))) n s2 (omega (arith, length-join ps t.1))
        (subst (λ k. a.Room k s2) (omega arith) r2) t.1 short.1 in
    (
      record { root = root; drive_no = pos d; parts = part ∷ parts },
      s3,
      parse_run a s s1 (format d (p ∷ ps)) (join (p ∷ ps)) (pos d) _ _
          (omega (arith, strlen-text (format d (p ∷ ps)) (format-IsText d p ps t)))
          (drive_of_format d (join (p ∷ ps)) hd
            (plain-IsText p (suffix ps) t.0.1 (suffix-IsText ps t.1)))
          (root_run a s s1 (pos d) root e1 nz)
          (parts_run a s1 s2 _ (join (p ∷ ps)) (join ps) part parts s3 e2 e3),
      refl,
      ap₂ ◌∷◌ b bs,
      r3,
    )

-- `pathparser_parse` of the path that a drive digit and at least one name spell, no longer than
-- the limit, returns that drive and one part for each name, in order, each in a buffer that ends in
-- zero bytes; an allocator with room for two requests a name and two more is enough.
pub pathparser_parse-format :
    (a : Allocator) (d : ℕ) (p : List ℕ) (ps : List (List ℕ)) (s : a.State)
    → d < 10
    → AllNames (p ∷ ps)
    → length (format d (p ∷ ps)) ≤ max_path
    → a.Room (requests (p ∷ ps) + 2) s
    → (root : PathRoot) × (s' : a.State) × (pathparser_parse a (format d (p ∷ ps)) s
        ≡ some (some root, s'))
      × (root.drive_no ≡ pos d)
      × (map part_buffer root.parts ≡ map padded (p ∷ ps))
pathparser_parse-format a d p ps s hd t l r =
    let (root, s', run, drive, parts, _) =
      pathparser_parse-Room a 0 d p ps s hd t l (subst (λ k. a.Room k s) (omega arith) r) in
    (root, s', run, drive, parts)
