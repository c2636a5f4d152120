-- ===== src/PathParser/Parts.antt =====
-- The parts that the loop of `pathparser_parse` reads, where the allocator has room.
use marrow_os.Allocator.{Allocator}
use marrow_os.Base.{
  ℕ, zero, suc, ◌+◌, ◌≤◌, ◌<◌, ◌≡◌, refl, ap, ap₂, subst, ◌∙◌, ◌≢◌, none, some, List, [], ◌∷◌, ◌++◌,
  map, length, replicate, arith, ==_ne,
}
use marrow_os.Base.Run.{◌>>=◌, >>=-some}
use marrow_os.PathParser.{
  PathPart, max_path, struct_size, copy_part, skip_slash, get_path_part, kfree, parser_path_part,
  more_parts,
}
use marrow_os.PathParser.Scan.{
  IsPlain, IsName, AllNames, suffix, join, skip_slash-suffix, padded, copy_part-plain,
}

copied :
    (p : List ℕ) (ps : List (List ℕ))
    → IsPlain p
    → length p ≤ max_path
    → copy_part (replicate max_path 0) 0 (p ++ suffix ps) ≡ some (padded p, length p, suffix ps)
copied p ps t h =
    copy_part-plain p ps [] (replicate max_path 0) 0 t refl h
    ∙ ap (λ k. some (padded p, k, suffix ps)) {x = 0 + length p} {y = length p} (omega arith)

length-ne_zero : (p : List ℕ) → p ≢ [] → length p ≢ 0
length-ne_zero [] h e = h refl
length-ne_zero (c ∷ p) h e = absurd (omega arith)

module _ (a : Allocator) (s s' : a.State) where
  name_run :
      (ptr : ℕ) (p : List ℕ) (ps : List (List ℕ))
      → a.kzalloc max_path s ≡ some (ptr, s')
      → ptr ≢ 0
      → IsName p
      → length p ≤ max_path
      → get_path_part a (p ++ suffix ps) s ≡ some ((some (ptr, padded p), join ps), s')
  unfolding get_path_part
  name_run ptr p ps e nz t h =
      >>=-some (a.kzalloc max_path) _ s s' ptr e
      ∙ rw (==_ne ptr 0 nz, copied p ps t.1 h, ==_ne (length p) 0 (length-ne_zero p t.0))
          (ap (λ left. some ((some (ptr, padded p), left), s')) (skip_slash-suffix ps))

  end_run :
      (ptr : ℕ) (s'' : a.State)
      → a.kzalloc max_path s ≡ some (ptr, s')
      → ptr ≢ 0
      → a.kfree ptr s' ≡ some s''
      → get_path_part a [] s ≡ some ((none, []), s'')
  unfolding get_path_part kfree copy_part skip_slash
  end_run ptr s'' e nz f =
      >>=-some (a.kzalloc max_path) _ s s' ptr e ∙ rw (==_ne ptr 0 nz) (rw (f, ◌>>=◌))

  part_run :
      (ptr node : ℕ) (s'' : a.State) (p : List ℕ) (ps : List (List ℕ))
      → a.kzalloc max_path s ≡ some (ptr, s')
      → ptr ≢ 0
      → a.kzalloc struct_size s' ≡ some (node, s'')
      → node ≢ 0
      → IsName p
      → length p ≤ max_path
      → parser_path_part a (p ++ suffix ps) s
        ≡ some ((some (record { node = node; part_ptr = ptr; part = padded p }), join ps), s'')
  unfolding parser_path_part
  part_run ptr node s'' p ps e nz e' nz' t h =
      >>=-some (get_path_part a (p ++ suffix ps)) _ s s' _ (name_run ptr p ps e nz t h)
      ∙ >>=-some (a.kzalloc struct_size) _ s' s'' node e'
      ∙ rw (==_ne node 0 nz')

  no_part_run :
      (ptr : ℕ) (s'' : a.State)
      → a.kzalloc max_path s ≡ some (ptr, s')
      → ptr ≢ 0
      → a.kfree ptr s' ≡ some s''
      → parser_path_part a [] s ≡ some ((none, []), s'')
  unfolding parser_path_part
  no_part_run ptr s'' e nz f = >>=-some (get_path_part a []) _ s s'' _ (end_run ptr s'' e nz f)

-- A part is read: its buffer, and the path behind the slash that follows.
pub parser_path_part-name :
    (a : Allocator) (n : ℕ) (p : List ℕ) (ps : List (List ℕ)) (s : a.State)
    → a.Room (suc (suc n)) s
    → IsName p
    → length p ≤ max_path
    → (part : PathPart) × (s' : a.State) × (parser_path_part a (p ++ suffix ps) s
        ≡ some ((some part, join ps), s'))
      × (part.part ≡ padded p)
      × a.Room n s'
parser_path_part-name a n p ps s r t h =
    let (ptr, s', e, nz, r') = a.room_kzalloc (suc n) max_path s r (omega arith) (omega arith) in
    let (node, s'', e', nz', r'') =
      a.room_kzalloc n struct_size s' r' (omega arith) (omega arith) in
    (
      record { node = node; part_ptr = ptr; part = padded p },
      s'',
      part_run a s s' ptr node s'' p ps e nz e' nz' t h,
      refl,
      r'',
    )

-- At the end of the path the buffer is given back.
pub parser_path_part-end :
    (a : Allocator) (n : ℕ) (s : a.State)
    → a.Room (suc n) s
    → (s' : a.State) × (parser_path_part a [] s ≡ some ((none, []), s')) × a.Room (suc n) s'
parser_path_part-end a n s r =
    let (ptr, s', e, nz, r') = a.room_kzalloc n max_path s r (omega arith) (omega arith) in
    let (s'', f, r'') = a.room_kfree n max_path ptr s s' r (omega arith) (omega arith) e in
    (s'', no_part_run a s s' ptr s'' e nz f, r'')

abbrev pub AllShort : List (List ℕ) → Type 0
AllShort [] = Unit
AllShort (p ∷ ps) = (length p ≤ max_path) × AllShort ps

-- Two requests for each part.
abbrev pub requests : List (List ℕ) → ℕ
requests [] = 0
requests (p ∷ ps) = suc (suc (requests ps))

abbrev pub part_buffer : PathPart → List ℕ
part_buffer p = p.part

more_none :
    (a : Allocator) (fuel : ℕ) (s s' : a.State)
    → parser_path_part a [] s ≡ some ((none, []), s')
    → more_parts a (suc fuel) [] s ≡ some ([], s')
unfolding more_parts
more_none a fuel s s' e = >>=-some (parser_path_part a []) _ s s' _ e

more_some :
    (a : Allocator) (fuel : ℕ) (path left : List ℕ) (part : PathPart) (parts : List PathPart)
    (s s' s'' : a.State)
    → parser_path_part a path s ≡ some ((some part, left), s')
    → more_parts a fuel left s' ≡ some (parts, s'')
    → more_parts a (suc fuel) path s ≡ some (part ∷ parts, s'')
unfolding more_parts
more_some a fuel path left part parts s s' s'' e e' =
    >>=-some (parser_path_part a path) _ s s' _ e ∙ >>=-some (more_parts a fuel left) _ s' s'' _ e'

-- With fuel above the number of parts the loop ends, and has read every part in order.
pub more_parts-join :
    (a : Allocator) (ps : List (List ℕ)) (fuel n : ℕ) (s : a.State)
    → length ps < fuel
    → a.Room (requests ps + suc n) s
    → AllNames ps
    → AllShort ps
    → (parts : List PathPart) × (s' : a.State) × (more_parts a fuel (join ps) s ≡ some (parts, s'))
      × (map part_buffer parts ≡ map padded ps)
      × a.Room (suc n) s'
more_parts-join a ps zero n s f r t h = absurd (omega arith)
more_parts-join a [] (suc fuel) n s f r t h =
    let (s', e, r') = parser_path_part-end a n s (subst (λ k. a.Room k s) (omega arith) r) in
    ([], s', more_none a fuel s s' e, refl, r')
more_parts-join a (p ∷ ps) (suc fuel) n s f r t h =
    let (part, s', e, b, r') =
      parser_path_part-name a (requests ps + suc n) p ps s (subst (λ k. a.Room k s) (omega arith) r)
        t.0 h.0 in
    let (parts, s'', e', bs, r'') = more_parts-join a ps fuel n s' (omega arith) r' t.1 h.1 in
    (part ∷ parts, s'', more_some a fuel _ _ part parts s s' s'' e e', ap₂ ◌∷◌ b bs, r'')
