-- ===== src/Command/Typing.antt =====
-- What `marrowos_terminal_readline` leaves in its buffer.
use mathlib.Core.Option
use mathlib.Core.Bool.{and-false}
use marrow_os.Base.{
  ℕ, ◌+◌, ◌-◌, ◌<◌, ◌≤◌, ◌≡◌, ◌≢◌, refl, sym, ap, ◌∙◌, Bool, ◌==◌, if◌then◌else◌, lt→ltb, le→leb,
  ==_ne, some, List, [], ◌∷◌, ◌++◌, append_assoc, length, length-append, store, store-append, arith,
  ℕ_discrete, ◌⊎◌, inl, inr, leb_lt, true, false, append-nil,
}
use marrow_os.Command.{getkey_block_results, readline_from, marrowos_terminal_readline}

-- All but the last byte.
abbrev pub drop_last : List ℕ → List ℕ
drop_last [] = []
drop_last (c ∷ []) = []
drop_last (c ∷ (d ∷ cs)) = c ∷ drop_last (d ∷ cs)

-- What a line editor makes of the keys: a backspace takes the last byte away. At the start of the line
-- it is a byte as any other.
pub press : List ℕ → ℕ → List ℕ
press [] key = key ∷ []
press (c ∷ cs) key = if key == 0x08 then drop_last (c ∷ cs) else c ∷ (cs ++ key ∷ [])

pub edit : List ℕ → List ℕ → List ℕ
edit line [] = line
edit line (key ∷ keys) = edit (press line key) keys

-- Keys that are typed: none is 0 or a carriage return.
abbrev pub AllTyped : List ℕ → Type 0
AllTyped [] = Unit
AllTyped (key ∷ keys) = (key ≢ 0) × (key ≢ 13) × AllTyped keys

getkey_block_results-typed :
    (keys rest : List ℕ)
    → AllTyped keys
    → (more : List ℕ) × (getkey_block_results (keys ++ 13 ∷ rest) ≡ keys ++ 13 ∷ more)
unfolding getkey_block_results
getkey_block_results-typed [] rest h = (getkey_block_results rest, refl)
getkey_block_results-typed (key ∷ keys) rest h =
    let (more, e) = getkey_block_results-typed keys rest h.2 in
    (more, rw (==_ne key 0 h.0) (ap (λ t. key ∷ t) e))

drop_last-split : (c : ℕ) (cs : List ℕ) → (d : ℕ) × (c ∷ cs ≡ drop_last (c ∷ cs) ++ d ∷ [])
drop_last-split c [] = (c, refl)
drop_last-split c (d ∷ cs) = let (e, p) = drop_last-split d cs in (e, ap (λ t. c ∷ t) p)

-- What is put out with a key.
echoed : Bool → List ℕ → ℕ → List ℕ
echoed echo shown key = if echo then shown ++ key ∷ [] else shown

shown_after : Bool → List ℕ → List ℕ → List ℕ
shown_after echo shown [] = shown
shown_after echo shown (key ∷ keys) = shown_after echo (echoed echo shown key) keys

shown_after_lem :
    (echo : Bool) (shown keys : List ℕ)
    → shown_after echo shown keys ≡ (if echo then shown ++ keys else shown)
unfolding shown_after echoed
shown_after_lem true shown [] = sym (append-nil shown)
shown_after_lem false shown [] = refl
shown_after_lem true shown (key ∷ keys) =
    shown_after_lem true (shown ++ key ∷ []) keys ∙ append_assoc shown (key ∷ []) keys
shown_after_lem false shown (key ∷ keys) = shown_after_lem false shown keys

module _ (i last : ℕ) (echo : Bool) (buffer shown : List ℕ) {buffer' : List ℕ} (l : i < last) where
  readline_from-key :
      (key : ℕ) (keys : List ℕ)
      → key ≢ 13
      → ((key ≢ 0x08) ⊎ (i ≡ 0))
      → store buffer i key ≡ some buffer'
      → readline_from (key ∷ keys) i last echo buffer shown
        ≡ readline_from keys (i + 1) last echo buffer' (echoed echo shown key)
  unfolding readline_from echoed Option.bind
  readline_from-key key keys more (inl other) s =
      rw (lt→ltb i last l, ==_ne key 13 more, ==_ne key 0x08 other, s) refl
  readline_from-key key keys more (inr start) s =
      rw (lt→ltb i last l, ==_ne key 13 more, leb_lt 1 i (omega arith), and-false (key == 0x08), s)
        refl

  readline_from-backspace :
      (keys : List ℕ)
      → 0 < i
      → store buffer (i - 1) 0 ≡ some buffer'
      → readline_from (0x08 ∷ keys) i last echo buffer shown
        ≡ readline_from keys (i - 1) last echo buffer' (echoed echo shown 0x08)
  unfolding readline_from echoed Option.bind
  readline_from-backspace keys p s = rw (lt→ltb i last l, le→leb 1 i (omega arith), s) refl

-- From a buffer on, the loop ends with the line that the keys make.
Ends : List ℕ → List ℕ → ℕ → ℕ → Bool → List ℕ → List ℕ → List ℕ → Type 0
Ends keys rest i last echo buffer shown line =
    (junk : List ℕ) × (readline_from (keys ++ 13 ∷ rest) i last echo buffer shown
      ≡ some (edit line keys ++ 0 ∷ junk, shown_after echo shown keys))

press-other :
    (line : List ℕ) (key : ℕ)
    → ((key ≢ 0x08) ⊎ (length line ≡ 0))
    → press line key ≡ line ++ key ∷ []
unfolding press
press-other [] key h = refl
press-other (c ∷ cs) key (inl other) = rw (==_ne key 0x08 other) refl
press-other (c ∷ cs) key (inr start) = absurd (omega arith)

-- A key is the backspace behind a byte, or another one.
data Key (line : List ℕ) (key : ℕ) : Type 0 where
  other : ((key ≢ 0x08) ⊎ (length line ≡ 0)) → Key line key
  back :
      (init : List ℕ) (d : ℕ)
      → key ≡ 0x08
      → line ≡ init ++ d ∷ []
      → press line 0x08 ≡ init
      → Key line key

Key-cases : (line : List ℕ) (key : ℕ) → Key line key
unfolding press
Key-cases [] key = other (inr refl)
Key-cases (c ∷ cs) key = elim (ℕ_discrete key 0x08) [
  | yes e ↦ let (d, split) = drop_last-split c cs in back (drop_last (c ∷ cs)) d e split refl
  | no ne ↦ other (inl ne)
]

module _ {line : List ℕ} (init : List ℕ) (d : ℕ) (split : line ≡ init ++ d ∷ []) where
  longer : length line ≡ length init + 1
  longer = ap length split ∙ length-append init (d ∷ [])

  shorter : length line - 1 ≡ length init
  shorter = omega (arith, longer)

  store-shorter :
      (junk : List ℕ) → store (line ++ junk) (length line - 1) 0 ≡ some (init ++ 0 ∷ junk)
  store-shorter junk =
      rw (shorter, split, append_assoc init (d ∷ []) junk) (store-append init junk d 0)

readline_from-return :
    (rest line junk shown : List ℕ) (x last : ℕ) (echo : Bool)
    → length line < last
    → readline_from (13 ∷ rest) (length line) last echo (line ++ x ∷ junk) shown
      ≡ some (line ++ 0 ∷ junk, shown)
unfolding readline_from
readline_from-return rest line junk shown x last echo l =
    rw (lt→ltb (length line) last l, store-append line junk x 0) refl

-- The buffer holds the line, and bytes of no meaning behind it.
readline_from-edit :
    (keys rest line junk shown : List ℕ) (last : ℕ) (echo : Bool)
    → AllTyped keys
    → length line + length keys < last
    → last < length line + length junk
    → Ends keys rest (length line) last echo (line ++ junk) shown line
unfolding Ends edit shown_after
readline_from-edit keys rest line [] shown last echo h fits room = absurd (omega arith)
readline_from-edit [] rest line (x ∷ junk) shown last echo h fits room =
    (junk, readline_from-return rest line junk shown x last echo (omega arith))
readline_from-edit (key ∷ keys) rest line (x ∷ junk) shown last echo h fits room =
    elim (Key-cases line key) [
      | other o ↦
          let (junk', e) =
            readline_from-edit keys rest (line ++ key ∷ []) junk (echoed echo shown key) last echo
              h.2 (omega (arith, length-append line (key ∷ [])))
              (omega (arith, length-append line (key ∷ []))) in
          (
            junk',
            readline_from-key (length line) last echo (line ++ x ∷ junk) shown (omega arith) key
                  (keys ++ 13 ∷ rest) h.1 o (store-append line junk x key)
                ∙ rw
                    (
                      press-other line key o,
                      ← append_assoc line (key ∷ []) junk,
                      ← length-append line (key ∷ []),
                    )
                    e,
          )
      | back init d e split pressed ↦
          let (junk', ends) =
            readline_from-edit keys rest init (0 ∷ (x ∷ junk)) (echoed echo shown 0x08) last echo
              h.2 (omega (arith, longer init d split)) (omega (arith, longer init d split)) in
          (
            junk',
            rw e (
                readline_from-backspace (length line) last echo (line ++ x ∷ junk) shown
                  (omega arith) (keys ++ 13 ∷ rest) (omega (arith, longer init d split))
                  (store-shorter init d split (x ∷ junk))
                ∙ rw (pressed, shorter init d split) ends),
          )
    ]

-- Where the buffer holds max bytes and the keys that are typed before a carriage return are fewer
-- than max - 1, marrowos_terminal_readline returns, its buffer starts with the line that a line
-- editor makes of the keys and the terminator, and it puts out every key if it is told to, and
-- none if not. A backspace takes the byte before it away, but at the start of the line it stays
-- in the line as a byte.
pub marrowos_terminal_readline-edit :
    (keys rest out : List ℕ) (max : ℕ) (output_while_typing : Bool)
    → AllTyped keys
    → length keys < max - 1
    → max ≤ length out
    → (junk : List ℕ) × (marrowos_terminal_readline (keys ++ 13 ∷ rest) out max output_while_typing
        ≡ some (edit [] keys ++ 0 ∷ junk, if output_while_typing then keys else []))
unfolding marrowos_terminal_readline Ends
marrowos_terminal_readline-edit keys rest out max output_while_typing h fits room =
    let (more, e) = getkey_block_results-typed keys rest h in
    let (junk, ends) =
      readline_from-edit keys more [] out [] (max - 1) output_while_typing h (omega arith)
        (omega arith) in
    (
      junk,
      rw e ends
          ∙ ap (λ shown. some (edit [] keys ++ 0 ∷ junk, shown))
              (shown_after_lem output_while_typing [] keys),
    )
