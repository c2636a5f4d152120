-- ===== src/Terminal/Tape.antt =====
-- The terminal as a tape: writing moves the cursor one cell on, through the ends of rows.
use mathlib.Core.Option
use marrow_os.Base.{
  ℕ, suc, refl, some, lt→ltb, ◌+◌, ◌-◌, ◌*◌, ◌^◌, ◌≤◌, ◌<◌, ◌≡◌, ap, ◌∙◌, ◌≢◌, ◌&&◌, List, [], ◌∷◌,
  length, ltb, leb, ◌==◌, if◌then◌else◌, ==_ne, get_or, arith, dec_lt, ℕ_discrete,
}
use marrow_os.Terminal.{
  Terminal, video_cells, step_on, vga_width, terminal_make_char, terminal_putchar, write_at_cursor,
  terminal_writechar, print,
}

-- The index of the cell under the cursor.
abbrev pub position : Terminal → ℕ
position t = t.row * vga_width + t.col

-- The cursor stands in a column.
abbrev pub InRow : Terminal → Type 0
InRow t = t.col < vga_width

-- The cell of a byte: white on black below 128, and with every bit of the attribute set from there up.
abbrev pub cell_of : ℕ → ℕ
cell_of c = if ltb c 128 then 0x0f00 + c else 0xff00 + c

-- A byte that is neither the terminator nor a newline nor a backspace.
abbrev pub IsPrintable : ℕ → Type 0
IsPrintable c = (c ≢ 0) × (c ≢ 0x08) × (c ≢ 0x0a)

abbrev pub AllPrintable : List ℕ → Type 0
AllPrintable [] = Unit
AllPrintable (c ∷ cs) = IsPrintable c × AllPrintable cs

-- The terminal with a character at the cursor.
unfoldable pub written : ℕ → ℕ → Terminal → Terminal
written c color t = step_on (record t {
  video_mem = λ i. if i == position t then terminal_make_char c color else t.video_mem i;
})

pub write_at_cursor-written :
    (c color : ℕ) (t : Terminal)
    → position t < video_cells
    → write_at_cursor c color t ≡ some (written c color t)
unfolding write_at_cursor terminal_putchar written
write_at_cursor-written c color t h = rw (lt→ltb (position t) video_cells h) refl

-- A character goes to the cell under the cursor, and the cursor to the next cell.
pub written-tape :
    (c color : ℕ) (t : Terminal)
    → InRow t
    → t.row + 1 < 2 ^ 16
    → let t' = written c color t in
      (position t' ≡ position t + 1)
      × InRow t'
      × (t'.row ≤ t.row + 1)
      × ((i : ℕ)
          → t'.video_mem i
            ≡ (if i == position t then terminal_make_char c color else t.video_mem i))
unfolding written step_on
written-tape c color t h r = (ground arith, ground arith, ground arith, λ i. ground arith)

terminal_writechar-printable :
    (c color : ℕ) (t : Terminal)
    → IsPrintable c
    → terminal_writechar c color t ≡ write_at_cursor c color t
unfolding terminal_writechar
terminal_writechar-printable c color t p = rw (==_ne c 0x0a p.2, ==_ne c 0x08 p.1)

get_or-step :
    (c : ℕ) (str : List ℕ) (i p : ℕ)
    → p < i
    → get_or (c ∷ str) (i - p) 0 ≡ get_or str (i - (p + 1)) 0
get_or-step c str i p h =
    ap (λ k. get_or (c ∷ str) k 0) {x = i - p} {y = suc (i - (p + 1))} (omega arith)

-- A cell of the text behind its first character, which stands at `p`.
tape_step :
    (c : ℕ) (str : List ℕ) (i p q : ℕ)
    → q ≡ p + 1
    → (old new : ℕ → ℕ) → new i ≡ (if i == p then terminal_make_char c 15 else old i)
    → (if leb q i && ltb i (q + length str)
        then terminal_make_char (get_or str (i - q) 0) 15
        else new i)
      ≡ (if leb p i && ltb i (p + suc (length str))
          then terminal_make_char (get_or (c ∷ str) (i - p) 0) 15
          else old i)
tape_step c str i p q e old new cell = elim (dec_lt p i) [
  | yes l ↦ rw (e, get_or-step c str i p l) (ground arith)
  | no nl ↦ elim (ℕ_discrete i p) [
    | yes same ↦ ground (arith, ap (λ k. get_or (c ∷ str) k 0) {x = i - p} {y = 0} (omega arith))
    | no differ ↦ ground arith
  ]
]

-- print of a text without control characters, in a column of the terminal and up to the end of
-- the screen of 1600 cells, writes its bytes into the cells from the cursor on, through the ends
-- of rows, in white on black below 128 and with every bit of the attribute set from 128 up,
-- leaves every other cell as it was, and ends behind the last.
pub print-tape :
    (str : List ℕ) (t : Terminal)
    → AllPrintable str
    → InRow t
    → position t + length str ≤ 1600
    → (t' : Terminal) × (print str t ≡ some t')
      × (position t' ≡ position t + length str)
      × InRow t'
      × ((i : ℕ)
          → t'.video_mem i ≡ (
              if leb (position t) i && ltb i (position t + length str)
              then cell_of (get_or str (i - position t) 0)
              else t.video_mem i))
unfolding print terminal_make_char Option.bind
print-tape [] t p h r = (t, refl, omega arith, h, λ i. ground arith)
print-tape (c ∷ str) t p h r =
    let (at, row, near, cells) = written-tape c 15 t h (omega arith) in
    let next = written c 15 t in
    let (t', run, at', row', cells') = print-tape str next p.1 row (omega (arith, at)) in
    (
      t',
      rw
          (
            ==_ne c 0 p.0.0,
            terminal_writechar-printable c 15 t p.0,
            write_at_cursor-written c 15 t (omega arith),
          )
          run,
      omega (arith, at, at'),
      row',
      λ i.
          cells' i
          ∙ tape_step c str i (position t) (position next) at t.video_mem next.video_mem (cells i),
    )
