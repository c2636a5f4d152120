-- ===== src/Terminal/Backspace.antt =====
-- `terminal_backspace` of src/kernel.c.
use marrow_os.Base.{
  ℕ, ◌+◌, ◌-◌, ◌^◌, ◌<◌, ◌≡◌, refl, ◌==◌, if◌then◌else◌, some, arith, ◌&&◌, true, false,
}
use marrow_os.Terminal.{
  Terminal, video_cells, vga_width, step_on, step_back, terminal_make_char, terminal_backspace,
}
use marrow_os.Terminal.Tape.{position, InRow, written, write_at_cursor-written}

-- Inside a row a backspace moves the cursor one cell back and blanks the cell that it moves to.
pub terminal_backspace-InRow :
    (t : Terminal)
    → InRow t
    → 0 < t.col
    → position t < video_cells
    → (t' : Terminal) × (terminal_backspace t ≡ some t')
      × (position t' + 1 ≡ position t)
      × InRow t'
      × ((i : ℕ)
          → t'.video_mem i
            ≡ (if i + 1 == position t then terminal_make_char b' ' 15 else t.video_mem i))
unfolding terminal_backspace written step_on step_back
terminal_backspace-InRow t h p room =
    let back : Terminal = record t { col = t.col - 1 } in
    let moved : (t.col == 0) ≡ false = ground arith in
    let inside : (t.row == 0 && t.col == 0) ≡ false = ground arith in
    (
      step_back (written b' ' 15 back),
      rw (inside, moved, write_at_cursor-written b' ' 15 back (omega arith)) refl,
      ground arith,
      ground arith,
      λ i. ground arith,
    )

-- At the start of a row below the first, a backspace blanks the last cell of the row above, but the
-- column that it leaves is 65535, no column of the terminal.
pub terminal_backspace-row_start :
    (t : Terminal)
    → t.col ≡ 0
    → 0 < t.row
    → position t < video_cells
    → (t' : Terminal) × (terminal_backspace t ≡ some t')
      × (t'.col ≡ 2 ^ 16 - 1)
      × (t'.row ≡ t.row)
      × (t'.video_mem (position t - 1) ≡ terminal_make_char b' ' 15)
unfolding terminal_backspace written step_on step_back
terminal_backspace-row_start t c p r =
    let back : Terminal = record t { row = t.row - 1; col = vga_width - 1 } in
    let start : (t.col == 0) ≡ true = ground arith in
    let inside : (t.row == 0 && t.col == 0) ≡ false = ground arith in
    (
      step_back (written b' ' 15 back),
      rw (inside, start, write_at_cursor-written b' ' 15 back (omega arith)) refl,
      ground arith,
      ground arith,
      ground arith,
    )
