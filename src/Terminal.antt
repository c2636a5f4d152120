-- ===== src/Terminal.antt =====
-- The text terminal of src/kernel.c: a cursor over the cells of video memory.
pub mod Tape
pub mod Backspace
use mathlib.Core.Option
use marrow_os.Base.{
  ℕ, Option, none, some, ◌+◌, ◌-◌, ◌*◌, ◌%◌, ◌^◌, ◌&&◌, List, [], ◌∷◌, ltb, leb, ◌==◌,
  if◌then◌else◌, zero, suc,
}

abbrev pub vga_width : ℕ
vga_width = 80

abbrev pub vga_height : ℕ
vga_height = 20

-- The 32 KiB of video memory at 0xB8000, of which the screen shows the first 1600 cells.
abbrev pub video_cells : ℕ
video_cells = 16384

-- `video_mem` by index, and `terminal_row` and `terminal_col`, which are 16-bit words.
pub record Terminal : Type 0 where
  pub video_mem : ℕ → ℕ
  pub row : ℕ
  pub col : ℕ

-- `(color << 8) | c` for a color below 128; a `char` from 128 up is negative and fills the high byte.
pub terminal_make_char : ℕ → ℕ → ℕ
terminal_make_char c color = if ltb c 128 then color * 256 + c else 0xff00 + c

-- A write behind the video memory, which nothing stops, goes into memory that is not the terminal's, and is a
-- fault.
unfoldable pub terminal_putchar : ℕ → ℕ → ℕ → ℕ → Terminal → Option Terminal
terminal_putchar x y c color t =
    if ltb (y * vga_width + x) video_cells
    then some (record t {
      video_mem = λ i. if i == y * vga_width + x then terminal_make_char c color else t.video_mem i;
    })
    else none

-- The cursor behind a character.
pub step_on : Terminal → Terminal
step_on t =
    let next = (t.col + 1) % 2 ^ 16 in
    if leb vga_width next
    then record t { col = 0; row = (t.row + 1) % 2 ^ 16 }
    else record t { col = next }

-- The end of `terminal_writechar`, behind its tests for a newline and a backspace.
pub write_at_cursor : ℕ → ℕ → Terminal → Option Terminal
write_at_cursor c color t = Option.map step_on (terminal_putchar t.col t.row c color t)

-- `terminal_col -= 1`
pub step_back : Terminal → Terminal
step_back t = record t { col = (t.col + (2 ^ 16 - 1)) % 2 ^ 16 }

-- The call of `terminal_writechar` for a blank goes straight to the cursor.
pub terminal_backspace : Terminal → Option Terminal
terminal_backspace t =
    if t.row == 0 && t.col == 0
    then some t
    else let back : Terminal =
        if t.col == 0
        then record t { row = t.row - 1; col = vga_width - 1 }
        else record t { col = t.col - 1 } in
      Option.map step_back (write_at_cursor b' ' 15 back)

pub terminal_writechar : ℕ → ℕ → Terminal → Option Terminal
terminal_writechar c color t =
    if c == 0x0a
    then some (record t { row = (t.row + 1) % 2 ^ 16; col = 0 })
    else (if c == 0x08 then terminal_backspace t else write_at_cursor c color t)

-- `print` up to the terminator.
pub print : List ℕ → Terminal → Option Terminal
print [] t = some t
print (c ∷ str) t = if c == 0 then some t else Option.bind (terminal_writechar c 15 t) (print str)

-- The inner loop of `terminal_initialize` over the columns from `x` on, then the outer over the rows.
clear_row : ℕ → ℕ → ℕ → Terminal → Option Terminal
clear_row zero x y t = some t
clear_row (suc left) x y t = Option.bind (terminal_putchar x y b' ' 0 t) (clear_row left (x + 1) y)

clear_rows : ℕ → ℕ → Terminal → Option Terminal
clear_rows zero y t = some t
clear_rows (suc left) y t = Option.bind (clear_row vga_width 0 y t) (clear_rows left (y + 1))

pub terminal_initialize : Terminal → Option Terminal
terminal_initialize t = clear_rows vga_height 0 (record t { row = 0; col = 0 })
