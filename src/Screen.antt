-- ===== src/Screen.antt =====
-- The text screens of src/lib.c: one 80 by 25 page of character and attribute bytes for the terminal
-- that is shown and one for each of the three in the background, and a cursor for each terminal.
-- `screen_x` and `screen_y` are C ints: a backspace at column 0 makes one negative.
pub mod Scroll
pub mod Printing
use lightweight_operating_sy.Prelude.{
  ℕ, zero, suc, ◌+◌, ◌-◌, ◌*◌, ◌/◌, ◌%◌, Bool, true, false, not, ◌||◌, Memory, update, ◌==◌, slt,
  srem, sdiv, if◌then◌else◌, u8, u16, u32,
}
use lightweight_operating_sy.Hardware.{Hardware, outb}

abbrev pub video : ℕ
video = 0xb8000

abbrev pub num_cols : ℕ
num_cols = 80

abbrev pub num_rows : ℕ
num_rows = 25

abbrev pub attrib : ℕ
attrib = 7

-- What printing changes.
pub record Display : Type 0 where
  pub mem : Memory
  pub screen_x : ℕ → ℕ
  pub screen_y : ℕ → ℕ
  pub hw : Hardware

unfoldable pub update_cursor : ℕ → ℕ → Hardware → Hardware
update_cursor x y h =
    let pos = u16 (y * 80 + x) in
    outb (pos / 0x100 % 0x100) 0x3d5
      (outb 0x0e 0x3d4 (outb (pos % 0x100) 0x3d5 (outb 0x0f 0x3d4 h)))

-- `page + ((NUM_COLS * row + col) << 1)`
abbrev pub cell : ℕ → ℕ → ℕ → ℕ
cell page row col = page + 2 * (num_cols * row + col)

-- The inner loop of the scroll, with `left` columns to go.
scroll_cols : ℕ → ℕ → ℕ → ℕ → Memory → Memory
scroll_cols zero col row page m = m
scroll_cols (suc left) col row page m =
    let src = cell page row col in
    let dst = cell page (row - 1) col in
    let char_moved = update m dst (m src) in
    scroll_cols left (col + 1) row page (update char_moved (dst + 1) (char_moved (src + 1)))

-- The outer loop, with `left` rows to go.
scroll_rows : ℕ → ℕ → ℕ → Memory → Memory
scroll_rows zero row page m = m
scroll_rows (suc left) row page m =
    scroll_rows left (row + 1) page (scroll_cols num_cols 0 row page m)

-- `left` blank cells from address `dst` on: the loops of `clear` and of the last line of a scroll.
unfoldable pub blank_cells : ℕ → ℕ → Memory → Memory
blank_cells zero dst m = m
blank_cells (suc left) dst m =
    blank_cells left (dst + 2) (update (update m dst b' ') (dst + 1) attrib)

unfoldable pub scroll : ℕ → Memory → Memory
unfolding scroll_rows scroll_cols blank_cells
scroll page m =
    blank_cells num_cols (cell page (num_rows - 1) 0) (scroll_rows (num_rows - 1) 1 page m)

-- `c == '\n' || c == '\r'`: the cursor is sent before the row is brought back on the screen.
unfoldable pub put_newline : ℕ → ℕ → Bool → Display → Display
unfolding scroll
put_newline page idx shown d =
    let y = u32 (d.screen_y idx + 1) in
    let moved = record d {
      screen_y = update d.screen_y idx y;
      screen_x = update d.screen_x idx 0;
      hw = if shown then update_cursor 0 y d.hw else d.hw;
    } in
    if slt y num_rows then moved else record moved {
      mem = scroll page d.mem;
      screen_y = update moved.screen_y idx (num_rows - 1);
    }

-- Any other character.
unfoldable pub put_glyph : ℕ → ℕ → Bool → ℕ → Display → Display
put_glyph page idx shown c d =
    let at = u32 (cell page (d.screen_y idx) (d.screen_x idx)) in
    let x = srem (u32 (d.screen_x idx + 1)) num_cols in
    let y = u32 (d.screen_y idx + sdiv x num_cols) in
    record d {
      mem = update (update d.mem at c) (u32 (at + 1)) attrib;
      screen_x = update d.screen_x idx x;
      screen_y = update d.screen_y idx y;
      hw = if shown then update_cursor x y d.hw else d.hw;
    }

-- One of the two halves of `putc`: `shown` for the one that prints on the terminal in view.
unfoldable pub put_char : ℕ → ℕ → Bool → ℕ → Display → Display
put_char page idx shown c d =
    if c == b'\n' || c == b'\r' then put_newline page idx shown d else put_glyph page idx shown c d

-- The page and the index that `putc` prints on: the terminal in view has the video memory itself.
unfoldable pub putc_on : ℕ → ℕ → Bool → ℕ → Display → Display
putc_on cur_terminal cur_process_local keyboard_print c d =
    if cur_terminal == cur_process_local || keyboard_print
    then put_char video (cur_terminal - 1) true c d
    else put_char (video + 4096 * cur_process_local) (cur_process_local - 1) false c d

-- The part of `clear` before the prompt: `update_cursor` is called with row and column exchanged, and
-- both are 0.
unfoldable pub clear_screen : ℕ → Display → Display
unfolding blank_cells
clear_screen cur_terminal d =
    let idx = cur_terminal - 1 in
    record d {
      mem = blank_cells (num_rows * num_cols) video d.mem;
      screen_y = update d.screen_y idx 0;
      screen_x = update d.screen_x idx 0;
      hw = update_cursor 0 0 d.hw;
    }

-- `video_mem[i << 1]++` for each cell, with `left` to go.
bump_cells : ℕ → ℕ → Memory → Memory
bump_cells zero at m = m
bump_cells (suc left) at m = bump_cells left (at + 2) (update m at (u8 (m at + 1)))

pub test_interrupts : Display → Display
unfolding bump_cells
test_interrupts d = record d { mem = bump_cells (num_rows * num_cols) video d.mem }
