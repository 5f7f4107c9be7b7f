-- ===== src/Programs/PingPong.antt =====
-- syscalls/ece391pingpong.c: `buf` is the address of the 81 bytes of the frame, and `ret_val` and
-- `garbage` those of the two variables that are passed to the clock.
use Prim.Native.String.{String}
use lightweight_operating_sy.Prelude.{ℕ, zero, suc, ◌+◌, ◌-◌, ◌==◌, u8, if◌then◌else◌}
use lightweight_operating_sy.Programs.{
  System, Program, ◌>>=◌, ◌>>◌, pure, ece391_fdputs, store, store_word,
}

abbrev pub screen_width : ℕ
screen_width = 79

abbrev pub buf_max : ℕ
buf_max = screen_width + 2

abbrev pub start_loop : ℕ
start_loop = 2

abbrev pub loop_max : ℕ
loop_max = 78

-- The character after `c`.
unfoldable pub next_char : ℕ → ℕ
next_char c = if c == b'Z' then b'A' else u8 (c + 1)

module _ (S : System) where
  -- `for (..; i++) buf[i] = ' ';` with `left` bytes to go.
  unfoldable pub clear_cells : ℕ → ℕ → ℕ → Program S (Unit {0})
  clear_cells zero i buf = pure tt
  clear_cells (suc left) i buf = do store S (buf + i) b' '; clear_cells left (i + 1) buf

  unfoldable pub walls : ℕ → Program S (Unit {0})
  unfolding clear_cells
  walls buf = do
    clear_cells buf_max 0 buf
    store S (buf + (buf_max - 1)) 0
    store S (buf + (buf_max - 2)) b'\n'
    store S (buf + (buf_max - 3)) b'|'
    store S (buf + 1) b'|'

  -- The character at column `j`, and a tick of the clock.
  unfoldable pub frame : ℕ → ℕ → ℕ → ℕ → ℕ → ℕ → Program S (Unit {0})
  unfolding clear_cells
  frame lib_fuel rtc_fd buf garbage c j = do
    clear_cells (loop_max - start_loop) start_loop buf
    store S (buf + j) c
    ece391_fdputs S lib_fuel 1 buf
    _ ← S.read rtc_fd garbage 4
    pure tt

  -- `for(j = STARTLOOP; j < LOOPMAX; j++)` with `left` columns to go.
  unfoldable pub move_out : ℕ → ℕ → ℕ → ℕ → ℕ → ℕ → ℕ → Program S (Unit {0})
  unfolding frame
  move_out zero lib_fuel rtc_fd buf garbage c j = pure tt
  move_out (suc left) lib_fuel rtc_fd buf garbage c j = do
    frame lib_fuel rtc_fd buf garbage c j
    move_out left lib_fuel rtc_fd buf garbage c (j + 1)

  -- `for(j = LOOPMAX - 1; j >= STARTLOOP; j--)`: the last `left` columns from `start_loop` on.
  unfoldable pub bounce_back : ℕ → ℕ → ℕ → ℕ → ℕ → ℕ → Program S (Unit {0})
  unfolding frame
  bounce_back zero lib_fuel rtc_fd buf garbage c = pure tt
  bounce_back (suc left) lib_fuel rtc_fd buf garbage c = do
    frame lib_fuel rtc_fd buf garbage c (start_loop + left)
    bounce_back left lib_fuel rtc_fd buf garbage c

  -- `while(1)`, up to the start of round `rounds`: the character that it has.
  unfoldable pub bounce : ℕ → ℕ → ℕ → ℕ → ℕ → ℕ → Program S ℕ
  unfolding move_out bounce_back
  bounce zero lib_fuel rtc_fd buf garbage c = pure c
  bounce (suc rounds) lib_fuel rtc_fd buf garbage c = do
    move_out (loop_max - start_loop) lib_fuel rtc_fd buf garbage c start_loop
    bounce_back (loop_max - start_loop) lib_fuel rtc_fd buf garbage c
    bounce rounds lib_fuel rtc_fd buf garbage (next_char c)

  unfoldable pub pingpong : (String → ℕ) → ℕ → ℕ → ℕ → ℕ → ℕ → Program S ℕ
  unfolding walls bounce
  pingpong text rounds lib_fuel buf ret_val garbage = do
    walls buf
    rtc_fd ← S.opens (text "rtc")
    store_word S ret_val 32
    r ← S.write rtc_fd ret_val 4
    store_word S ret_val r
    bounce rounds lib_fuel rtc_fd buf garbage b'A'
