-- ===== src/Terminal.antt =====
-- The terminal driver of src/keyboard.c: `terminal_read`, `terminal_write`, `terminal_open` and
-- `terminal_close`, and `puts` of src/lib.c. A read that waits for Enter is in two parts: what is done
-- before the wait and what is done when the flag is seen set.
pub mod Showing
pub mod Writing
pub mod Keeping
pub mod ReadingLines
pub mod Printf
pub mod HexField
pub mod PlainText
use lightweight_operating_sy.Prelude.{
  ℕ, zero, suc, ◌+◌, ◌-◌, ◌*◌, false, ◌||◌, Option, none, some, Memory, update, slt, ◌==◌,
  if◌then◌else◌, u32, sub32, minus_one,
}
use lightweight_operating_sy.Hardware.{cli, sti}
use lightweight_operating_sy.Kernel.{Kernel, putc}

abbrev pub buffer_size : ℕ
buffer_size = 127

-- `&keyboard_buffer[t][i]` as an offset; `i` is the pattern of an int.
abbrev pub key_at : ℕ → ℕ → ℕ
key_at t i = u32 (buffer_size * t + i)

-- The loop of `terminal_write` at byte `i`, with `left` bytes to go: a tab is printed as a space.
unfoldable pub write_loop : ℕ → ℕ → ℕ → Kernel → Option Kernel
write_loop zero i input k = some k
write_loop (suc left) i input k =
    let c = k.display.mem (input + i) in
    elim (putc (if c == b'\t' then b' ' else c) false k) [
      | none ↦ none
      | some k' ↦ write_loop left (i + 1) input k'
    ]

abbrev pub set_cli : Kernel → Kernel
set_cli k = record k { display = record k.display { hw = cli k.display.hw } }

abbrev pub set_sti : Kernel → Kernel
set_sti k = record k { display = record k.display { hw = sti k.display.hw } }

-- The result is the return value and the state; `bytes` is signed, and no byte is written for a
-- negative one.
unfoldable pub terminal_write : ℕ → ℕ → Kernel → Option (ℕ × Kernel)
terminal_write buffer bytes k =
    if buffer == 0 || bytes == 0
    then some (minus_one, set_cli k)
    else let count = if slt bytes 0 then 0 else bytes in
      elim (write_loop count 0 buffer (set_cli k)) [
        | none ↦ none
        | some k' ↦ some (count, set_sti k')
      ]

-- Up to the wait: 0 bytes return at once, and else the flag of the running terminal is reset.
unfoldable pub terminal_read_start : ℕ → Kernel → Option ℕ × Kernel
terminal_read_start bytes k = if bytes == 0 then (some 0, k) else (
  none,
  record k {
    keyboard = record k.keyboard {
      enter_flag = update k.keyboard.enter_flag (k.processes.cur_process - 1) false;
    };
  },
)

-- `while (!end_flag && output_index < bytes)`, with `left` bytes of room
unfoldable pub read_keys : ℕ → ℕ → ℕ → Memory → ℕ → Memory → ℕ × Memory
read_keys zero i t keys output m = (i, m)
read_keys (suc left) i t keys output m =
    let c = keys (key_at t i) in
    let rest = read_keys left (i + 1) t keys output (update m (output + i) c) in
    if c == 0 then (i + 1, update m (output + i) c) else rest

-- After the wait, once `enter_flag[cur_process - 1]` is set. `keyboard_buffer[t][127]` is one past the
-- row.
unfoldable pub terminal_read_finish : ℕ → ℕ → Kernel → ℕ × Kernel
terminal_read_finish buffer bytes k =
    let t = k.keyboard.cur_terminal - 1 in
    let keys = k.keyboard.buffer in
    let room = if slt bytes 0 then 0 else bytes in
    let (output_index, m) = read_keys room 0 t keys buffer k.display.mem in
    let stored = record k { display = record k.display { mem = m } } in
    if keys (key_at t 127) == b'\n'
    then (
      u32 output_index,
      record stored { keyboard = record k.keyboard { buffer = update keys (key_at t 127) 0 } },
    )
    else (sub32 output_index 1, stored)

abbrev pub terminal_open : ℕ
terminal_open = 0

abbrev pub terminal_close : ℕ
terminal_close = 0

-- `puts`: the characters up to the NUL; `none` if the fuel ran out.
unfoldable pub puts : ℕ → ℕ → ℕ → Kernel → Option (ℕ × Kernel)
puts zero s index k = none
puts (suc fuel) s index k =
    let c = k.display.mem (s + index) in
    let rest : Option (ℕ × Kernel) = elim (putc c false k) [
      | none ↦ none
      | some k' ↦ puts fuel s (index + 1) k'
    ] in
    if c == 0 then some (index, k) else rest
