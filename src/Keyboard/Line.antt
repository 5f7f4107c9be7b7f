-- ===== src/Keyboard/Line.antt =====
-- The keys of src/keyboard.c that change the line being typed, in the order of the handler.
use lightweight_operating_sy.Prelude.{
  ℕ, zero, suc, ◌+◌, ◌-◌, Bool, true, false, not, ◌&&◌, Option, none, some, update, slt, ltb, ◌==◌,
  if◌then◌else◌, u32, sub32,
}
use lightweight_operating_sy.Kernel.{Kernel, putc, clear}
use lightweight_operating_sy.Terminal.{buffer_size, key_at}
use lightweight_operating_sy.Keyboard.Codes.{char_at, char_of, scan_codes, scan_codes_table}

abbrev max_line : ℕ
max_line = 73

abbrev tab_space : ℕ
tab_space = 4

module _ (k : Kernel) where
  abbrev pub shown : ℕ
  shown = k.keyboard.cur_terminal - 1

  -- `keyboard_index[cur_terminal - 1]`
  abbrev pub key_index : ℕ
  key_index = k.keyboard.index shown

  -- `keyboard_buffer[cur_terminal - 1][i]`
  abbrev pub key : ℕ → ℕ
  key i = k.keyboard.buffer (key_at shown i)

  abbrev pub set_key : ℕ → ℕ → Kernel
  set_key i c = record k {
    keyboard = record k.keyboard { buffer = update k.keyboard.buffer (key_at shown i) c };
  }

  abbrev pub set_index : ℕ → Kernel
  set_index i = record k {
    keyboard = record k.keyboard { index = update k.keyboard.index shown i };
  }

  abbrev set_x : ℕ → Kernel
  set_x x = record k { display = record k.display { screen_x = update k.display.screen_x shown x } }

  abbrev set_y : ℕ → Kernel
  set_y y = record k { display = record k.display { screen_y = update k.display.screen_y shown y } }

-- `f` after a step that may have failed.
abbrev pub and_then : Option Kernel → (Kernel → Option Kernel) → Option Kernel
and_then r f = elim r [ none ↦ none | some k ↦ f k ]

unfoldable pub press_enter : ℕ → Kernel → Option Kernel
press_enter scan_code k =
    if scan_code == 0x1c
    then (let i = key_index k in
        let flagged = record k {
          keyboard = record k.keyboard { enter_flag = update k.keyboard.enter_flag (shown k) true };
        } in
        let ended = set_key (set_index (set_key flagged i b'\n') (u32 (i + 1))) (u32 (i + 1)) 0 in
        and_then (putc b'\n' true ended) (λ k'. some (set_index k' 0)))
    else some k

unfoldable pub break_line : Kernel → Option Kernel
break_line k =
    let i = key_index k in
    if i == max_line && slt (u32 (i + 1)) buffer_size
    then and_then (putc b'\n' true (set_key k i b'\n')) (λ k'. some (
        let next = set_index k' (u32 (key_index k' + 1)) in
        record next { keyboard = record next.keyboard { newline_flag = true } }))
    else some k

-- `for (i = 0; i < BUFFER_SIZE; i++)` with `left` rounds to go
unfoldable pub reset_keys : ℕ → ℕ → Kernel → Kernel
reset_keys zero i k = k
reset_keys (suc left) i k = reset_keys left (i + 1) (set_key k i 0)

unfoldable pub press_clear : ℕ → Kernel → Option Kernel
unfolding reset_keys
press_clear scan_code k =
    if k.keyboard.ctrl_flag && (scan_code == 0x26)
    then clear (set_index (reset_keys buffer_size 0 k) 0)
    else some k

-- One of the four blanks of a tab.
unfoldable pub tab_blank : Kernel → Option Kernel
tab_blank k =
    let i = key_index k in
    if slt (u32 (i + 2)) buffer_size
    then and_then (putc b' ' true (set_key k i b'\t'))
        (λ k'. some (set_index k' (u32 (key_index k' + 1))))
    else some k

unfoldable pub press_tab : ℕ → Kernel → Option Kernel
unfolding tab_blank
press_tab scan_code k =
    if (scan_code == 0x0f)
      && slt (u32 (key_index k + tab_space)) buffer_size
      && slt (u32 (k.display.screen_x (shown k) + tab_space)) max_line
    then and_then (and_then (and_then (tab_blank k) tab_blank) tab_blank) tab_blank
    else some k

-- Taking back one character: the cell is overwritten by the NUL just stored.
unfoldable pub erase_key : Kernel → Option Kernel
erase_key k =
    let i = sub32 (key_index k) 1 in
    let erased = set_key k i 0 in
    let moved = set_x erased (sub32 (k.display.screen_x (shown k)) 1) in
    and_then (putc (key moved i) true moved) (λ k'.
      let back =
        if slt 0 (key_index k') then set_x k' (sub32 (k'.display.screen_x (shown k')) 1) else k' in
      some (set_index back (sub32 (key_index back) 1)))

-- Taking back the line end that `break_line` put in, with the character before it.
unfoldable pub erase_break : Kernel → Option Kernel
erase_break k =
    let i = key_index k in
    let erased = set_key (set_key k (sub32 i 1) 0) (sub32 i 2) 0 in
    let cur_y = sub32 (k.display.screen_y (shown k)) 1 in
    let moved = set_x (set_y erased cur_y) (max_line - 1) in
    and_then (putc (key moved (sub32 i 2)) true moved) (λ k'.
      let back = set_index (set_x (set_y k' cur_y) (max_line - 1)) (sub32 i 2) in
      some (record back { keyboard = record back.keyboard { newline_flag = false } }))

unfoldable pub press_backspace : ℕ → Kernel → Option Kernel
unfolding erase_key erase_break
press_backspace scan_code k =
    let last = key k (sub32 (key_index k) 1) in
    if slt 0 (key_index k) && not (slt (buffer_size - 1) (key_index k)) && (scan_code == 0x0e)
    then if k.keyboard.newline_flag && (last == b'\n')
      then erase_break k
      else if last == b'\t'
      then and_then (and_then (and_then (erase_key k) erase_key) erase_key) erase_key
      else erase_key k
    else some k

-- The test of a printing key, but for the room in the line.
unfoldable pub types_char : Kernel → ℕ → Bool
types_char k scan_code =
    ltb scan_code scan_codes
    && not (char_at scan_codes_table scan_code == 0)
    && not k.keyboard.ctrl_flag
    && not k.keyboard.alt_flag

unfoldable pub press_char : ℕ → Kernel → Option Kernel
unfolding types_char
press_char scan_code k =
    let i = key_index k in
    let typed = set_key k i (char_of k.keyboard scan_code) in
    if types_char k scan_code && slt i (buffer_size - 1)
    then and_then (putc (key typed i) true typed)
        (λ k'. some (set_index k' (u32 (key_index k' + 1))))
    else some k
