-- ===== src/Keyboard/Codes.antt =====
-- The tables of scan codes of src/keyboard.c and the modifier keys.
use lightweight_operating_sy.Prelude.{
  ℕ, zero, suc, true, false, not, ◌&&◌, ◌||◌, List, [], ◌∷◌, ◌==◌, if◌then◌else◌,
}
use lightweight_operating_sy.Kernel.{Keyboard}

abbrev pub scan_codes : ℕ
scan_codes = 58

-- Entry `i` of a table of characters, 0 for NULL.
unfoldable pub char_at : List ℕ → ℕ → ℕ
char_at [] i = 0
char_at (c ∷ cs) zero = c
char_at (c ∷ cs) (suc i) = char_at cs i

abbrev pub scan_codes_table : List ℕ
scan_codes_table =
    0 ∷ 0 ∷ b'1' ∷ b'2' ∷ b'3' ∷ b'4' ∷ b'5' ∷ b'6' ∷ b'7' ∷ b'8' ∷ b'9' ∷ b'0' ∷ b'-' ∷ b'=' ∷ 0
    ∷ 0 ∷ b'q' ∷ b'w' ∷ b'e' ∷ b'r' ∷ b't' ∷ b'y' ∷ b'u' ∷ b'i' ∷ b'o' ∷ b'p' ∷ b'[' ∷ b']' ∷ 0 ∷ 0
    ∷ b'a' ∷ b's' ∷ b'd' ∷ b'f' ∷ b'g' ∷ b'h' ∷ b'j' ∷ b'k' ∷ b'l' ∷ b';' ∷ 0x27 ∷ b'`' ∷ 0 ∷ 0x5c
    ∷ b'z' ∷ b'x' ∷ b'c' ∷ b'v' ∷ b'b' ∷ b'n' ∷ b'm' ∷ b',' ∷ b'.' ∷ b'/' ∷ 0 ∷ 0 ∷ 0 ∷ b' ' ∷ []

abbrev pub scan_codes_table_shift : List ℕ
scan_codes_table_shift =
    0 ∷ 0 ∷ b'!' ∷ b'@' ∷ b'#' ∷ b'$' ∷ b'%' ∷ b'^' ∷ b'&' ∷ b'*' ∷ b'(' ∷ b')' ∷ b'_' ∷ b'+' ∷ 0
    ∷ 0 ∷ b'Q' ∷ b'W' ∷ b'E' ∷ b'R' ∷ b'T' ∷ b'Y' ∷ b'U' ∷ b'I' ∷ b'O' ∷ b'P' ∷ b'{' ∷ b'}' ∷ 0 ∷ 0
    ∷ b'A' ∷ b'S' ∷ b'D' ∷ b'F' ∷ b'G' ∷ b'H' ∷ b'J' ∷ b'K' ∷ b'L' ∷ b':' ∷ 0x22 ∷ b'~' ∷ 0 ∷ b'|'
    ∷ b'Z' ∷ b'X' ∷ b'C' ∷ b'V' ∷ b'B' ∷ b'N' ∷ b'M' ∷ b'<' ∷ b'>' ∷ b'?' ∷ 0 ∷ 0 ∷ 0 ∷ b' ' ∷ []

abbrev pub scan_codes_table_caps : List ℕ
scan_codes_table_caps =
    0 ∷ 0 ∷ b'1' ∷ b'2' ∷ b'3' ∷ b'4' ∷ b'5' ∷ b'6' ∷ b'7' ∷ b'8' ∷ b'9' ∷ b'0' ∷ b'-' ∷ b'=' ∷ 0
    ∷ 0 ∷ b'Q' ∷ b'W' ∷ b'E' ∷ b'R' ∷ b'T' ∷ b'Y' ∷ b'U' ∷ b'I' ∷ b'O' ∷ b'P' ∷ b'[' ∷ b']' ∷ 0 ∷ 0
    ∷ b'A' ∷ b'S' ∷ b'D' ∷ b'F' ∷ b'G' ∷ b'H' ∷ b'J' ∷ b'K' ∷ b'L' ∷ b';' ∷ 0x27 ∷ b'`' ∷ 0 ∷ 0x5c
    ∷ b'Z' ∷ b'X' ∷ b'C' ∷ b'V' ∷ b'B' ∷ b'N' ∷ b'M' ∷ b',' ∷ b'.' ∷ b'/' ∷ 0 ∷ 0 ∷ 0 ∷ b' ' ∷ []

-- The shift, caps lock, control and alt keys, pressed and released.
unfoldable pub modifiers : ℕ → Keyboard → Keyboard
modifiers scan_code b = record b {
  shift_flag =
      if scan_code == 0x2a || scan_code == 0x36
      then true
      else if scan_code == 0xaa || scan_code == 0xb6
      then false
      else b.shift_flag;
  caps_lock_flag = if scan_code == 0x3a then not b.caps_lock_flag else b.caps_lock_flag;
  ctrl_flag = if scan_code == 0x1d then true else if scan_code == 0x9d then false else b.ctrl_flag;
  alt_flag = if scan_code == 0x38 then true else if scan_code == 0xb8 then false else b.alt_flag;
}

-- The character of a scan code under the modifiers.
unfoldable pub char_of : Keyboard → ℕ → ℕ
char_of b scan_code =
    if b.shift_flag && not b.caps_lock_flag
    then char_at scan_codes_table_shift scan_code
    else if b.caps_lock_flag && not b.shift_flag
    then char_at scan_codes_table_caps scan_code
    else char_at scan_codes_table scan_code
