-- ===== src/Terminal/Printf.antt =====
-- `printf` of src/lib.c. The further arguments are the words of the stack from `esp` on, and `conv_buf` is
-- where the local buffer of a conversion lies.
use lightweight_operating_sy.Prelude.{
  ℕ, zero, suc, ◌+◌, ◌-◌, Bool, true, false, Option, none, some, Memory, update, load32, slt, ◌==◌,
  if◌then◌else◌, u8, sub32,
}
use lightweight_operating_sy.Str.{strlen, itoa}
use lightweight_operating_sy.Kernel.{Kernel, putc}
use lightweight_operating_sy.FileDriver.{with_memory}
use lightweight_operating_sy.Terminal.{puts}

-- `while (i < 8) { conv_buf[i] = '0'; i++; }`, with `left` rounds to go
unfoldable pub pad_zeros : ℕ → ℕ → Memory → Memory
pad_zeros zero at m = m
pad_zeros (suc left) at m = pad_zeros left (at + 1) (update m at b'0')

-- The alternate form of `%x`: where the string starts, and the memory.
unfoldable pub hex_field : ℕ → ℕ → ℕ → Memory → Option (ℕ × Memory)
unfolding pad_zeros
hex_field fuel conv_buf value m = elim (itoa fuel m value (conv_buf + 8) 16) [
  | none ↦ none
  | some m' ↦ elim (strlen fuel m' (conv_buf + 8)) [
    | none ↦ none
    | some starting_index ↦
        some
          (conv_buf + starting_index, pad_zeros (8 - starting_index) (conv_buf + starting_index) m')
  ]
]

-- `%d`
unfoldable pub signed_field : ℕ → ℕ → ℕ → Memory → Option Memory
signed_field fuel conv_buf value m =
    if slt value 0
    then itoa fuel (update m conv_buf b'-') (sub32 0 value) (conv_buf + 1) 10
    else itoa fuel m value conv_buf 10

-- `puts` after a conversion; the result is `esp` and the state.
abbrev put_field : ℕ → ℕ → Option (ℕ × Memory) → Kernel → Option (ℕ × Kernel)
put_field fuel esp none k = none
put_field fuel esp (some (start, m)) k = elim (puts fuel start 0 (with_memory k m)) [
  | none ↦ none
  | some (_, k') ↦ some (esp + 4, k')
]

abbrev at_start : ℕ → Option Memory → Option (ℕ × Memory)
at_start conv_buf none = none
at_start conv_buf (some m) = some (conv_buf, m)

-- The inner `switch`, at the conversion's character.
unfoldable pub convert : ℕ → ℕ → Bool → ℕ → ℕ → Kernel → Option (ℕ × Kernel)
unfolding hex_field signed_field
convert fuel conv_buf alternate c esp k =
    let m = k.display.mem in
    let value = load32 m esp in
    let plain : Option (ℕ × Kernel) = elim (putc (if c == b'%' then b'%' else u8 value) false k) [
      | none ↦ none
      | some k' ↦ some (if c == b'%' then esp else esp + 4, k')
    ] in
    if c == b'%'
    then plain
    else if c == b'x'
    then put_field fuel esp
        (if alternate
          then hex_field fuel conv_buf value m
          else at_start conv_buf (itoa fuel m value conv_buf 16))
        k
    else if c == b'u'
    then put_field fuel esp (at_start conv_buf (itoa fuel m value conv_buf 10)) k
    else if c == b'd'
    then put_field fuel esp (at_start conv_buf (signed_field fuel conv_buf value m)) k
    else if c == b'c'
    then plain
    else if c == b's'
    then put_field fuel esp (some (value, m)) k
    else some (esp, k)

-- `format_char_switch`: any number of `#`; where the conversion's character is, and whether one was seen.
unfoldable pub alternates : ℕ → Memory → ℕ → Bool → Option (ℕ × Bool)
alternates zero m buf alternate = none
alternates (suc fuel) m buf alternate =
    let rest = alternates fuel m (buf + 1) true in
    if m buf == b'#' then rest else some (buf, alternate)

-- `while (*buf != '\0')`: the result is `buf` at the end, and the state.
unfoldable pub printf_loop : ℕ → ℕ → ℕ → ℕ → Kernel → Option (ℕ × Kernel)
unfolding convert alternates
printf_loop zero conv_buf buf esp k = none
printf_loop (suc fuel) conv_buf buf esp k =
    let c = k.display.mem buf in
    let converted : Option (ℕ × Kernel) = elim (alternates fuel k.display.mem (buf + 1) false) [
      | none ↦ none
      | some (at, alternate) ↦ elim (convert fuel conv_buf alternate (k.display.mem at) esp k) [
        | none ↦ none
        | some (esp', k') ↦ printf_loop fuel conv_buf (at + 1) esp' k'
      ]
    ] in
    let literal : Option (ℕ × Kernel) = elim (putc c false k) [
      | none ↦ none
      | some k' ↦ printf_loop fuel conv_buf (buf + 1) esp k'
    ] in
    if c == 0 then some (buf, k) else if c == b'%' then converted else literal

-- `printf(format, ...)`: the length, and the state.
unfoldable pub printf : ℕ → ℕ → ℕ → ℕ → Kernel → Option (ℕ × Kernel)
unfolding printf_loop
printf fuel conv_buf format esp k = elim (printf_loop fuel conv_buf format esp k) [
  | none ↦ none
  | some (buf, k') ↦ some (sub32 buf format, k')
]
