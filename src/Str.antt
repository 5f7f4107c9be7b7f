-- ===== src/Str.antt =====
-- The string routines of src/lib.c. A string is an address in byte memory, as a C pointer is.
-- A loop with no bound of its own takes fuel, and `none` means that the fuel ran out.
pub mod Length
pub mod Compare
pub mod Reverse
pub mod Digits
use lightweight_operating_sy.Prelude.{
  ℕ, zero, suc, ◌+◌, ◌-◌, ◌*◌, ◌/◌, ◌%◌, Bool, ◌||◌, not, Option, none, some, Memory, update, ltb,
  ◌==◌, if◌then◌else◌, u32, sub32,
}

-- `while (s[len] != '\0') len++;`
unfoldable pub strlen_loop : ℕ → Memory → ℕ → ℕ → Option ℕ
strlen_loop zero m s len = none
strlen_loop (suc fuel) m s len =
    let rest = strlen_loop fuel m s (len + 1) in if m (s + len) == 0 then some len else rest

unfoldable pub strlen : ℕ → Memory → ℕ → Option ℕ
unfolding strlen_loop
strlen fuel m s = strlen_loop fuel m s 0

-- An `int8_t`, which is a signed `char`, promoted to a 32-bit pattern.
abbrev pub promote : ℕ → ℕ
promote c = if ltb c 0x80 then c else c + 0xffff_ff00

-- The loop of `strncmp` at the two current characters, with `n - i` rounds left.
unfoldable pub strncmp : Memory → ℕ → ℕ → ℕ → ℕ
strncmp m s1 s2 zero = 0
strncmp m s1 s2 (suc left) =
    let rest = strncmp m (s1 + 1) (s2 + 1) left in
    if not (m s1 == m s2) || (m s1 == 0) then sub32 (promote (m s1)) (promote (m s2)) else rest

-- `while (src[i] != '\0') { dest[i] = src[i]; i++; }  dest[i] = '\0';`
strcpy_loop : ℕ → Memory → ℕ → ℕ → ℕ → Option Memory
strcpy_loop zero m dest src i = none
strcpy_loop (suc fuel) m dest src i =
    let rest = strcpy_loop fuel (update m (dest + i) (m (src + i))) dest src (i + 1) in
    if m (src + i) == 0 then some (update m (dest + i) 0) else rest

unfoldable pub strcpy : ℕ → Memory → ℕ → ℕ → Option Memory
unfolding strcpy_loop
strcpy fuel m dest src = strcpy_loop fuel m dest src 0

-- `while (i < n) { dest[i] = '\0'; i++; }` with `n - i` rounds left
strncpy_pad : ℕ → Memory → ℕ → ℕ → Memory
strncpy_pad zero m dest i = m
strncpy_pad (suc left) m dest i = strncpy_pad left (update m (dest + i) 0) dest (i + 1)

-- The first loop, `while (src[i] != '\0' && i < n)`, with `n - i` rounds left; then the padding.
strncpy_loop : ℕ → Memory → ℕ → ℕ → ℕ → Memory
strncpy_loop zero m dest src i = m
strncpy_loop (suc left) m dest src i =
    let rest = strncpy_loop left (update m (dest + i) (m (src + i))) dest src (i + 1) in
    if m (src + i) == 0 then strncpy_pad (suc left) m dest i else rest

pub strncpy : Memory → ℕ → ℕ → ℕ → Memory
strncpy m dest src n = strncpy_loop n m dest src 0

-- `while (beg < end) { swap s[beg], s[end]; beg++; end--; }`. Each round narrows `end - beg`, and
-- `end` is decremented only when it is above `beg`.
unfoldable pub strrev_loop : ℕ → Memory → ℕ → ℕ → ℕ → Memory
strrev_loop zero m s beg end = m
strrev_loop (suc fuel) m s beg end =
    let swapped = update (update m (s + end) (m (s + beg))) (s + beg) (m (s + end)) in
    let rest = strrev_loop fuel swapped s (beg + 1) (end - 1) in if ltb beg end then rest else m

-- `strlen(s) - 1` is -1 for the empty string and the loop does not run; neither does it from 0.
unfoldable pub strrev : ℕ → Memory → ℕ → Option Memory
unfolding strlen strrev_loop
strrev fuel m s = elim (strlen fuel m s) [
  | none ↦ none
  | some len ↦ some (strrev_loop len m s 0 (len - 1))
]

-- `lookup[i]` for `i` below 36.
unfoldable pub lookup : ℕ → ℕ
lookup i = if ltb i 10 then b'0' + i else b'A' + (i - 10)

-- `while (newval > 0)`: the digits from the lowest up, then the terminating NUL.
unfoldable pub itoa_loop : ℕ → Memory → ℕ → ℕ → ℕ → Option Memory
itoa_loop zero m newbuf newval radix = none
itoa_loop (suc fuel) m newbuf newval radix =
    let rest =
      itoa_loop fuel (update m newbuf (lookup (newval % radix))) (newbuf + 1) (newval / radix)
        radix in
    if newval == 0 then some (update m newbuf 0) else rest

unfoldable pub itoa : ℕ → Memory → ℕ → ℕ → ℕ → Option Memory
unfolding itoa_loop lookup
itoa fuel m value buf radix =
    if value == 0
    then some (update (update m buf b'0') (buf + 1) 0)
    else elim (itoa_loop fuel m buf value radix) [ none ↦ none | some m' ↦ strrev fuel m' buf ]
