-- ===== src/Support.antt =====
-- The user programs' library, syscalls/ece391support.c, in the program's own memory. A loop with no bound
-- of its own takes fuel, and `none` means that the fuel ran out.
pub mod Compare
pub mod Numbers
use lightweight_operating_sy.Prelude.{
  ℕ, zero, suc, ◌+◌, ◌-◌, ◌/◌, ◌%◌, ◌||◌, Option, none, some, Memory, update, ltb, ◌==◌,
  if◌then◌else◌, sub32,
}

-- `for (len = 0; '\0' != *s; s++, len++);`
unfoldable pub ece391_strlen_loop : ℕ → Memory → ℕ → ℕ → Option ℕ
ece391_strlen_loop zero m s len = none
ece391_strlen_loop (suc fuel) m s len =
    let rest = ece391_strlen_loop fuel m (s + 1) (len + 1) in if m s == 0 then some len else rest

unfoldable pub ece391_strlen : ℕ → Memory → ℕ → Option ℕ
unfolding ece391_strlen_loop
ece391_strlen fuel m s = ece391_strlen_loop fuel m s 0

-- `while ('\0' != (*dst++ = *src++));`
unfoldable pub ece391_strcpy : ℕ → Memory → ℕ → ℕ → Option Memory
ece391_strcpy zero m dst src = none
ece391_strcpy (suc fuel) m dst src =
    let copied = update m dst (m src) in
    let rest = ece391_strcpy fuel copied (dst + 1) (src + 1) in
    if m src == 0 then some copied else rest

unfoldable pub ece391_strcmp : ℕ → Memory → ℕ → ℕ → Option ℕ
ece391_strcmp zero m s1 s2 = none
ece391_strcmp (suc fuel) m s1 s2 =
    let rest = ece391_strcmp fuel m (s1 + 1) (s2 + 1) in
    if m s1 == m s2 then if m s1 == 0 then some 0 else rest else some (sub32 (m s1) (m s2))

-- The loop of `strncmp` with `n` characters to go, `n` above 0.
unfoldable pub ece391_strncmp_loop : ℕ → Memory → ℕ → ℕ → ℕ
ece391_strncmp_loop zero m s1 s2 = 0
ece391_strncmp_loop (suc n) m s1 s2 =
    let rest = ece391_strncmp_loop n m (s1 + 1) (s2 + 1) in
    if m s1 == m s2 then if m s1 == 0 || n == 0 then 0 else rest else sub32 (m s1) (m s2)

unfoldable pub ece391_strncmp : Memory → ℕ → ℕ → ℕ → ℕ
unfolding ece391_strncmp_loop
ece391_strncmp m s1 s2 n = if n == 0 then 0 else ece391_strncmp_loop n m s1 s2

-- `while (beg < end)`
unfoldable pub ece391_strrev_loop : ℕ → Memory → ℕ → ℕ → ℕ → Memory
ece391_strrev_loop zero m s beg end = m
ece391_strrev_loop (suc fuel) m s beg end =
    let swapped = update (update m (s + end) (m (s + beg))) (s + beg) (m (s + end)) in
    let rest = ece391_strrev_loop fuel swapped s (beg + 1) (end - 1) in
    if ltb beg end then rest else m

-- `end` is the length less 1; for -1 and 0 the function returns at once.
unfoldable pub ece391_strrev : ℕ → Memory → ℕ → Option Memory
unfolding ece391_strlen ece391_strrev_loop
ece391_strrev fuel m s = elim (ece391_strlen fuel m s) [
  | none ↦ none
  | some len ↦ some (if ltb len 2 then m else ece391_strrev_loop len m s 0 (len - 1))
]

-- `lookup[i]` for `i` below 36.
unfoldable pub ece391_lookup : ℕ → ℕ
ece391_lookup i = if ltb i 10 then b'0' + i else b'A' + (i - 10)

-- `while (newval > 0)`, and the terminating NUL.
unfoldable pub ece391_itoa_loop : ℕ → Memory → ℕ → ℕ → ℕ → Option Memory
unfolding ece391_lookup
ece391_itoa_loop zero m newbuf newval radix = none
ece391_itoa_loop (suc fuel) m newbuf newval radix =
    let digit = ece391_lookup (newval % radix) in
    let rest = ece391_itoa_loop fuel (update m newbuf digit) (newbuf + 1) (newval / radix) radix in
    if newval == 0 then some (update m newbuf 0) else rest

unfoldable pub ece391_itoa : ℕ → Memory → ℕ → ℕ → ℕ → Option Memory
unfolding ece391_itoa_loop ece391_strrev
ece391_itoa fuel m value buf radix =
    if value == 0
    then some (update (update m buf b'0') (buf + 1) 0)
    else elim (ece391_itoa_loop fuel m buf value radix) [
      | none ↦ none
      | some m' ↦ ece391_strrev fuel m' buf
    ]
