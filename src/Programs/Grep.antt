-- ===== src/Programs/Grep.antt =====
-- syscalls/ece391grep.c. The array `data` of `do_one_file` lies at `array`.
pub mod Searching
pub mod Lines
use Prim.Native.String.{String}
use lightweight_operating_sy.Prelude.{
  ℕ, zero, suc, ◌+◌, ◌&&◌, ◌==◌, not, Option, none, some, Memory, minus_one, slt, u32, sub32,
  if◌then◌else◌,
}
use lightweight_operating_sy.Str.{promote}
use lightweight_operating_sy.Support.{ece391_strlen, ece391_strcpy, ece391_strncmp}
use lightweight_operating_sy.Programs.{
  System, Program, ◌>>=◌, ◌>>◌, pure, say, ece391_fdputs, load, store, look, change,
}

-- `while (line_end < last && '\n' != data[line_end]) line_end++;`
unfoldable pub find_end : ℕ → ℕ → ℕ → ℕ → Memory → Option ℕ
find_end zero array last line_end m = none
find_end (suc fuel) array last line_end m =
    let rest = find_end fuel array last (u32 (line_end + 1)) m in
    if slt line_end last && not (m (u32 (array + line_end)) == b'\n') then rest else some line_end

module _ (S : System) (text : String → ℕ) (lib_fuel : ℕ) where
  -- What is printed of a line with a match.
  unfoldable pub print_line : ℕ → ℕ → Program S (Unit {0})
  print_line fname line = do
    ece391_fdputs S lib_fuel 1 fname
    say S lib_fuel text ":"
    ece391_fdputs S lib_fuel 1 line
    say S lib_fuel text "\n"

  -- `for (check = line_start; check < line_end; check++)`: `s[0]` is a signed `char`, `data[check]` is not.
  unfoldable pub search_line : ℕ → ℕ → ℕ → ℕ → ℕ → ℕ → ℕ → ℕ → Program S (Unit {0})
  search_line zero s s_len fname array line_start line_end check = λ _. none
  search_line (suc fuel) s s_len fname array line_start line_end check =
      let rest = search_line fuel s s_len fname array line_start line_end (u32 (check + 1)) in
      let here = u32 (array + check) in
      if slt check line_end
      then (do
        first ← load S s
        c ← load S here
        differs ← look S (λ m. some (ece391_strncmp m here s s_len))
        if (promote first == c) && (differs == 0)
            then print_line fname (u32 (array + line_start))
            else rest)
      else pure tt

  -- The loop over the lines of the array: the new `last`.
  unfoldable pub lines : ℕ → ℕ → ℕ → ℕ → ℕ → ℕ → ℕ → ℕ → Program S ℕ
  lines zero s s_len fname array cnt last line_start = λ _. none
  lines (suc fuel) s s_len fname array cnt last line_start =
      let rest = lines fuel s s_len fname array cnt last in
      do
        line_end ← look S (find_end lib_fuel array last line_start)
        c ← load S (u32 (array + line_end))
        if not (c == b'\n') && (not (cnt == 0) && not (line_start == 0))
            then (do
              store S (u32 (array + line_end)) 0
              change S (λ m. ece391_strcpy lib_fuel m array (u32 (array + line_start)))
              pure (sub32 last line_start))
            else (do
              store S (u32 (array + line_end)) 0
              search_line lib_fuel s s_len fname array line_start line_end line_start
              if slt (u32 (line_end + 1)) last then rest (u32 (line_end + 1)) else pure 0)

  -- The loop of reads: 0, or -1 for a read that failed.
  unfoldable pub read_lines : ℕ → ℕ → ℕ → ℕ → ℕ → ℕ → ℕ → Program S ℕ
  unfolding lines
  read_lines zero fd s s_len fname array last = λ _. none
  read_lines (suc fuel) fd s s_len fname array last =
      let rest = read_lines fuel fd s s_len fname array in
      do
        cnt ← S.read fd (u32 (array + last)) (sub32 1024 last)
        if cnt == minus_one
            then (do say S lib_fuel text "file read failed\n"; pure minus_one)
            else (do
              last ← lines lib_fuel s s_len fname array cnt (u32 (last + cnt)) 0
              if cnt == 0 then pure 0 else rest last)

  unfoldable pub do_one_file : ℕ → ℕ → ℕ → ℕ → Program S ℕ
  unfolding read_lines
  do_one_file fuel s fname array = do
    s_len ← look S (λ m. ece391_strlen lib_fuel m s)
    fd ← S.opens fname
    if fd == minus_one then (do say S lib_fuel text "file open failed\n"; pure minus_one) else (do
      failed ← read_lines fuel fd s s_len fname array 0
      if failed == minus_one then pure minus_one else (do
        closed ← S.close fd
        if closed == minus_one
            then (do say S lib_fuel text "file close failed\n"; pure minus_one)
            else pure 0))

  -- `while (0 != (cnt = ece391_read (fd, buf, SBUFSIZE-1)))`
  unfoldable pub grep_loop : ℕ → ℕ → ℕ → ℕ → ℕ → Program S ℕ
  grep_loop zero fd buf search array = λ _. none
  grep_loop (suc fuel) fd buf search array =
      let rest = grep_loop fuel fd buf search array in
      do
        cnt ← S.read fd buf 32
        first ← load S buf
        if cnt == 0
            then pure 0
            else if cnt == minus_one
            then (do say S lib_fuel text "directory entry read failed\n"; pure 3)
            else if first == b'.'
            then rest
            else (do
              store S (u32 (buf + cnt)) 0
              failed ← do_one_file lib_fuel search buf array
              if failed == 0 then rest else pure 3)

  unfoldable pub grep : ℕ → ℕ → ℕ → ℕ → Program S ℕ
  unfolding grep_loop
  grep fuel buf search array = do
    got ← S.getargs search 1024
    if got == 0
        then (do
          fd ← S.opens (text ".")
          if fd == minus_one
              then (do say S lib_fuel text "directory open failed\n"; pure 2)
              else grep_loop fuel fd buf search array)
        else (do say S lib_fuel text "could not read argument\n"; pure 3)
