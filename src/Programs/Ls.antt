-- ===== src/Programs/Ls.antt =====
-- syscalls/ece391ls.c
pub mod Names
pub mod Turn
pub mod Printed
use Prim.Native.String.{String}
use lightweight_operating_sy.Prelude.{ℕ, zero, suc, ◌+◌, ◌==◌, none, minus_one, u32, if◌then◌else◌}
use lightweight_operating_sy.Programs.{System, Program, ◌>>=◌, ◌>>◌, pure, say, store}

module _ (S : System) (text : String → ℕ) (strlen_fuel : ℕ) where
  -- `while (0 != (cnt = ece391_read (fd, buf, SBUFSIZE-1)))`
  unfoldable pub ls_loop : ℕ → ℕ → ℕ → Program S ℕ
  ls_loop zero fd buf = λ s. none
  ls_loop (suc fuel) fd buf =
      let rest = ls_loop fuel fd buf in
      do
        cnt ← S.read fd buf 32
        if cnt == 0
            then pure 0
            else if cnt == minus_one
            then (do say S strlen_fuel text "directory entry read failed\n"; pure 3)
            else (do
              store S (u32 (buf + cnt)) b'\n'
              written ← S.write 1 buf (u32 (cnt + 1))
              if written == minus_one then pure 3 else rest)

  unfoldable pub ls : ℕ → ℕ → Program S ℕ
  unfolding ls_loop
  ls fuel buf = do
    fd ← S.opens (text ".")
    if fd == minus_one
        then (do say S strlen_fuel text "directory open failed\n"; pure 2)
        else ls_loop fuel fd buf
