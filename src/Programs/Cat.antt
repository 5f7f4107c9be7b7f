-- ===== src/Programs/Cat.antt =====
-- syscalls/ece391cat.c, with `buf` the address of its array.
pub mod Copying
pub mod FromFile
pub mod ByName
pub mod Printed
use Prim.Native.String.{String}
use lightweight_operating_sy.Prelude.{ℕ, zero, suc, ◌==◌, none, minus_one, if◌then◌else◌}
use lightweight_operating_sy.Programs.{System, Program, ◌>>=◌, ◌>>◌, pure, say}

module _ (S : System) (text : String → ℕ) (strlen_fuel : ℕ) where
  -- `while (0 != (cnt = ece391_read (fd, buf, 1024)))`
  unfoldable pub cat_loop : ℕ → ℕ → ℕ → Program S ℕ
  cat_loop zero fd buf = λ s. none
  cat_loop (suc fuel) fd buf =
      let rest = cat_loop fuel fd buf in
      do
        cnt ← S.read fd buf 1024
        if cnt == 0
            then pure 0
            else if cnt == minus_one
            then (do say S strlen_fuel text "file read failed\n"; pure 3)
            else (do written ← S.write 1 buf cnt; if written == minus_one then pure 3 else rest)

  unfoldable pub cat : ℕ → ℕ → Program S ℕ
  unfolding cat_loop
  cat fuel buf = do
    got ← S.getargs buf 1024
    if got == 0
        then (do
          fd ← S.opens buf
          if fd == minus_one
              then (do say S strlen_fuel text "file not found\n"; pure 2)
              else cat_loop fuel fd buf)
        else (do say S strlen_fuel text "could not read arguments\n"; pure 3)
