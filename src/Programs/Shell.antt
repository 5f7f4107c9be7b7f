-- ===== src/Programs/Shell.antt =====
-- syscalls/ece391shell.c
pub mod OneCommand
pub mod Answers
use Prim.Native.String.{String}
use lightweight_operating_sy.Prelude.{
  ℕ, zero, suc, ◌+◌, ◌&&◌, ◌==◌, none, minus_one, slt, u32, sub32, if◌then◌else◌,
}
use lightweight_operating_sy.Support.{ece391_strcmp}
use lightweight_operating_sy.Programs.{System, Program, ◌>>=◌, ◌>>◌, pure, say, load, store, look}

module _ (S : System) (text : String → ℕ) (lib_fuel : ℕ) where
  -- `if (cnt > 0 && '\n' == buf[cnt - 1]) cnt--;`
  unfoldable pub trim : ℕ → ℕ → Program S ℕ
  trim buf cnt = do
    last ← load S (u32 (buf + sub32 cnt 1))
    pure (if slt 0 cnt && (last == b'\n') then sub32 cnt 1 else cnt)

  -- What is said of the status of a command.
  unfoldable pub report : ℕ → Program S ℕ
  report rval =
      if rval == minus_one
      then (do say S lib_fuel text "no such command\n"; pure rval)
      else if rval == 256
      then (do say S lib_fuel text "program terminated by exception\n"; pure rval)
      else if rval == 0
      then pure rval
      else (do say S lib_fuel text "program terminated abnormally\n"; pure rval)

  -- `while (1)`
  unfoldable pub shell_loop : ℕ → ℕ → Program S ℕ
  shell_loop zero buf = λ s. none
  shell_loop (suc fuel) buf =
      let rest = shell_loop fuel buf in
      do
        say S lib_fuel text "391OS> "
        cnt ← S.read 0 buf 1023
        if cnt == minus_one
            then (do say S lib_fuel text "read from keyboard failed\n"; pure 3)
            else (do
              cnt ← trim buf cnt
              store S (u32 (buf + cnt)) 0
              differs ← look S (λ m. ece391_strcmp lib_fuel m buf (text "exit"))
              first ← load S buf
              if differs == 0
                  then pure 0
                  else if first == 0
                  then rest
                  else (do rval ← S.execute buf; _ ← report rval; rest))

  unfoldable pub shell : ℕ → ℕ → Program S ℕ
  unfolding shell_loop
  shell fuel buf = do say S lib_fuel text "Starting 391 Shell\n"; shell_loop fuel buf
