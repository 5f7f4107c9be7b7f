-- ===== src/Programs/Greet.antt =====
-- syscalls/ece391hello.c and syscalls/ece391testprint.c
use Prim.Native.String.{String}
use lightweight_operating_sy.Prelude.{ℕ, ◌+◌, ◌==◌, minus_one, u32, if◌then◌else◌}
use lightweight_operating_sy.Programs.{
  System, Program, ◌>>=◌, ◌>>◌, pure, say, ece391_fdputs, store,
}

module _ (S : System) (text : String → ℕ) (lib_fuel : ℕ) where
  unfoldable pub hello : ℕ → Program S ℕ
  hello buf = do
    say S lib_fuel text "Hi, what's your name? "
    cnt ← S.read 0 buf 1023
    if cnt == minus_one
        then (do say S lib_fuel text "Can't read name from keyboard.\n"; pure 3)
        else (do
          store S (u32 (buf + cnt)) 0
          say S lib_fuel text "Hello, "
          ece391_fdputs S lib_fuel 1 buf
          pure 0)

  unfoldable pub testprint : Program S ℕ
  testprint = do say S lib_fuel text "Hello, if this ran, the program was correct. Yay!\n"; pure 0
