-- ===== src/Programs/Counter.antt =====
-- syscalls/ece391counter.c
pub mod Counting
pub mod Chosen
use Prim.Native.String.{String}
use lightweight_operating_sy.Prelude.{
  ℕ, zero, suc, ◌+◌, ◌&&◌, ◌||◌, ◌==◌, ltb, minus_one, u32, if◌then◌else◌,
}
use lightweight_operating_sy.Support.{ece391_strlen, ece391_itoa}
use lightweight_operating_sy.Programs.{
  System, Program, ◌>>=◌, ◌>>◌, pure, say, ece391_fdputs, load, store, look, change,
}

-- `switch (buf[0])`
unfoldable pub max_of : ℕ → ℕ
max_of c = if c == b'0' then 100 else if c == b'1' then 10000 else if c == b'2' then 100000 else 0

module _ (S : System) (text : String → ℕ) (lib_fuel : ℕ) where
  -- `for (i = 0; i < max; i++)` with `left` numbers to go.
  unfoldable pub count_loop : ℕ → ℕ → ℕ → Program S ℕ
  count_loop zero i buf = pure 0
  count_loop (suc left) i buf = do
    change S (λ m. ece391_itoa lib_fuel m (i + 1) buf 10)
    ece391_fdputs S lib_fuel 1 buf
    say S lib_fuel text "\n"
    count_loop left (i + 1) buf

  unfoldable pub counter : ℕ → Program S ℕ
  unfolding count_loop
  counter buf = do
    say S lib_fuel text "Enter the Test Number: (0): 100, (1): 10000, (2): 100000\n"
    cnt ← S.read 0 buf 1023
    if cnt == minus_one
        then (do say S lib_fuel text "Can't read the number from keyboard.\n"; pure 3)
        else (do
          store S (u32 (buf + cnt)) 0
          len ← look S (λ m. ece391_strlen lib_fuel m buf)
          c ← load S buf
          if ltb 2 len || ((len == 2) && (ltb c b'0' || ltb b'2' c))
              then (do say S lib_fuel text "Wrong Choice!\n"; pure 0)
              else count_loop (max_of c) 0 buf)
