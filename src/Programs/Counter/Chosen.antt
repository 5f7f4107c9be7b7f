-- ===== src/Programs/Counter/Chosen.antt =====
-- What syscalls/ece391counter.c does with the line that is typed.
use Prim.Native.String.{String}
use lightweight_operating_sy.Prelude.{
  ℕ, ◌+◌, ◌<◌, ◌≤◌, ◌≡◌, ◌⊎◌, ◌==◌, ◌||◌, ◌&&◌, ltb, update, Bool,
}
use lightweight_operating_sy.Programs.Counter.Counting.{IsLaidOut}
use lightweight_operating_sy.Programs.OnKernel.{Session}
use lightweight_operating_sy.Programs.Printing.{IsPrinting}
use lightweight_operating_sy.Str.Length.{IsCString}

-- A line of `n` characters, the first of them `c`, that `counter` calls a wrong choice.
pub Wrong : ℕ → ℕ → Type 0
Wrong n c = (2 < n) ⊎ ((n ≡ 2) × ((c < b'0') ⊎ (b'2' < c)))

abbrev refuses : ℕ → ℕ → Bool
refuses n c = ltb 2 n || ((n == 2) && (ltb c b'0' || ltb b'2' c))

-- The line of `n` characters has been read into the array, of 1024 bytes below 4 GB, as `cnt` bytes; the
-- process prints on its terminal, and the text of the line end lies as `IsLaidOut` states.
pub record IsTyped (text : String → ℕ) (own buf n cnt : ℕ) (s : Session) : Type 0 where
  pub count : cnt ≤ 1023
  pub room : buf + 1024 < 0x1_0000_0000
  pub line : IsCString (update s.kernel.display.mem (buf + cnt) 0) buf n
  pub printing : IsPrinting s.kernel own
  pub laid_out : IsLaidOut text buf s.kernel.display.mem
