-- ===== src/Programs.antt =====
-- What the user programs of syscalls/ are written against: the system calls of
-- syscalls/ece391syscall.h over an unknown state, and the actions that a program makes of them. A local
-- array or variable whose address a program takes is an argument, the address; `text` gives the address
-- at which the linker put a string literal.
pub mod Cat
pub mod Ls
pub mod Shell
pub mod Grep
pub mod Greet
pub mod Counter
pub mod PingPong
pub mod SysErr
pub mod OnKernel
pub mod Printing
use Prim.Native.String.{String}
use lightweight_operating_sy.Prelude.{ℕ, ◌+◌, ◌/◌, Option, none, some, Memory, update, u8}
use lightweight_operating_sy.Support.{ece391_strlen}

-- An action that yields an `A`, or never ends.
abbrev pub Action : Type 0 → Type 0 → Type 0
Action S A = S → Option (A × S)

abbrev pub pure : {S A : Type 0} → A → Action S A
pure a s = some (a, s)

infixl 5 ◌>>=◌ ◌>>◌
abbrev pub ◌>>=◌ : {S A B : Type 0} → Action S A → (A → Action S B) → Action S B
◌>>=◌ m f s = elim (m s) [ none ↦ none | some (a, s') ↦ f a s' ]

abbrev pub ◌>>◌ : {S B : Type 0} → Action S (Unit {0}) → Action S B → Action S B
m >> k = m >>= λ _. k

-- Arguments and results are 32-bit patterns. `trap` is `int $0x80` with that number and whatever the
-- other registers hold.
pub record System : Type 1 where
  pub State : Type 0
  pub mem : State → Memory
  pub set_mem : State → Memory → State
  pub execute : ℕ → Action State ℕ
  pub read : ℕ → ℕ → ℕ → Action State ℕ
  pub write : ℕ → ℕ → ℕ → Action State ℕ
  pub opens : ℕ → Action State ℕ
  pub close : ℕ → Action State ℕ
  pub getargs : ℕ → ℕ → Action State ℕ
  pub vidmap : ℕ → Action State ℕ
  pub trap : ℕ → Action State ℕ

module _ (S : System) where
  abbrev pub Program : Type 0 → Type 0
  Program A = Action S.State A

  -- `x[i]` for the byte at that address.
  abbrev pub load : ℕ → Program ℕ
  load a s = some (S.mem s a, s)

  abbrev pub store : ℕ → ℕ → Program (Unit {0})
  store a v s = some (tt, S.set_mem s (update (S.mem s) a v))

  -- A word, little-endian.
  pub store_word : ℕ → ℕ → Program (Unit {0})
  store_word a v = do
    store a (u8 v)
    store (a + 1) (u8 (v / 0x100))
    store (a + 2) (u8 (v / 0x1_0000))
    store (a + 3) (u8 (v / 0x100_0000))

  -- What a library function finds in memory, and what it writes.
  abbrev pub look : {A : Type 0} → (Memory → Option A) → Program A
  look f s = elim (f (S.mem s)) [ none ↦ none | some a ↦ some (a, s) ]

  abbrev pub change : (Memory → Option Memory) → Program (Unit {0})
  change f s = elim (f (S.mem s)) [ none ↦ none | some m ↦ some (tt, S.set_mem s m) ]

module _ (S : System) (fuel : ℕ) where
  -- The result of the write is dropped.
  unfoldable pub ece391_fdputs : ℕ → ℕ → Program S (Unit {0})
  ece391_fdputs fd s = do len ← look S (λ m. ece391_strlen fuel m s); _ ← S.write fd s len; pure tt

  -- `ece391_fdputs (1, "..")`
  abbrev pub say : (String → ℕ) → String → Program S (Unit {0})
  say text line = ece391_fdputs 1 (text line)
