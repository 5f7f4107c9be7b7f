-- ===== src/Prelude/Bytes.antt =====
-- Byte-addressed memory, and tables with one entry for each index, as functions.
use Prim.Native.Nat.{ℕ, ◌+◌, ◌*◌, compare, Ordering}
use mathlib.Core.Path.{◌≡◌}
use mathlib.Core.Logic.{◌≢◌}
use native.Mathlib.Omega.{arith}

abbrev pub Memory : Type 0
Memory = ℕ → ℕ

module _ {ℓ} {A : Type ℓ} where
  abbrev pub update : (ℕ → A) → ℕ → A → ℕ → A
  update f i v j = elim (compare j i) [ Ordering.eq ↦ v | _ ↦ f j ]

  pub update_self : (f : ℕ → A) (i : ℕ) (v : A) → update f i v i ≡ v
  update_self f i v = ground arith

  pub update_ne : (f : ℕ → A) (i j : ℕ) (v : A) → j ≢ i → update f i v j ≡ f j
  update_ne f i j v h = ground arith

-- A little-endian 32-bit word.
unfoldable pub load32 : Memory → ℕ → ℕ
load32 m a = m a + m (a + 1) * 0x100 + m (a + 2) * 0x1_0000 + m (a + 3) * 0x100_0000
