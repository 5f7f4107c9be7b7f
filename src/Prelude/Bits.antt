-- ===== src/Prelude/Bits.antt =====
-- Laws of `&` at variables, and checks by evaluation.
use Prim.Native.Nat.{ℕ, zero, suc, ◌+◌, ◌-◌, ◌*◌, ◌/◌, ◌%◌, ◌^◌, ◌≤◌, ◌<◌, min}
use Prim.Native.Nat.{bit_and, digits, bit_and-bitwise}
use mathlib.Core.Path.{◌≡◌, refl, sym, ap, ◌∙◌}
use mathlib.Core.Bool.{Bool, true, ◌&&◌}
use native.Mathlib.Nat.{pow-suc, one-le-pow}
use native.Mathlib.Omega.{arith}
use native.Mathlib.Decide.{dec_lt}

-- The native `&` runs on fuel: any amount above the number will do.
masked : ℕ → ℕ → ℕ → ℕ
masked fuel a b = digits (λ y. 0) min fuel a b

masked_nothing : (fuel b : ℕ) → masked fuel 0 b ≡ 0
unfolding masked
masked_nothing zero b = refl
masked_nothing (suc fuel) b = refl

masked-above : (b a n top : ℕ) → a ≤ n → n ≤ top → masked top a b ≡ masked n a b
unfolding masked
masked-above b zero n top under over = masked_nothing top b ∙ sym (masked_nothing n b)
masked-above b (suc a) zero top under over = absurd (omega arith)
masked-above b (suc a) (suc n) zero under over = absurd (omega arith)
masked-above b (suc a) (suc n) (suc top) under over =
    ap (λ (t : ℕ). t * 2 + min (suc a % 2) (b % 2))
      (masked-above (b / 2) (suc a / 2) n top (omega arith) (omega arith))

-- The lowest binary digit, and the others.
pub bit_and_step : (a b : ℕ) → bit_and a b ≡ bit_and (a / 2) (b / 2) * 2 + min (a % 2) (b % 2)
unfolding masked
bit_and_step zero b = rw (bit_and-bitwise 0 b, bit_and-bitwise 0 (b / 2)) (omega arith)
bit_and_step (suc a) b =
    rw (bit_and-bitwise (suc a) b, bit_and-bitwise (suc a / 2) (b / 2))
      (ap (λ (t : ℕ). t * 2 + min (suc a % 2) (b % 2))
        (masked-above (b / 2) (suc a / 2) (suc a / 2) a (omega arith) (omega arith)))

zero_mask : (bound a : ℕ) → a < bound → bit_and a 0 ≡ 0
zero_mask zero a lt = absurd (omega arith)
zero_mask (suc bound) zero lt = refl
zero_mask (suc bound) (suc a) lt =
    omega (arith, zero_mask bound (suc a / 2) (omega arith), bit_and_step (suc a) 0)

-- `q * 2 ^ k + r` masked by `k` low ones keeps `r`.
bit_and_split : (k q r : ℕ) → r < 2 ^ k → bit_and (q * 2 ^ k + r) (2 ^ k - 1) ≡ r
bit_and_split zero q r h = ground (arith, zero_mask (q * 1 + r + 1) (q * 1 + r) (omega arith))
bit_and_split (suc k) q r h = ground (
  arith,
  pow-suc 2 k,
  ap (λ (t : ℕ). q * t) (pow-suc 2 k),
  bit_and_step (q * 2 ^ suc k + r) (2 ^ suc k - 1),
  bit_and_split k q (r / 2) (omega (arith, pow-suc 2 k)),
)

-- A mask of `k` low ones is the remainder by `2 ^ k`.
pub bit_and_low : (k a : ℕ) → bit_and a (2 ^ k - 1) ≡ a % 2 ^ k
bit_and_low k a = ground (arith, one-le-pow k 2, bit_and_split k (a / 2 ^ k) (a % 2 ^ k))

-- Whether a test holds of every number below a bound.
unfoldable pub all_below : ℕ → (ℕ → Bool) → Bool
all_below zero test = true
all_below (suc bound) test = all_below bound test && test bound

pub all_below_sound :
    (bound : ℕ) (test : ℕ → Bool) (n : ℕ) → all_below bound test ≡ true → n < bound → test n ≡ true
unfolding all_below
all_below_sound zero test n all lt = absurd (omega arith)
all_below_sound (suc bound) test n all lt = elim (dec_lt n bound) [
  | yes less ↦ all_below_sound bound test n (ground arith) less
  | no more ↦ let last : n ≡ bound = omega arith in rw last (ground arith)
]

pub bit_and_byte : (a : ℕ) → bit_and a 0xff ≡ a % 0x100
bit_and_byte a = bit_and_low 8 a

bit_and_even : (a n : ℕ) → bit_and a (2 * n) ≡ 2 * bit_and (a / 2) n
bit_and_even a n = ground (arith, bit_and_step a (2 * n))

abbrev halved : ℕ → ℕ → ℕ
halved zero a = a
halved (suc k) a = halved k (a / 2)

abbrev doubled : ℕ → ℕ → ℕ
doubled zero b = b
doubled (suc k) b = 2 * doubled k b

bit_and-doubled : (k a b : ℕ) → bit_and a (doubled k b) ≡ doubled k (bit_and (halved k a) b)
bit_and-doubled zero a b = refl
bit_and-doubled (suc k) a b =
    bit_and_even a (doubled k b) ∙ ap (λ (t : ℕ). 2 * t) (bit_and-doubled k (a / 2) b)

-- A mask of the 19 high ones of a word clears its 13 low bits.
pub bit_and_high : (a : ℕ) → a < 0x1_0000_0000 → bit_and a 0xffff_e000 ≡ a / 0x2000 * 0x2000
bit_and_high a h = omega (arith, bit_and-doubled 13 a 0x7ffff, bit_and_low 19 (halved 13 a))

-- The upper half of a word.
pub bit_and_word : (a : ℕ) → a < 0x1_0000_0000 → bit_and a 0xffff_0000 ≡ a / 0x1_0000 * 0x1_0000
bit_and_word a h = omega (arith, bit_and-doubled 16 a 0xffff, bit_and_low 16 (halved 16 a))
