-- ===== src/Str/Digits.antt =====
-- `itoa` writes the digits of its value, highest first.
use native.Mathlib.Nat.{pow-suc, pow-zero, div-lt_iff_lt-mul, mod-lt, div-add-mod, add-zero}
use lightweight_operating_sy.Prelude.{
  ℕ, zero, suc, ◌+◌, ◌-◌, ◌*◌, ◌/◌, ◌%◌, ◌^◌, ◌<◌, ◌≤◌, ◌≡◌, ◌≢◌, refl, sym, some, arith, Memory,
  leb, ◌&&◌, update, inl, ap, ◌∙◌, if◌then◌else◌, ==_ne,
}
use lightweight_operating_sy.Str.{lookup, itoa_loop, itoa}
use lightweight_operating_sy.Str.Length.{IsCString}
use lightweight_operating_sy.Str.Reverse.{strrev_reverses}

-- The value of a digit's character, and 36, which is the value of no digit, for any other character.
unfoldable pub digit_value : ℕ → ℕ
digit_value c =
    if leb b'0' c && leb c b'9'
    then c - b'0'
    else if leb b'A' c && leb c b'Z'
    then c - b'A' + 10
    else 36

-- The `n` characters at `s` are digits of that radix.
unfoldable pub AreDigits : ℕ → Memory → ℕ → ℕ → Type 0
AreDigits radix m s n = (i : ℕ) → i < n → digit_value (m (s + i)) < radix

digit_value-lookup : (i : ℕ) → i < 36 → digit_value (lookup i) ≡ i
unfolding digit_value lookup
digit_value-lookup i h = ground arith

lookup-pos : (i : ℕ) → 0 < lookup i
unfolding lookup
lookup-pos i = ground arith

module _ (radix : ℕ) (m : Memory) where
  -- The number that the `n` characters from `s` on spell in base `radix`, highest digit first.
  unfoldable pub number_of : ℕ → ℕ → ℕ
  number_of s zero = 0
  number_of s (suc n) = number_of s n * radix + digit_value (m (s + n))

  low_first : ℕ → ℕ → ℕ
  low_first s zero = 0
  low_first s (suc n) = low_first (s + 1) n * radix + digit_value (m s)

number_of_nothing :
    (radix : ℕ) (m : Memory) (s j : ℕ)
    → ((i : ℕ) → i < j → m (s + i) ≡ b'0')
    → number_of radix m s j ≡ 0
unfolding number_of digit_value
number_of_nothing radix m s zero z = refl
number_of_nothing radix m s (suc j) z =
    rw (number_of_nothing radix m s j (λ i h. z i (omega arith)), z j (omega arith)) (omega arith)

-- Zeros in front change no number.
pub number_of_zeros :
    (radix : ℕ) (m : Memory) (s j n : ℕ)
    → ((i : ℕ) → i < j → m (s + i) ≡ b'0')
    → number_of radix m s (j + n) ≡ number_of radix m (s + j) n
unfolding number_of digit_value
number_of_zeros radix m s j zero z =
    ap (number_of radix m s) (omega arith) ∙ number_of_nothing radix m s j z
number_of_zeros radix m s j (suc n) z =
    let same : m (s + (j + n)) ≡ m (s + j + n) = ap m (omega arith) in
    let one_more : j + suc n ≡ suc (j + n) = omega arith in
    rw (one_more, number_of_zeros radix m s j n z, same) refl

pub number_of_same :
    (radix : ℕ) (m m' : Memory) (s n : ℕ)
    → ((i : ℕ) → i < n → m' (s + i) ≡ m (s + i))
    → number_of radix m' s n ≡ number_of radix m s n
unfolding number_of
number_of_same radix m m' s zero h = refl
number_of_same radix m m' s (suc n) h =
    rw (number_of_same radix m m' s n (λ i p. h i (omega arith)), h n (omega arith)) refl

number_of-reversed :
    (radix : ℕ) (m m' : Memory) (b s n : ℕ)
    → ((i : ℕ) → i < n → m' (b + i) ≡ m (s + (n - 1 - i)))
    → number_of radix m' b n ≡ low_first radix m s n
unfolding number_of low_first
number_of-reversed radix m m' b s zero h = refl
number_of-reversed radix m m' b s (suc n) h =
    let rest =
      number_of-reversed radix m m' b (s + 1) n (λ i p. h i (omega arith) ∙ ap m (omega arith)) in
    rw (rest, last)
  where
    last : m' (b + n) ≡ m s
    last = h n (omega arith) ∙ ap m (omega arith)

-- What the loop of `itoa` leaves at `s`, with `v` left to print.
record Printed (radix : ℕ) (m m' : Memory) (s v n : ℕ) : Type 0 where
  string : IsCString m' s n
  value : low_first radix m' s n ≡ v
  digits : AreDigits radix m' s n
  before : (a : ℕ) → a < s → m' a ≡ m a

Printed-suc :
    (radix : ℕ) (m m' : Memory) (s v n : ℕ)
    → 2 ≤ radix
    → radix ≤ 36
    → Printed radix (update m s (lookup (v % radix))) m' (s + 1) (v / radix) n
    → Printed radix m m' s v (suc n)
unfolding low_first AreDigits
Printed-suc radix m m' s v n lo hi p = record {
  string = record { filled = fill; ended = ap m' (omega arith) ∙ p.string.ended };
  value = ground (
    arith,
    first,
    p.value,
    mod-lt v {m = radix} (omega arith),
    digit_value-lookup (v % radix),
    div-add-mod v radix,
  );
  digits = digits;
  before = λ a h. ground (arith, p.before a);
}
  where
    first : m' s ≡ lookup (v % radix)
    first = ground (arith, p.before s)

    digits : (i : ℕ) → i < suc n → digit_value (m' (s + i)) < radix
    digits zero h =
        let is : m' (s + 0) ≡ lookup (v % radix) = ap m' (add-zero s) ∙ first in
        let below = mod-lt v {m = radix} (omega arith) in
        rw (is, digit_value-lookup (v % radix) (omega (arith, below))) below
    digits (suc i) h =
        let at : m' (s + suc i) ≡ m' (s + 1 + i) = ap m' (omega arith) in
        rw at (p.digits i (omega arith))

    fill : (i : ℕ) → i < suc n → m' (s + i) ≢ 0
    fill zero h z = ground (arith, first, lookup-pos (v % radix), add-zero s)
    fill (suc i) h z = p.string.filled i (omega arith) (ap m' (omega arith) ∙ z)

itoa_loop_prints :
    (fuel k : ℕ) (m : Memory) (s v radix : ℕ)
    → 2 ≤ radix
    → radix ≤ 36
    → v < radix ^ k
    → k < fuel
    → (n : ℕ) × (m' : Memory) × (itoa_loop fuel m s v radix ≡ some m')
      × (n ≤ k)
      × Printed radix m m' s v n
unfolding itoa_loop low_first AreDigits
itoa_loop_prints zero k m s v radix lo hi big h = absurd (omega arith)
itoa_loop_prints (suc fuel) k m s zero radix lo hi big h = (
  0,
  update m s 0,
  refl,
  omega arith,
  record {
    string = record { filled = λ i p. elim p [ ]; ended = ground (arith, add-zero s) };
    value = refl;
    digits = λ i p. elim p [ ];
    before = λ a p. ground arith;
  },
)
itoa_loop_prints (suc fuel) zero m s (suc v) radix lo hi big h =
    absurd (omega (arith, pow-zero radix))
itoa_loop_prints (suc fuel) (suc k) m s (suc v) radix lo hi big h =
    let (n, m', e, small, p) =
      itoa_loop_prints fuel k (update m s (lookup (suc v % radix))) (s + 1) (suc v / radix) radix lo
        hi ((div-lt_iff_lt-mul (omega arith)).1 (rw (sym (pow-suc radix k)) big)) (omega arith) in
    (
      suc n,
      m',
      rw (==_ne (suc v) 0 (omega arith)) e,
      omega arith,
      Printed-suc radix m m' s (suc v) n lo hi p,
    )

Printed-reversed :
    (radix : ℕ) (m m1 m2 : Memory) (s v n : ℕ)
    → Printed radix m m1 s v n
    → ((i : ℕ) → i < n → m2 (s + i) ≡ m1 (s + (n - 1 - i)))
    → number_of radix m2 s n ≡ v
Printed-reversed radix m m1 m2 s v n p h = number_of-reversed radix m1 m2 s s n h ∙ p.value

Printed-AreDigits :
    (radix : ℕ) (m m1 m2 : Memory) (s v n : ℕ)
    → Printed radix m m1 s v n
    → ((i : ℕ) → i < n → m2 (s + i) ≡ m1 (s + (n - 1 - i)))
    → AreDigits radix m2 s n
unfolding AreDigits
Printed-AreDigits radix m m1 m2 s v n p h i lt = rw (h i lt) (p.digits (n - 1 - i) (omega arith))

-- `itoa` with a radix from 2 to 36, on a value below `radix ^ k` for some `k` above 0, and with
-- more fuel than `k`, ends; it leaves at `buf` a C string of at most `k` characters, all of them digits of
-- that radix, that spell the value, highest digit first, and changes nothing below `buf`.
pub itoa_spells :
    (fuel k : ℕ) (m : Memory) (value buf radix : ℕ)
    → 2 ≤ radix
    → radix ≤ 36
    → value < radix ^ k
    → 1 ≤ k
    → k < fuel
    → (n : ℕ) × (m' : Memory) × (itoa fuel m value buf radix ≡ some m')
      × (n ≤ k)
      × IsCString m' buf n
      × (number_of radix m' buf n ≡ value)
      × AreDigits radix m' buf n
      × ((a : ℕ) → a < buf → m' a ≡ m a)
unfolding itoa number_of digit_value AreDigits
itoa_spells fuel k m zero buf radix lo hi big some_digit h = (
  1,
  update (update m buf b'0') (buf + 1) 0,
  refl,
  omega arith,
  record { filled = λ i p z. ground arith; ended = ground arith },
  ground arith,
  λ i h. ground arith,
  λ a p. ground arith,
)
itoa_spells fuel k m (suc v) buf radix lo hi big some_digit h =
    let (n, m1, e1, small, p) = itoa_loop_prints fuel k m buf (suc v) radix lo hi big h in
    let (m2, e2, mirrored, outside, string) =
      strrev_reverses fuel m1 buf n p.string (omega arith) in
    (
      n,
      m2,
      rw (==_ne (suc v) 0 (omega arith), e1, e2),
      omega arith,
      string,
      Printed-reversed radix m m1 m2 buf (suc v) n p mirrored,
      Printed-AreDigits radix m m1 m2 buf (suc v) n p mirrored,
      λ a q. outside a (inl q) ∙ p.before a q,
    )
