-- ===== src/Str/Length.antt =====
-- `strlen` finds the first NUL.
use lightweight_operating_sy.Prelude.{
  ℕ, zero, suc, ◌+◌, ◌<◌, ◌≤◌, ◌≡◌, ◌↔◌, ◌≢◌, some, arith, Memory, ◌==◌, Bool-cases, ==_iff, subst,
  inl, inr,
}
use lightweight_operating_sy.Str.{strlen, strlen_loop}

-- `n` characters, none of them NUL, then a NUL.
pub record IsCString (m : Memory) (s n : ℕ) : Type 0 where
  pub filled : (i : ℕ) → i < n → m (s + i) ≢ 0
  pub ended : m (s + n) ≡ 0

strlen_loop-IsCString :
    (fuel : ℕ) (m : Memory) (s n len : ℕ)
    → IsCString m s n
    → len ≤ n
    → n < fuel + len
    → strlen_loop fuel m s len ≡ some n
unfolding strlen_loop
strlen_loop-IsCString zero m s n len c h k = absurd (omega arith)
strlen_loop-IsCString (suc fuel) m s n len c h k = ground (
  arith,
  c.filled len,
  c.ended,
  λ (p : len + 1 ≤ n). strlen_loop-IsCString fuel m s n (len + 1) c p (omega arith),
)

-- With more fuel than the string is long, `strlen` ends and returns the distance to the first NUL.
pub strlen-IsCString :
    (fuel : ℕ) (m : Memory) (s n : ℕ) → IsCString m s n → n < fuel → strlen fuel m s ≡ some n
unfolding strlen
strlen-IsCString fuel m s n c h = strlen_loop-IsCString fuel m s n 0 c (omega arith) (omega arith)

strlen_loop_sound :
    (fuel : ℕ) (m : Memory) (s len : ℕ) {n : ℕ}
    → ((i : ℕ) → i < len → m (s + i) ≢ 0)
    → strlen_loop fuel m s len ≡ some n
    → IsCString m s n
unfolding strlen_loop
strlen_loop_sound zero m s len before e = absurd (ground arith)
strlen_loop_sound (suc fuel) m s len {n} before e = elim (Bool-cases (m (s + len) == 0)) [
  | inl z ↦
      let here : len ≡ n = ground arith in
      subst (λ k. IsCString m s k) here (record { filled = before; ended = (==_iff _ 0).0 z })
  | inr nz ↦ strlen_loop_sound fuel m s (len + 1) (λ i h. ground (arith, before i)) (ground arith)
]

-- A length that `strlen` returns is that of a C string.
pub strlen_sound :
    (fuel : ℕ) (m : Memory) (s : ℕ) {n : ℕ} → strlen fuel m s ≡ some n → IsCString m s n
unfolding strlen
strlen_sound fuel m s e = strlen_loop_sound fuel m s 0 (λ i h. absurd (omega arith)) e

strlen_loop-lt :
    (fuel : ℕ) (m : Memory) (s len : ℕ) {n : ℕ} → strlen_loop fuel m s len ≡ some n → n < fuel + len
unfolding strlen_loop
strlen_loop-lt zero m s len e = absurd (ground arith)
strlen_loop-lt (suc fuel) m s len {n} e = elim (Bool-cases (m (s + len) == 0)) [
  | inl z ↦ let here : len ≡ n = ground arith in omega arith
  | inr nz ↦
      let more : n < fuel + (len + 1) = strlen_loop-lt fuel m s (len + 1) (ground arith) in
      omega arith
]

-- `strlen` ends on a C string that is shorter than the fuel, and every length that it returns is that of
-- such a string.
pub strlen_iff :
    (fuel : ℕ) (m : Memory) (s n : ℕ) → (strlen fuel m s ≡ some n) ↔ (IsCString m s n × (n < fuel))
unfolding strlen
strlen_iff fuel m s n = (
  λ e. (strlen_sound fuel m s e, ground (arith, strlen_loop-lt fuel m s 0 e)),
  λ h. strlen-IsCString fuel m s n h.0 h.1,
)
