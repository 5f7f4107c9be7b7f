-- ===== src/Rtc/Frequency.antt =====
-- Which frequencies `rtc_write` accepts.
use native.Mathlib.Nat.{pow-suc, one-le-pow}
use lightweight_operating_sy.Prelude.{
  ℕ, zero, suc, ◌-◌, ◌/◌, ◌%◌, ◌^◌, ◌<◌, ◌≤◌, ◌≡◌, ◌≢◌, ◌⊎◌, inl, inr, refl, arith, update, ltb,
  ◌==◌, ◌&&◌, true, ◌||◌, Bool-cases, bit_and, minus_one, dec_lt, ℕ_discrete,
}
use lightweight_operating_sy.Prelude.Bits.{bit_and_step}
use lightweight_operating_sy.Hardware.{Hardware, cli, sti}
use lightweight_operating_sy.Kernel.{Rtc}
use lightweight_operating_sy.Rtc.{rate_loop, rtc_write, get_current_process}

bit_and-self_fuel : (n a : ℕ) → a ≤ n → bit_and a a ≡ a
bit_and-self_fuel n zero h = refl
bit_and-self_fuel zero (suc a) h = absurd (omega arith)
bit_and-self_fuel (suc n) (suc a) h =
    omega (arith, bit_and_step (suc a) (suc a), bit_and-self_fuel n (suc a / 2) (omega arith))

-- The test `f & (f - 1)` passes only for powers of two.
power_of_test : (n f : ℕ) → f ≤ n → 0 < f → bit_and f (f - 1) ≡ 0 → (k : ℕ) × (f ≡ 2 ^ k)
power_of_test zero f h pos e = absurd (omega arith)
power_of_test (suc n) f h pos e = elim (ℕ_discrete (f % 2) 0) [
  | yes even ↦
      let half : (f - 1) / 2 ≡ f / 2 - 1 = omega arith in
      let (k, p) =
        power_of_test n (f / 2) (omega arith) (omega arith)
          (ground (arith, bit_and_step f (f - 1), half)) in
      (suc k, omega (arith, pow-suc 2 k))
  | no odd ↦ (0, odd_one odd)
]
  where
    odd_one : f % 2 ≢ 0 → f ≡ 1
    odd_one odd =
        let half : (f - 1) / 2 ≡ f / 2 = omega arith in
        ground
          (arith, bit_and_step f (f - 1), half, bit_and-self_fuel (f / 2) (f / 2) (omega arith))

pow_test : (k : ℕ) → bit_and (2 ^ k) (2 ^ k - 1) ≡ 0
pow_test zero = refl
pow_test (suc k) =
    let half : (2 ^ suc k - 1) / 2 ≡ 2 ^ k - 1 = omega (arith, pow-suc 2 k, one-le-pow k 2) in
    let whole : 2 ^ suc k / 2 ≡ 2 ^ k = omega (arith, pow-suc 2 k) in
    ground (arith, bit_and_step (2 ^ suc k) (2 ^ suc k - 1), half, whole, pow_test k, pow-suc 2 k)

rate_pow : (k : ℕ) → k ≤ 15 → rate_loop 17 32768 1 (2 ^ k) ≡ 16 - k
unfolding rate_loop
rate_pow zero h = refl
rate_pow (suc zero) h = refl
rate_pow (suc (suc zero)) h = refl
rate_pow (suc (suc (suc zero))) h = refl
rate_pow (suc (suc (suc (suc zero)))) h = refl
rate_pow (suc (suc (suc (suc (suc zero))))) h = refl
rate_pow (suc (suc (suc (suc (suc (suc zero)))))) h = refl
rate_pow (suc (suc (suc (suc (suc (suc (suc zero))))))) h = refl
rate_pow (suc (suc (suc (suc (suc (suc (suc (suc zero)))))))) h = refl
rate_pow (suc (suc (suc (suc (suc (suc (suc (suc (suc zero))))))))) h = refl
rate_pow (suc (suc (suc (suc (suc (suc (suc (suc (suc (suc zero)))))))))) h = refl
rate_pow (suc (suc (suc (suc (suc (suc (suc (suc (suc (suc (suc zero))))))))))) h = refl
rate_pow (suc (suc (suc (suc (suc (suc (suc (suc (suc (suc (suc (suc zero)))))))))))) h = refl
rate_pow (suc (suc (suc (suc (suc (suc (suc (suc (suc (suc (suc (suc (suc zero))))))))))))) h = refl
rate_pow (suc (suc (suc (suc (suc (suc (suc (suc (suc (suc (suc (suc (suc (suc zero))))))))))))))
      h =
    refl
rate_pow
      (suc (suc (suc (suc (suc (suc (suc (suc (suc (suc (suc (suc (suc (suc (suc zero)))))))))))))))
      h =
    refl
rate_pow
      (suc
        (suc (suc (suc (suc (suc (suc (suc (suc (suc (suc (suc (suc (suc (suc (suc k))))))))))))))))
      h =
    absurd (omega arith)

rate_big : (f : ℕ) → 32768 ≤ f → rate_loop 17 32768 1 f ≡ 1
unfolding rate_loop
rate_big f h = ground arith

pow_big : (k : ℕ) → 16 ≤ k → 65536 ≤ 2 ^ k
pow_big zero h = absurd (omega arith)
pow_big (suc k) h = elim (ℕ_discrete k 15) [
  | yes e ↦ rw e (omega arith)
  | no ne ↦ omega (arith, pow_big k (omega arith), pow-suc 2 k)
]

-- A power of two passes the bit test.
pow_passes : (f k : ℕ) → f ≡ 2 ^ k → (ltb 0 f && (bit_and f (f - 1) == 0)) ≡ true
pow_passes f k e = rw e (ground (arith, pow_test k, one-le-pow k 2))

module _ (frequency cur : ℕ) (r : Rtc) (h : Hardware) where
  accepted :
      (k : ℕ)
      → 1 ≤ k
      → k ≤ 13
      → frequency ≡ 2 ^ k
      → rtc_write frequency cur r h ≡ (
        0,
        record r { rtc_freq = update r.rtc_freq (get_current_process cur) frequency },
        sti (cli h),
      )
  unfolding rtc_write
  accepted k lo hi e =
      let rate : rate_loop 17 32768 1 frequency ≡ 16 - k = rw e (rate_pow k (omega arith)) in
      rw (pow_passes frequency k e, rate) (ground arith)

  bad_rate :
      (k : ℕ)
      → (k ≡ 0) ⊎ (13 < k)
      → frequency ≡ 2 ^ k
      → (ltb (rate_loop 17 32768 1 frequency) 3 || ltb 15 (rate_loop 17 32768 1 frequency)) ≡ true
  bad_rate k o e = elim (dec_lt k 16) [
    | yes small ↦ rw (e, rate_pow k (omega arith)) (ground arith)
    | no large ↦ rw (rate_big frequency (omega (arith, pow_big k (omega arith))))
  ]

  refused :
      ((k : ℕ) → 1 ≤ k → k ≤ 13 → frequency ≢ 2 ^ k)
      → rtc_write frequency cur r h ≡ (minus_one, r, cli h)
  unfolding rtc_write
  refused none_fits =
      elim (Bool-cases (ltb 0 frequency && (bit_and frequency (frequency - 1) == 0))) [
        | inr fails ↦ rw fails
        | inl passes ↦
            let (k, e) =
              power_of_test frequency frequency (omega arith) (ground arith) (ground arith) in
            let out : (k ≡ 0) ⊎ (13 < k) = ground (arith, none_fits k, e) in
            rw (passes, bad_rate k out e)
      ]

  -- Whether the frequency is one of the thirteen.
  fits_dec :
      ((k : ℕ) × (1 ≤ k) × (k ≤ 13) × (frequency ≡ 2 ^ k))
      ⊎ ((k : ℕ) → 1 ≤ k → k ≤ 13 → frequency ≢ 2 ^ k)
  fits_dec = search_below 13
    where
      search_below :
          (n : ℕ)
          → ((k : ℕ) × (1 ≤ k) × (k ≤ n) × (frequency ≡ 2 ^ k))
            ⊎ ((k : ℕ) → 1 ≤ k → k ≤ n → frequency ≢ 2 ^ k)
      search_below zero = inr (λ k lo hi e. absurd (omega arith))
      search_below (suc n) = elim (ℕ_discrete frequency (2 ^ suc n)) [
        | yes e ↦ inl (suc n, omega arith, omega arith, e)
        | no ne ↦ elim (search_below n) [
          | inl (k, lo, hi, e) ↦ inl (k, lo, omega arith, e)
          | inr not_below ↦ inr (λ k lo hi e. elim (ℕ_discrete k (suc n)) [
            | yes top ↦ ne (rw top at e)
            | no below ↦ not_below k lo (omega arith) e
          ])
        ]
      ]

-- `rtc_write` accepts exactly the powers of two from 2 to 8192: it then returns 0, and has set the
-- frequency of the running terminal. Else it returns -1 and leaves the clock's state as it was.
pub rtc_write_accepts :
    (frequency cur : ℕ) (r : Rtc) (h : Hardware)
    → let (ret, r', h') = rtc_write frequency cur r h in
      (((k : ℕ) × (1 ≤ k) × (k ≤ 13) × (frequency ≡ 2 ^ k))
        × (ret ≡ 0)
        × (r' ≡ record r { rtc_freq = update r.rtc_freq (get_current_process cur) frequency }))
      ⊎ (((k : ℕ) → 1 ≤ k → k ≤ 13 → frequency ≢ 2 ^ k) × (ret ≡ minus_one) × (r' ≡ r))
rtc_write_accepts frequency cur r h = elim (fits_dec frequency cur r h) [
  | inl (k, lo, hi, e) ↦
      rw (accepted frequency cur r h k lo hi e) (inl ((k, lo, hi, e), refl, refl))
  | inr none_fits ↦ rw (refused frequency cur r h none_fits) (inr (none_fits, refl, refl))
]
