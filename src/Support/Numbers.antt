-- ===== src/Support/Numbers.antt =====
-- The library's `strrev` and `itoa` are the kernel's.
use lightweight_operating_sy.Prelude.{
  ℕ, zero, suc, ◌+◌, ◌-◌, ◌/◌, ◌%◌, ◌≡◌, inl, inr, refl, arith, Memory, update, Bool-cases,
  Option-cases, ltb, true, false,
}
use lightweight_operating_sy.Str.{strlen, strlen_loop, strrev, strrev_loop, lookup, itoa, itoa_loop}
use lightweight_operating_sy.Support.{
  ece391_strlen, ece391_strlen_loop, ece391_strrev, ece391_strrev_loop, ece391_lookup, ece391_itoa,
  ece391_itoa_loop,
}

strlen_loop-kernel :
    (fuel : ℕ) (m : Memory) (s at len : ℕ)
    → at ≡ s + len
    → ece391_strlen_loop fuel m at len ≡ strlen_loop fuel m s len
unfolding ece391_strlen_loop strlen_loop
strlen_loop-kernel zero m s at len e = refl
strlen_loop-kernel (suc fuel) m s at len e =
    rw (e, strlen_loop-kernel fuel m s (s + len + 1) (len + 1) (omega arith)) refl

strrev_loop-kernel :
    (fuel : ℕ) (m : Memory) (s beg end : ℕ)
    → ece391_strrev_loop fuel m s beg end ≡ strrev_loop fuel m s beg end
unfolding ece391_strrev_loop strrev_loop
strrev_loop-kernel zero m s beg end = refl
strrev_loop-kernel (suc fuel) m s beg end =
    rw
      (strrev_loop-kernel fuel (update (update m (s + end) (m (s + beg))) (s + beg) (m (s + end))) s
        (beg + 1) (end - 1))
      refl

short_loop : (len : ℕ) (m : Memory) (s : ℕ) → ltb len 2 ≡ true → strrev_loop len m s 0 (len - 1) ≡ m
unfolding strrev_loop
short_loop zero m s short = refl
short_loop (suc len) m s short =
    let stop : ltb 0 (suc len - 1) ≡ false = ground arith in rw stop refl

pub ece391_strlen-strlen :
    (fuel : ℕ) (m : Memory) (s : ℕ) → ece391_strlen fuel m s ≡ strlen fuel m s
unfolding ece391_strlen strlen
ece391_strlen-strlen fuel m s = strlen_loop-kernel fuel m s s 0 (omega arith)

ece391_strrev-strrev : (fuel : ℕ) (m : Memory) (s : ℕ) → ece391_strrev fuel m s ≡ strrev fuel m s
unfolding ece391_strrev strrev
ece391_strrev-strrev fuel m s = elim (Option-cases (strlen fuel m s)) [
  | inl lost ↦ rw (ece391_strlen-strlen fuel m s, ece391_strrev, strrev, lost) refl
  | inr (len, sized) ↦ elim (Bool-cases (ltb len 2)) [
    | inl short ↦
        rw
          (
            ece391_strlen-strlen fuel m s,
            ece391_strrev,
            strrev,
            sized,
            short,
            short_loop len m s short,
          )
          refl
    | inr long ↦
        rw
          (
            ece391_strlen-strlen fuel m s,
            ece391_strrev,
            strrev,
            sized,
            long,
            strrev_loop-kernel len m s 0 (len - 1),
          )
          refl
  ]
]

itoa_loop-kernel :
    (fuel : ℕ) (m : Memory) (newbuf newval radix : ℕ)
    → ece391_itoa_loop fuel m newbuf newval radix ≡ itoa_loop fuel m newbuf newval radix
unfolding ece391_itoa_loop itoa_loop ece391_lookup lookup
itoa_loop-kernel zero m newbuf newval radix = refl
itoa_loop-kernel (suc fuel) m newbuf newval radix =
    rw
      (itoa_loop-kernel fuel (update m newbuf (lookup (newval % radix))) (newbuf + 1)
        (newval / radix) radix)
      refl

-- The library's `itoa` does what the kernel's does, on every input and with any fuel: it leaves the same
-- memory, or hangs as the kernel's does.
pub ece391_itoa-itoa :
    (fuel : ℕ) (m : Memory) (value buf radix : ℕ)
    → ece391_itoa fuel m value buf radix ≡ itoa fuel m value buf radix
unfolding ece391_itoa itoa
ece391_itoa-itoa fuel m value buf radix = elim (Option-cases (itoa_loop fuel m buf value radix)) [
  | inl lost ↦ rw (itoa_loop-kernel fuel m buf value radix, lost) refl
  | inr (m', done) ↦
      rw (itoa_loop-kernel fuel m buf value radix, done, ece391_strrev-strrev fuel m' buf) refl
]
