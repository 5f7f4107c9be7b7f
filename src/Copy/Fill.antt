-- ===== src/Copy/Fill.antt =====
-- `memset` fills a block with one byte.
use lightweight_operating_sy.Prelude.{
  ℕ, zero, suc, ◌+◌, ◌*◌, ◌/◌, ◌%◌, ◌<◌, ◌≤◌, ◌≡◌, ◌⊎◌, inl, inr, refl, arith, Memory, update, ◌==◌,
  true, ◌&&◌, Bool-cases, ◌∙◌, subst, u8,
}
use lightweight_operating_sy.Prelude.Bits.{bit_and_byte, all_below, all_below_sound}
use lightweight_operating_sy.Copy.{
  set_bytes, set_dwords, store4, memset_aligned, memset_top, memset, fill_word,
}

-- `m'` is `m` with the `n` bytes at `dst` set to `v`, and nothing else changed.
pub record Filled (m m' : Memory) (dst v n : ℕ) : Type 0 where
  pub inside : (a : ℕ) → dst ≤ a → a < dst + n → m' a ≡ v
  pub outside : (a : ℕ) → (a < dst) ⊎ (dst + n ≤ a) → m' a ≡ m a

Filled-split :
    (m m1 m2 : Memory) (dst v k n : ℕ)
    → Filled m m1 dst v k
    → Filled m1 m2 (dst + k) v n
    → Filled m m2 dst v (k + n)
Filled-split m m1 m2 dst v k n p q = record {
  inside = λ a h g. ground (arith, p.inside a, q.inside a, q.outside a);
  outside = λ a o. q.outside a (omega arith) ∙ p.outside a (omega arith);
}

Filled-zero : (m : Memory) (dst v : ℕ) → Filled m m dst v 0
Filled-zero m dst v = record { inside = λ a h g. absurd (omega arith); outside = λ a o. refl }

Filled-one : (m : Memory) (dst v : ℕ) → Filled m (update m dst v) dst v 1
Filled-one m dst v = record { inside = λ a h g. ground arith; outside = λ a o. ground arith }

Filled-four : (m : Memory) (dst v : ℕ) → Filled m (store4 m dst v v v v) dst v 4
Filled-four m dst v = record { inside = λ a h g. ground arith; outside = λ a o. ground arith }

-- The four bytes of EAX.
record Quad (eax v : ℕ) : Type 0 where
  b0 : eax % 256 ≡ v
  b1 : eax / 256 % 256 ≡ v
  b2 : eax / 65536 % 256 ≡ v
  b3 : eax / 16777216 % 256 ≡ v

module _ (eax v : ℕ) (q : Quad eax v) where
  set_bytes-Filled : (n : ℕ) (m : Memory) (dst : ℕ) → Filled m (set_bytes n m dst eax) dst v n
  unfolding set_bytes
  set_bytes-Filled zero m dst = Filled-zero m dst v
  set_bytes-Filled (suc n) m dst = rw q.b0 (
      subst (λ k. Filled m (set_bytes n (update m dst v) (dst + 1) eax) dst v k) (one-add n)
        (Filled-split m (update m dst v) _ dst v 1 n (Filled-one m dst v)
          (set_bytes-Filled n (update m dst v) (dst + 1))))
    where
      one-add : (n : ℕ) → 1 + n ≡ suc n
      one-add n = omega arith

  set_dwords-Filled :
      (n : ℕ) (m : Memory) (dst : ℕ) → Filled m (set_dwords n m dst eax) dst v (4 * n)
  unfolding set_dwords
  set_dwords-Filled zero m dst = Filled-zero m dst v
  set_dwords-Filled (suc n) m dst =
      rw (q.b0, q.b1, q.b2, q.b3)
        (subst (λ k. Filled m (set_dwords n (store4 m dst v v v v) (dst + 4) eax) dst v k)
          (four-add n)
          (Filled-split m (store4 m dst v v v v) _ dst v 4 (4 * n) (Filled-four m dst v)
            (set_dwords-Filled n (store4 m dst v v v v) (dst + 4))))
    where
      four-add : (n : ℕ) → 4 + 4 * n ≡ 4 * suc n
      four-add n = omega arith

  memset_aligned-Filled :
      (n : ℕ) (m : Memory) (dst : ℕ) → Filled m (memset_aligned n m dst eax) dst v n
  unfolding memset_aligned
  memset_aligned-Filled n m dst =
      subst (λ k. Filled m (memset_aligned n m dst eax) dst v k) (parts n)
        (Filled-split m (set_dwords (n / 4) m dst eax) _ dst v (4 * (n / 4)) (n % 4)
          (set_dwords-Filled (n / 4) m dst) (set_bytes-Filled (n % 4) _ (dst + 4 * (n / 4))))
    where
      parts : (n : ℕ) → 4 * (n / 4) + n % 4 ≡ n
      parts n = omega arith

  memset_top-Filled : (n : ℕ) (m : Memory) (dst : ℕ) → Filled m (memset_top n m dst eax) dst v n
  unfolding memset_top
  memset_top-Filled zero m dst = Filled-zero m dst v
  memset_top-Filled (suc n) m dst = elim (Bool-cases (dst % 4 == 0)) [
    | inl aligned ↦ rw aligned (memset_aligned-Filled (suc n) m dst)
    | inr skew ↦
        rw (skew, q.b0)
          (subst (λ k. Filled m (memset_top n (update m dst v) (dst + 1) eax) dst v k) (one-add n)
            (Filled-split m (update m dst v) _ dst v 1 n (Filled-one m dst v)
              (memset_top-Filled n (update m dst v) (dst + 1))))
  ]
    where
      one-add : (n : ℕ) → 1 + n ≡ suc n
      one-add n = omega arith

quad_table :
    all_below 256 (λ c.
      let w = fill_word c in
      w % 256 == c && (w / 256 % 256 == c && (w / 65536 % 256 == c && w / 16777216 % 256 == c)))
    ≡ true
unfolding all_below fill_word
quad_table = refl

fill_word-Quad : (c : ℕ) → c < 256 → Quad (fill_word c) c
fill_word-Quad c h = ground (arith, all_below_sound 256 _ c quad_table h)

-- Whatever the alignment and the length, `memset` sets the `n` bytes at `s` to the low byte of `c` and
-- changes nothing else.
pub memset-Filled : (m : Memory) (s c n : ℕ) → Filled m (memset m s c n) s (u8 c) n
unfolding memset
memset-Filled m s c n =
    rw (bit_and_byte c)
      (memset_top-Filled (fill_word (u8 c)) (u8 c) (fill_word-Quad (u8 c) (omega arith)) n m s)
