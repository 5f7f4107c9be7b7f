-- ===== src/Copy/Region.antt =====
-- `memcpy` and `memmove` against the plain description of a block copy.
use native.Mathlib.Nat.{add-zero}
use lightweight_operating_sy.Prelude.{
  ℕ, zero, suc, ◌+◌, ◌-◌, ◌*◌, ◌/◌, ◌%◌, ◌<◌, ◌≤◌, ◌≡◌, ◌⊎◌, inl, inr, refl, arith, Memory, update,
  ◌==◌, Bool-cases, leb, leb→le, dec_lt, subst, ap, ◌∙◌,
}
use lightweight_operating_sy.Copy.{
  copy_bytes, copy_bytes_down, copy_dwords, store4, memcpy_aligned, memcpy_top, memcpy, memmove,
}

-- `m'` is `m` with the `n` bytes at `src` copied to `dst`, and nothing else changed.
pub record Copied (m m' : Memory) (dst src n : ℕ) : Type 0 where
  pub inside : (i : ℕ) → i < n → m' (dst + i) ≡ m (src + i)
  pub outside : (a : ℕ) → (a < dst) ⊎ (dst + n ≤ a) → m' a ≡ m a

-- An upward copy never overwrites a byte that it has still to read.
abbrev pub Upward : ℕ → ℕ → ℕ → Type 0
Upward dst src n = (dst ≤ src) ⊎ (src + n ≤ dst)

-- A copy of the first `k` bytes and then one of the other `n`.
pub Copied-split :
    (m m1 m2 : Memory) (dst src k n : ℕ)
    → Upward dst src (k + n)
    → Copied m m1 dst src k
    → Copied m1 m2 (dst + k) (src + k) n
    → Copied m m2 dst src (k + n)
Copied-split m m1 m2 dst src k n up p q = record { inside = ins; outside = outs }
  where
    at : (i j : ℕ) → i ≡ k + j → j < n → m2 (dst + i) ≡ m (src + i)
    at i j e h =
        ap m2 (omega arith)
        ∙ q.inside j h
        ∙ p.outside (src + k + j) (omega arith)
        ∙ ap m (omega arith)

    ins : (i : ℕ) → i < k + n → m2 (dst + i) ≡ m (src + i)
    ins i h = elim (dec_lt i k) [
      | yes a ↦ q.outside (dst + i) (omega arith) ∙ p.inside i a
      | no b ↦ at i (i - k) (omega arith) (omega arith)
    ]

    outs : (a : ℕ) → (a < dst) ⊎ (dst + (k + n) ≤ a) → m2 a ≡ m a
    outs a o = q.outside a (omega arith) ∙ p.outside a (omega arith)

pub Copied-zero : (m : Memory) (dst src : ℕ) → Copied m m dst src 0
Copied-zero m dst src = record { inside = λ i h. elim h [ ]; outside = λ a o. refl }

Copied-one : (m : Memory) (dst src : ℕ) → Copied m (update m dst (m src)) dst src 1
Copied-one m dst src = record { inside = λ i h. one i h; outside = λ a o. ground arith }
  where
    one : (i : ℕ) → i < 1 → update m dst (m src) (dst + i) ≡ m (src + i)
    one zero h = ground (arith, add-zero dst, add-zero src)
    one (suc i) h = absurd (omega arith)

Copied-four :
    (m : Memory) (dst src : ℕ)
    → Copied m (store4 m dst (m src) (m (src + 1)) (m (src + 2)) (m (src + 3))) dst src 4
Copied-four m dst src = record { inside = λ i h. four i h; outside = λ a o. ground arith }
  where
    four :
        (i : ℕ)
        → i < 4
        → store4 m dst (m src) (m (src + 1)) (m (src + 2)) (m (src + 3)) (dst + i) ≡ m (src + i)
    four zero h = ground (arith, add-zero dst, add-zero src)
    four (suc zero) h = ground arith
    four (suc (suc zero)) h = ground arith
    four (suc (suc (suc zero))) h = ground arith
    four (suc (suc (suc (suc i)))) h = absurd (omega arith)

copy_bytes-Copied :
    (n : ℕ) (m : Memory) (dst src : ℕ)
    → Upward dst src n
    → Copied m (copy_bytes n m dst src) dst src n
unfolding copy_bytes
copy_bytes-Copied zero m dst src up = Copied-zero m dst src
copy_bytes-Copied (suc n) m dst src up =
    subst (λ k. Copied m (copy_bytes (suc n) m dst src) dst src k) (one-add n)
      (Copied-split m (update m dst (m src)) _ dst src 1 n (omega arith) (Copied-one m dst src)
        (copy_bytes-Copied n (update m dst (m src)) (dst + 1) (src + 1) (omega arith)))
  where
    one-add : (n : ℕ) → 1 + n ≡ suc n
    one-add n = omega arith

copy_dwords-Copied :
    (n : ℕ) (m : Memory) (dst src : ℕ)
    → Upward dst src (4 * n)
    → Copied m (copy_dwords n m dst src) dst src (4 * n)
unfolding copy_dwords
copy_dwords-Copied zero m dst src up = Copied-zero m dst src
copy_dwords-Copied (suc n) m dst src up =
    subst (λ k. Copied m (copy_dwords (suc n) m dst src) dst src k) (four-add n)
      (Copied-split m (store4 m dst (m src) (m (src + 1)) (m (src + 2)) (m (src + 3))) _ dst src 4
        (4 * n) (omega arith) (Copied-four m dst src)
        (copy_dwords-Copied n _ (dst + 4) (src + 4) (omega arith)))
  where
    four-add : (n : ℕ) → 4 + 4 * n ≡ 4 * suc n
    four-add n = omega arith

memcpy_aligned-Copied :
    (n : ℕ) (m : Memory) (dst src : ℕ)
    → Upward dst src n
    → Copied m (memcpy_aligned n m dst src) dst src n
unfolding memcpy_aligned
memcpy_aligned-Copied n m dst src up =
    subst (λ k. Copied m (memcpy_aligned n m dst src) dst src k) (parts n)
      (Copied-split m (copy_dwords (n / 4) m dst src) _ dst src (4 * (n / 4)) (n % 4) (omega arith)
        (copy_dwords-Copied (n / 4) m dst src (omega arith))
        (copy_bytes-Copied (n % 4) _ (dst + 4 * (n / 4)) (src + 4 * (n / 4)) (omega arith)))
  where
    parts : (n : ℕ) → 4 * (n / 4) + n % 4 ≡ n
    parts n = omega arith

memcpy_top-Copied :
    (n : ℕ) (m : Memory) (dst src : ℕ)
    → Upward dst src n
    → Copied m (memcpy_top n m dst src) dst src n
unfolding memcpy_top
memcpy_top-Copied zero m dst src up = Copied-zero m dst src
memcpy_top-Copied (suc n) m dst src up = elim (Bool-cases (dst % 4 == 0)) [
  | inl aligned ↦ rw aligned (memcpy_aligned-Copied (suc n) m dst src up)
  | inr skew ↦ rw skew (
      subst (λ k. Copied m (memcpy_top n (update m dst (m src)) (dst + 1) (src + 1)) dst src k)
        (one-add n)
        (Copied-split m (update m dst (m src)) _ dst src 1 n (omega arith) (Copied-one m dst src)
          (memcpy_top-Copied n (update m dst (m src)) (dst + 1) (src + 1) (omega arith))))
]
  where
    one-add : (n : ℕ) → 1 + n ≡ suc n
    one-add n = omega arith

-- Whatever the alignment and the length, `memcpy` copies the `n` bytes at `src` to `dest` and changes
-- nothing else, if the blocks do not overlap or the destination is not above the source.
pub memcpy-Copied :
    (m : Memory) (dest src n : ℕ)
    → (dest ≤ src) ⊎ (src + n ≤ dest)
    → Copied m (memcpy m dest src n) dest src n
unfolding memcpy
memcpy-Copied m dest src n up = memcpy_top-Copied n m dest src up

-- The byte at the top, and then the others downwards.
Copied-below :
    (m m2 : Memory) (dst src n : ℕ)
    → src ≤ dst
    → Copied (update m (dst + n) (m (src + n))) m2 dst src n
    → Copied m m2 dst src (suc n)
Copied-below m m2 dst src n le c = record { inside = ins; outside = outs }
  where
    ins : (i : ℕ) → i < suc n → m2 (dst + i) ≡ m (src + i)
    ins i h = ground (arith, c.inside i, c.outside (dst + i))

    outs : (a : ℕ) → (a < dst) ⊎ (dst + suc n ≤ a) → m2 a ≡ m a
    outs a o = ground (arith, c.outside a)

copy_bytes_down-Copied :
    (n : ℕ) (m : Memory) (dst src d s : ℕ)
    → src ≤ dst
    → d ≡ dst + n - 1
    → s ≡ src + n - 1
    → Copied m (copy_bytes_down n m d s) dst src n
unfolding copy_bytes_down
copy_bytes_down-Copied zero m dst src d s le e f = Copied-zero m dst src
copy_bytes_down-Copied (suc n) m dst src d s le e f =
    let top : d ≡ dst + n = omega arith in
    let top' : s ≡ src + n = omega arith in
    rw (top, top')
      (Copied-below m _ dst src n le
        (copy_bytes_down-Copied n _ dst src (dst + n - 1) (src + n - 1) le refl refl))

-- `memmove` copies the `n` bytes at `src` to `dest` and changes nothing else, however the two blocks
-- overlap.
pub memmove-Copied : (m : Memory) (dest src n : ℕ) → Copied m (memmove m dest src n) dest src n
unfolding memmove
memmove-Copied m dest src n = elim (Bool-cases (leb dest src)) [
  | inl up ↦ rw up (copy_bytes-Copied n m dest src (inl (leb→le dest src up)))
  | inr down ↦
      rw down
        (copy_bytes_down-Copied n m dest src (dest + n - 1) (src + n - 1) (ground arith) refl refl)
]
