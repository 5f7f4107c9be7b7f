-- ===== src/Str/Reverse.antt =====
-- `strrev` reverses a C string in place.
use lightweight_operating_sy.Prelude.{
  ℕ, zero, suc, ◌+◌, ◌-◌, ◌<◌, ◌≤◌, ◌≡◌, refl, some, arith, Memory, ltb, update, Bool-cases, inl,
  inr, ◌⊎◌, ap, ◌∙◌, sym, tests, ltb→lt,
}
use lightweight_operating_sy.Str.{strrev, strrev_loop}
use lightweight_operating_sy.Str.Length.{IsCString, strlen-IsCString}

-- `m'` has the bytes of `m` with positions `beg` to `end` mirrored, and is equal elsewhere.
record Mirrored (m m' : Memory) (s beg end : ℕ) : Type 0 where
  inside : (i : ℕ) → beg ≤ i → i ≤ end → m' (s + i) ≡ m (s + (beg + end - i))
  outside : (a : ℕ) → (a < s + beg) ⊎ (s + end < a) → m' a ≡ m a

abbrev swapped : Memory → ℕ → ℕ → ℕ → Memory
swapped m s beg end = update (update m (s + end) (m (s + beg))) (s + beg) (m (s + end))

-- One swap, and then the mirror of what lies between.
swapped-Mirrored :
    (m m' : Memory) (s beg end : ℕ)
    → beg < end
    → Mirrored (swapped m s beg end) m' s (beg + 1) (end - 1)
    → Mirrored m m' s beg end
swapped-Mirrored m m' s beg end h k = record { inside = inside_lem; outside = outside_lem }
  where
    same : (i : ℕ) → beg + 1 + (end - 1) - i ≡ beg + end - i
    same i = omega arith

    inside_lem : (i : ℕ) → beg ≤ i → i ≤ end → m' (s + i) ≡ m (s + (beg + end - i))
    inside_lem i p q = ground (arith, k.inside i, k.outside (s + i), same i)

    outside_lem : (a : ℕ) → (a < s + beg) ⊎ (s + end < a) → m' a ≡ m a
    outside_lem a o = ground (arith, k.outside a)

strrev_loop-Mirrored :
    (fuel : ℕ) (m : Memory) (s beg end : ℕ)
    → end ≤ beg + fuel
    → Mirrored m (strrev_loop fuel m s beg end) s beg end
unfolding strrev_loop
strrev_loop-Mirrored zero m s beg end h = record {
  inside = λ i p q. ap (λ k. m (s + k)) (omega arith);
  outside = λ a o. refl;
}
strrev_loop-Mirrored (suc fuel) m s beg end h = elim (Bool-cases (ltb beg end)) [
  | inl lt ↦ rw lt (
      swapped-Mirrored m _ s beg end (ltb→lt beg end lt)
        (strrev_loop-Mirrored fuel (swapped m s beg end) s (beg + 1) (end - 1) (omega tests)))
  | inr ge ↦
      rw ge (record { inside = λ i p q. ap (λ k. m (s + k)) (ground arith); outside = λ a o. refl })
]

-- The loop on a string of `n` characters.
record Reversed (m m' : Memory) (s n : ℕ) : Type 0 where
  inside : (i : ℕ) → i < n → m' (s + i) ≡ m (s + (n - 1 - i))
  outside : (a : ℕ) → (a < s) ⊎ (s + n ≤ a) → m' a ≡ m a

strrev_loop-Reversed : (m : Memory) (s n : ℕ) → Reversed m (strrev_loop n m s 0 (n - 1)) s n
unfolding strrev_loop
strrev_loop-Reversed m s zero = record { inside = λ i p. elim p [ ]; outside = λ a o. refl }
strrev_loop-Reversed m s (suc n) = record {
  inside = λ i p. mir.inside i (omega arith) (omega arith) ∙ ap (λ k. m (s + k)) (omega arith);
  outside = λ a o. mir.outside a (omega arith);
}
  where
    mir : Mirrored m (strrev_loop (suc n) m s 0 (suc n - 1)) s 0 (suc n - 1)
    mir = strrev_loop-Mirrored (suc n) m s 0 (suc n - 1) (omega arith)

Reversed-IsCString :
    {m m' : Memory} {s n : ℕ} → IsCString m s n → Reversed m m' s n → IsCString m' s n
Reversed-IsCString {m} {m'} {s} {n} c r = record {
  filled = λ i p z. c.filled (n - 1 - i) (omega arith) (sym (r.inside i p) ∙ z);
  ended = r.outside (s + n) (omega arith) ∙ c.ended;
}

-- `strrev` on a C string of `n` characters, with more fuel than that, ends; it leaves a C string of
-- `n` characters in the opposite order, and changes no byte outside those `n`.
pub strrev_reverses :
    (fuel : ℕ) (m : Memory) (s n : ℕ)
    → IsCString m s n
    → n < fuel
    → (m' : Memory) × (strrev fuel m s ≡ some m')
      × ((i : ℕ) → i < n → m' (s + i) ≡ m (s + (n - 1 - i)))
      × ((a : ℕ) → (a < s) ⊎ (s + n ≤ a) → m' a ≡ m a)
      × IsCString m' s n
unfolding strrev
strrev_reverses fuel m s n c h =
    let r = strrev_loop-Reversed m s n in
    (
      strrev_loop n m s 0 (n - 1),
      rw (strlen-IsCString fuel m s n c h, strrev),
      r.inside,
      r.outside,
      Reversed-IsCString c r,
    )
