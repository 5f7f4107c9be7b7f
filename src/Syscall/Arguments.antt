-- ===== src/Syscall/Arguments.antt =====
-- What `getargs` of src/sys_calls.c hands over.
use native.Mathlib.Nat.{zero-add}
use lightweight_operating_sy.Prelude.{
  ℕ, zero, suc, ◌+◌, ◌<◌, ◌≤◌, ◌≡◌, ◌≢◌, ◌⊎◌, inl, inr, refl, sym, subst, ap, ◌∙◌, arith, ◌||◌,
  Memory, update, update_self, update_ne, slt, ◌==◌, ==_iff, Bool-cases, minus_one,
}
use lightweight_operating_sy.Str.Length.{IsCString}
use lightweight_operating_sy.Process.{args_buffer_size}
use lightweight_operating_sy.Kernel.{Kernel, current_block}
use lightweight_operating_sy.FileDriver.{with_memory}
use lightweight_operating_sy.Syscall.{returned, getargs, copy_args}

-- `m'` is `m` with the characters of the string `args` of length `n` from `i` on, and its NUL, at the
-- same places from `buf` on, as far as `stop`.
pub record Handed (m m' : Memory) (args : Memory) (n buf i stop : ℕ) : Type 0 where
  pub inside : (j : ℕ) → i ≤ j → j < stop → j ≤ n → m' (buf + j) ≡ args j
  pub outside : (a : ℕ) → (a < buf + i) ⊎ ((buf + stop ≤ a) ⊎ (buf + n < a)) → m' a ≡ m a

pub copy_args-Handed :
    (left i : ℕ) (args : Memory) (n buf : ℕ) (m : Memory)
    → IsCString args 0 n
    → i ≤ n
    → Handed m (copy_args left i args buf m) args n buf i (i + left)
unfolding copy_args
copy_args-Handed zero i args n buf m c le = record {
  inside = λ j p q r. absurd (omega arith);
  outside = λ a o. refl;
}
copy_args-Handed (suc left) i args n buf m c le = elim (Bool-cases (args i == 0)) [
  | inl z ↦
      let nul : args i ≡ 0 = (==_iff (args i) 0).0 z in
      let last : i ≡ n = ground (arith, le, filled i) in
      rw z (record {
        inside = λ j p q r. here j (omega arith) nul;
        outside = λ a o. update_ne m (buf + i) a 0 (λ e. omega arith);
      })
  | inr nz ↦
      let more : i < n = ground (arith, le, ended) in
      let rest =
        copy_args-Handed left (i + 1) args n buf (update m (buf + i) (args i)) c (omega arith) in
      rw nz (record {
        inside = λ j p q r. ground (arith, rest.inside j, rest.outside (buf + j));
        outside = λ a o.
            rest.outside a (omega arith) ∙ update_ne m (buf + i) a (args i) (λ e. omega arith);
      })
]
  where
    filled : (j : ℕ) → j < n → args j ≢ 0
    filled j lt z = c.filled j lt (ap args (omega arith) ∙ z)

    ended : args n ≡ 0
    ended = ap args (omega arith) ∙ c.ended

    here : (j : ℕ) → j ≡ i → args i ≡ 0 → update m (buf + i) 0 (buf + j) ≡ args j
    here j same nul = rw same (update_self m (buf + i) 0 ∙ sym nul)

-- `getargs` refuses a null buffer, a negative count, one above 1024 and an empty argument string with
-- -1 and changes nothing. Otherwise, for an argument string of `n` characters, it returns 0, and the
-- first `nbytes` of the string and its NUL are in the buffer, with no other byte changed.
pub getargs-Handed :
    (buf nbytes n : ℕ) (k : Kernel)
    → IsCString (current_block k).args 0 n
    → nbytes < 0x1_0000_0000
    → (((buf ≡ 0) ⊎ ((1024 < nbytes) ⊎ (n ≡ 0))) × (getargs buf nbytes k ≡ returned minus_one k))
      ⊎ ((buf ≢ 0)
          × (nbytes ≤ 1024)
          × (0 < n)
          × ((k' : Kernel) × (getargs buf nbytes k ≡ returned 0 k')
              × (k'.processes ≡ k.processes)
              × Handed k.display.mem k'.display.mem (current_block k).args n buf 0 nbytes))
unfolding getargs
getargs-Handed buf nbytes n k c word = elim (Bool-cases (buf == 0)) [
  | inl e ↦ inl (inl (ground arith), rw e refl)
  | inr e ↦ elim (Bool-cases (slt nbytes 0 || slt args_buffer_size nbytes)) [
    | inl e' ↦ inl (inr (inl (ground (arith, word))), rw (e, e') refl)
    | inr e' ↦ elim (Bool-cases ((current_block k).args 0 == 0)) [
      | inl e'' ↦ inl (inr (inr (ground (arith, c.filled 0))), rw (e, e', e'') refl)
      | inr e'' ↦
          let some_left : 0 < n = ground (arith, c.ended) in
          inr (
            (λ z. ground arith),
            ground (arith, word),
            some_left,
            (with_memory k m', rw (e, e', e'') refl, refl, from_start),
          )
    ]
  ]
]
  where
    args : Memory
    args = (current_block k).args

    m' : Memory
    m' = copy_args nbytes 0 args buf k.display.mem

    from_start : Handed k.display.mem m' args n buf 0 nbytes
    from_start =
        subst (λ (stop : ℕ). Handed k.display.mem m' args n buf 0 stop) (zero-add nbytes)
          (copy_args-Handed nbytes 0 args n buf k.display.mem c (omega arith))
