-- ===== src/Support/Compare.antt =====
-- The library's comparisons.
use lightweight_operating_sy.Prelude.{
  ℕ, zero, suc, ◌+◌, ◌<◌, ◌≡◌, ◌≢◌, ◌↔◌, inl, inr, refl, sym, ap, ◌∙◌, arith, Memory, some,
  Bool-cases, ◌==◌, ==_iff, ==_ne, false, sub32,
}
use lightweight_operating_sy.Str.{strncmp}
use lightweight_operating_sy.Str.Length.{IsCString}
use lightweight_operating_sy.Str.Compare.{IsBytes, Agree, strncmp_iff}
use lightweight_operating_sy.Support.{ece391_strcmp, ece391_strncmp, ece391_strncmp_loop}

-- The loop returns 0 exactly when the strings agree on `n` characters or up to a common NUL.
strncmp_loop_iff :
    (m : Memory) → IsBytes m → (s1 s2 n : ℕ) → (ece391_strncmp_loop n m s1 s2 ≡ 0) ↔ Agree m s1 s2 n
unfolding ece391_strncmp_loop Agree
strncmp_loop_iff m bytes s1 s2 zero = (λ h. tt, λ h. refl)
strncmp_loop_iff m bytes s1 s2 (suc zero) =
    (λ h. (ground (arith, bytes s1, bytes s2), λ ne. tt), λ h. ground (arith, h.0))
strncmp_loop_iff m bytes s1 s2 (suc (suc n)) =
    let ih = strncmp_loop_iff m bytes (s1 + 1) (s2 + 1) (suc n) in
    (
      λ h. (ground (arith, bytes s1, bytes s2), λ ne. ih.0 (ground (arith, bytes s1, bytes s2))),
      λ h. ground (arith, ih.1, h.1),
    )

strncmp-loop : (m : Memory) (s1 s2 n : ℕ) → ece391_strncmp m s1 s2 n ≡ ece391_strncmp_loop n m s1 s2
unfolding ece391_strncmp ece391_strncmp_loop
strncmp-loop m s1 s2 zero = refl
strncmp-loop m s1 s2 (suc n) = rw (==_ne (suc n) 0 (omega arith)) refl

-- In memory of bytes, the library's `strncmp` and the kernel's return 0 for the same strings and lengths.
pub ece391_strncmp-strncmp :
    (m : Memory)
    → IsBytes m
    → (s1 s2 n : ℕ) → (ece391_strncmp m s1 s2 n ≡ 0) ↔ (strncmp m s1 s2 n ≡ 0)
ece391_strncmp-strncmp m bytes s1 s2 n =
    let kernel = strncmp_iff m bytes s1 s2 n in
    let user = strncmp_loop_iff m bytes s1 s2 n in
    let same = strncmp-loop m s1 s2 n in
    (λ h. kernel.1 (user.0 (sym same ∙ h)), λ h. same ∙ user.1 (kernel.0 h))

pub first_char : (m : Memory) (s n : ℕ) → IsCString m s (suc n) → m s ≢ 0
first_char m s n c e = c.filled 0 (omega arith) (ap m (omega arith) ∙ e)

no_char : (m : Memory) (s : ℕ) → IsCString m s zero → m s ≡ 0
no_char m s c = ap m (omega arith) ∙ c.ended

pub other_chars : (m : Memory) (s n : ℕ) → IsCString m s (suc n) → IsCString m (s + 1) n
other_chars m s n c = record {
  filled = λ i h e. c.filled (i + 1) (omega arith) (ap m (omega arith) ∙ e);
  ended = ap m (omega arith) ∙ c.ended;
}

-- The same length and the same characters.
abbrev pub Same : Memory → ℕ → ℕ → ℕ → ℕ → Type 0
Same m s1 s2 n1 n2 = (n1 ≡ n2) × ((i : ℕ) → i < n1 → m (s1 + i) ≡ m (s2 + i))

Same-suc :
    (m : Memory) (s1 s2 n1 n2 : ℕ)
    → m s1 ≡ m s2
    → Same m (s1 + 1) (s2 + 1) n1 n2
    → Same m s1 s2 (suc n1) (suc n2)
Same-suc m s1 s2 n1 n2 e (lengths, chars) = (ap (λ (n : ℕ). suc n) lengths, all)
  where
    all : (i : ℕ) → i < suc n1 → m (s1 + i) ≡ m (s2 + i)
    all zero h = ap m (omega arith) ∙ e ∙ ap m (omega arith)
    all (suc i) h = ap m (omega arith) ∙ chars i (omega arith) ∙ ap m (omega arith)

Same-tail :
    (m : Memory) (s1 s2 n1 n2 : ℕ) → Same m s1 s2 (suc n1) (suc n2) → Same m (s1 + 1) (s2 + 1) n1 n2
Same-tail m s1 s2 n1 n2 (lengths, chars) = (
  omega (arith, lengths),
  λ i h. ap m (omega arith) ∙ chars (i + 1) (omega arith) ∙ ap m (omega arith),
)

differ : (m : Memory) (s1 s2 : ℕ) → IsBytes m → m s1 ≢ m s2 → sub32 (m s1) (m s2) ≢ 0
differ m s1 s2 bytes ne e = ne (omega (arith, bytes s1, bytes s2, e))

-- What `strcmp` owes to two strings.
abbrev Compares : ℕ → Memory → ℕ → ℕ → ℕ → ℕ → Type 0
Compares fuel m s1 s2 n1 n2 =
    (v : ℕ) × (ece391_strcmp fuel m s1 s2 ≡ some v) × ((v ≡ 0) ↔ Same m s1 s2 n1 n2)

stops :
    (fuel : ℕ) (m : Memory) (s1 s2 n1 n2 : ℕ)
    → IsBytes m
    → m s1 ≢ m s2
    → ¬ Same m s1 s2 n1 n2
    → Compares (suc fuel) m s1 s2 n1 n2
unfolding ece391_strcmp
stops fuel m s1 s2 n1 n2 bytes ne other = (
  sub32 (m s1) (m s2),
  rw (==_ne (m s1) (m s2) ne) refl,
  ((λ e. absurd (differ m s1 s2 bytes ne e)), (λ h. absurd (other h))),
)

-- With more fuel than the first string is long, `strcmp` ends, and it returns 0 exactly when the two C
-- strings have the same length and the same characters.
pub ece391_strcmp_iff :
    (fuel : ℕ) (m : Memory) (s1 s2 n1 n2 : ℕ)
    → IsBytes m
    → IsCString m s1 n1
    → IsCString m s2 n2
    → n1 < fuel
    → (v : ℕ) × (ece391_strcmp fuel m s1 s2 ≡ some v) × ((v ≡ 0) ↔ Same m s1 s2 n1 n2)
unfolding ece391_strcmp
ece391_strcmp_iff zero m s1 s2 n1 n2 bytes c1 c2 enough = absurd (omega arith)
ece391_strcmp_iff (suc fuel) m s1 s2 zero zero bytes c1 c2 enough = (
  0,
  rw (no_char m s1 c1, no_char m s2 c2) refl,
  ((λ e. (refl, λ i h. absurd (omega arith))), (λ h. refl)),
)
ece391_strcmp_iff (suc fuel) m s1 s2 zero (suc n2) bytes c1 c2 enough =
    stops fuel m s1 s2 zero (suc n2) bytes (λ e. first_char m s2 n2 c2 (sym e ∙ no_char m s1 c1))
      (λ h. absurd (omega (arith, h.0)))
ece391_strcmp_iff (suc fuel) m s1 s2 (suc n1) zero bytes c1 c2 enough =
    stops fuel m s1 s2 (suc n1) zero bytes (λ e. first_char m s1 n1 c1 (e ∙ no_char m s2 c2))
      (λ h. absurd (omega (arith, h.0)))
ece391_strcmp_iff (suc fuel) m s1 s2 (suc n1) (suc n2) bytes c1 c2 enough =
    elim (Bool-cases (m s1 == m s2)) [
      | inl eq ↦
          let e : m s1 ≡ m s2 = (==_iff (m s1) (m s2)).0 eq in
          let more : (m s1 == 0) ≡ false = ==_ne (m s1) 0 (first_char m s1 n1 c1) in
          let (v, ends, zero_iff) =
            ece391_strcmp_iff fuel m (s1 + 1) (s2 + 1) n1 n2 bytes (other_chars m s1 n1 c1)
              (other_chars m s2 n2 c2) (omega arith) in
          (
            v,
            rw (eq, more) ends,
            (
              (λ h. Same-suc m s1 s2 n1 n2 e (zero_iff.0 h)),
              (λ h. zero_iff.1 (Same-tail m s1 s2 n1 n2 h)),
            ),
          )
      | inr apart ↦
          let ne : m s1 ≢ m s2 = λ e. ground arith in
          stops fuel m s1 s2 (suc n1) (suc n2) bytes ne
            (λ h. ne (ap m (omega arith) ∙ h.1 0 (omega arith) ∙ ap m (omega arith)))
    ]
