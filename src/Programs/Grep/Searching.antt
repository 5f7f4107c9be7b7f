-- ===== src/Programs/Grep/Searching.antt =====
-- The search of one line by syscalls/ece391grep.c.
use Prim.Native.String.{String}
use lightweight_operating_sy.Prelude.{
  ℕ, zero, suc, ◌+◌, ◌-◌, ◌<◌, ◌≤◌, ◌≡◌, ◌↔◌, ◌⊎◌, inl, inr, refl, sym, ap, ◌∙◌, arith, true, some,
  ◌==◌, ==_iff, Bool-cases, slt, u32, Memory, ◌&&◌, ℕ_discrete,
}
use lightweight_operating_sy.Programs.{System, ◌>>=◌}
use lightweight_operating_sy.Programs.Grep.{search_line, print_line}
use lightweight_operating_sy.Str.{promote}
use lightweight_operating_sy.Str.Compare.{Agree, IsBytes, strncmp_iff}
use lightweight_operating_sy.Str.Length.{IsCString}
use lightweight_operating_sy.Support.{ece391_strncmp}
use lightweight_operating_sy.Support.Compare.{ece391_strncmp-strncmp, other_chars, first_char}

-- The `n` characters at `s` are also at `at`.
pub Occurs : Memory → ℕ → ℕ → ℕ → Type 0
Occurs m s n at = (i : ℕ) → i < n → m (at + i) ≡ m (s + i)

-- For a string without its NUL, agreement is occurrence.
Agree-Occurs : (m : Memory) (s n at : ℕ) → IsCString m s n → Agree m at s n → Occurs m s n at
unfolding Agree Occurs
Agree-Occurs m s zero at c a i h = absurd (omega arith)
Agree-Occurs m s (suc n) at c a zero h = ap m (omega arith) ∙ a.0 ∙ ap m (omega arith)
Agree-Occurs m s (suc n) at c a (suc i) h =
    ap m (omega arith)
    ∙ Agree-Occurs m (s + 1) n (at + 1) (other_chars m s n c)
        (a.1 (λ z. first_char m s n c (sym a.0 ∙ z))) i (omega arith)
    ∙ ap m (omega arith)

Occurs-Agree : (m : Memory) (s n at : ℕ) → Occurs m s n at → Agree m at s n
unfolding Agree Occurs
Occurs-Agree m s zero at o = tt
Occurs-Agree m s (suc n) at o = (
  ap m (omega arith) ∙ o 0 (omega arith) ∙ ap m (omega arith),
  λ ne.
      Occurs-Agree m (s + 1) n (at + 1)
        (λ i h. ap m (omega arith) ∙ o (i + 1) (omega arith) ∙ ap m (omega arith)),
)

promote_ascii : (c : ℕ) → c < 0x80 → promote c ≡ c
promote_ascii c h = ground arith

matches_iff :
    (m : Memory) (s n at : ℕ)
    → IsBytes m
    → IsCString m s n
    → 0 < n
    → m s < 0x80
    → ((promote (m s) == m at) && (ece391_strncmp m at s n == 0) ≡ true) ↔ Occurs m s n at
unfolding Occurs
matches_iff m s n at bytes c some_char ascii =
    let plain : promote (m s) ≡ m s = promote_ascii (m s) ascii in
    let user = ece391_strncmp-strncmp m bytes at s n in
    let kernel = strncmp_iff m bytes at s n in
    (
      λ h. Agree-Occurs m s n at c (kernel.0 (user.0 (ground arith))),
      λ o.
          let first : (m s == m at) ≡ true =
            (==_iff _ _).1 (ap m (omega arith) ∙ sym (o 0 some_char) ∙ ap m (omega arith)) in
          let same : (ece391_strncmp m at s n == 0) ≡ true =
            (==_iff _ 0).1 (user.1 (kernel.1 (Occurs-Agree m s n at o))) in
          rw (plain, first, same) refl,
    )

module _ (S : System) (text : String → ℕ) (lib_fuel s n fname array line_start line_end : ℕ) where
  -- In memory of bytes, for a pattern of `n` characters, at least one and the first of them ASCII, an
  -- array of 1025 bytes below 4 GB and more fuel than characters are left: if the pattern occurs at one of the characters from `check`
  -- on, `search_line` prints the line once; if it does at none, it prints nothing. Either way it ends
  -- there.
  pub search_line_lem :
      (fuel check : ℕ) (st : S.State)
      → IsBytes (S.mem st)
      → IsCString (S.mem st) s n
      → 0 < n
      → S.mem st s < 0x80
      → array + 1025 < 0x1_0000_0000
      → line_end ≤ 1024
      → check ≤ line_end
      → line_end - check < fuel
      → let run = search_line S text lib_fuel fuel s n fname array line_start line_end check st in
        ((p : ℕ) × (check ≤ p)
          × (p < line_end)
          × Occurs (S.mem st) s n (array + p)
          × (run ≡ print_line S text lib_fuel fname (u32 (array + line_start)) st))
        ⊎ (((p : ℕ) → check ≤ p → p < line_end → ¬ Occurs (S.mem st) s n (array + p))
            × (run ≡ some (tt, st)))
  unfolding search_line
  search_line_lem zero check st bytes c some_char ascii room small le h = elim h [ ]
  search_line_lem (suc fuel) check st bytes c some_char ascii room small le h =
      let m = S.mem st in
      let at : u32 (array + check) ≡ array + check = omega arith in
      let next : u32 (check + 1) ≡ check + 1 = omega arith in
      elim (Bool-cases (slt check line_end)) [
        | inr past ↦ inr ((λ p lo hi. absurd (ground arith)), rw past refl)
        | inl before ↦
            let left : check < line_end = ground arith in
            elim (Bool-cases (
              (promote (m s) == m (array + check))
              && (ece391_strncmp m (array + check) s n == 0))) [
                | inl hit ↦ inl (
                  check,
                  omega arith,
                  left,
                  (matches_iff m s n (array + check) bytes c some_char ascii).0 hit,
                  rw (before, ◌>>=◌, at, hit) refl,
                )
                | inr miss ↦
                    let here : ¬ Occurs m s n (array + check) = λ o.
                      let hit = (matches_iff m s n (array + check) bytes c some_char ascii).1 o in
                      cc in
                    elim (search_line_lem fuel (check + 1) st bytes c some_char ascii room small
                      (omega arith) (omega arith)) [
                        | inl (p, lo, hi, o, run) ↦
                            inl (p, omega arith, hi, o, rw (before, ◌>>=◌, at, miss, next) run)
                        | inr (none_later, run) ↦ inr (
                          (λ p lo hi o. elim (ℕ_discrete p check) [
                            | yes e ↦ here (rw (← e) o)
                            | no ne ↦ none_later p (omega arith) hi o
                          ]),
                          rw (before, ◌>>=◌, at, miss, next) run,
                        )
                      ]
              ]
      ]
