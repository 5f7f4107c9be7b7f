-- ===== src/Programs/Grep/Lines.antt =====
-- What syscalls/ece391grep.c writes of a line that has a match.
use Prim.Native.String.{String}
use lightweight_operating_sy.Prelude.{
  ℕ, ◌+◌, ◌-◌, ◌<◌, ◌≤◌, ◌≡◌, ◌⊎◌, inl, inr, refl, sym, ◌∙◌, arith, some, List, [], ◌∷◌, Memory,
  u32,
}
use lightweight_operating_sy.Programs.{System, ◌>>=◌, ◌>>◌}
use lightweight_operating_sy.Programs.Grep.{search_line, print_line}
use lightweight_operating_sy.Programs.Grep.Searching.{Occurs, search_line_lem}
use lightweight_operating_sy.Programs.Printing.{fdputs-write}
use lightweight_operating_sy.Str.Compare.{IsBytes}
use lightweight_operating_sy.Str.Length.{IsCString, strlen_iff}
use lightweight_operating_sy.Support.{ece391_strlen}
use lightweight_operating_sy.Support.Numbers.{ece391_strlen-strlen}

-- Where the memory of a program starts.
abbrev pub user_start : ℕ
user_start = 0x800_0000

-- A system on which a write of some bytes of a program's memory to descriptor 1 ends, and leaves the
-- program's memory alone, in every state that is ready for it, and it is ready again after it.
pub record IsWriting (S : System) : Type 1 where
  pub Ready : S.State → Type 0
  pub writes :
      (a n : ℕ) (st : S.State)
      → Ready st
      → user_start ≤ a
      → 0 < n
      → (st' : S.State) × (r : ℕ) × (S.write 1 a n st ≡ some (r, st'))
        × Ready st'
        × ((x : ℕ) → user_start ≤ x → S.mem st' x ≡ S.mem st x)

-- From one state to the other, the strings of these addresses and lengths are written to descriptor 1,
-- in order, and nothing else is done.
module _ (S : System) where
  unfoldable pub Written : List (ℕ × ℕ) → S.State → S.State → Type 0
  Written [] st st' = st' ≡ st
  Written ((a, n) ∷ rest) st st' =
      (st1 : S.State) × (r : ℕ) × (S.write 1 a n st ≡ some (r, st1)) × Written rest st1 st'

kept-IsCString :
    (m m' : Memory) (a n : ℕ)
    → user_start ≤ a
    → ((x : ℕ) → user_start ≤ x → m' x ≡ m x)
    → IsCString m a n
    → IsCString m' a n
kept-IsCString m m' a n h kept c = record {
  filled = λ i lt z. c.filled i lt (sym (kept (a + i) (omega arith)) ∙ z);
  ended = kept (a + n) (omega arith) ∙ c.ended;
}

-- A C string in the program's memory that is not empty and shorter than the fuel.
unfoldable pub IsText : ℕ → Memory → ℕ → ℕ → Type 0
IsText fuel m a n = IsCString m a n × (user_start ≤ a) × (0 < n) × (n < fuel)

kept-IsText :
    (fuel : ℕ) (m m' : Memory) (a n : ℕ)
    → ((x : ℕ) → user_start ≤ x → m' x ≡ m x)
    → IsText fuel m a n
    → IsText fuel m' a n
unfolding IsText
kept-IsText fuel m m' a n kept (c, at, pos, short) =
    (kept-IsCString m m' a n at kept c, at, pos, short)

text-strlen :
    (fuel : ℕ) (m : Memory) (a n : ℕ) → IsText fuel m a n → ece391_strlen fuel m a ≡ some n
unfolding IsText
text-strlen fuel m a n (c, at, pos, short) =
    ece391_strlen-strlen fuel m a ∙ (strlen_iff fuel m a n).1 (c, short)

module _ (S : System) (W : IsWriting S) (text : String → ℕ) (lib_fuel : ℕ) where
  print_line-Written :
      (fname name_len line line_len : ℕ) (st : S.State)
      → W.Ready st
      → IsText lib_fuel (S.mem st) fname name_len
      → IsText lib_fuel (S.mem st) (text ":") 1
      → IsText lib_fuel (S.mem st) line line_len
      → IsText lib_fuel (S.mem st) (text "\n") 1
      → (st' : S.State) × (print_line S text lib_fuel fname line st ≡ some (tt, st'))
        × Written S
            ((fname, name_len) ∷ (text ":", 1) ∷ (line, line_len) ∷ (text "\n", 1) ∷ [])
            st
            st'
  unfolding print_line Written IsText
  print_line-Written fname name_len line line_len st ready n c l e =
      let (_, n_at, n_pos, _) = n in
      let (_, c_at, c_pos, _) = c in
      let (_, l_at, l_pos, _) = l in
      let (_, e_at, e_pos, _) = e in
      let (s1, r1, w1, ready1, k1) = W.writes fname name_len st ready n_at n_pos in
      let c1 = kept-IsText lib_fuel (S.mem st) (S.mem s1) (text ":") 1 k1 c in
      let l1 = kept-IsText lib_fuel (S.mem st) (S.mem s1) line line_len k1 l in
      let e1 = kept-IsText lib_fuel (S.mem st) (S.mem s1) (text "\n") 1 k1 e in
      let (s2, r2, w2, ready2, k2) = W.writes (text ":") 1 s1 ready1 c_at c_pos in
      let l2 = kept-IsText lib_fuel (S.mem s1) (S.mem s2) line line_len k2 l1 in
      let e2 = kept-IsText lib_fuel (S.mem s1) (S.mem s2) (text "\n") 1 k2 e1 in
      let (s3, r3, w3, ready3, k3) = W.writes line line_len s2 ready2 l_at l_pos in
      let e3 = kept-IsText lib_fuel (S.mem s2) (S.mem s3) (text "\n") 1 k3 e2 in
      let (s4, r4, w4, ready4, k4) = W.writes (text "\n") 1 s3 ready3 e_at e_pos in
      let p1 =
        fdputs-write S lib_fuel fname name_len r1 st s1
          (text-strlen lib_fuel (S.mem st) fname name_len n) w1 in
      let p2 =
        fdputs-write S lib_fuel (text ":") 1 r2 s1 s2
          (text-strlen lib_fuel (S.mem s1) (text ":") 1 c1) w2 in
      let p3 =
        fdputs-write S lib_fuel line line_len r3 s2 s3
          (text-strlen lib_fuel (S.mem s2) line line_len l2) w3 in
      let p4 =
        fdputs-write S lib_fuel (text "\n") 1 r4 s3 s4
          (text-strlen lib_fuel (S.mem s3) (text "\n") 1 e3) w4 in
      (
        s4,
        rw (◌>>◌, ◌>>=◌, p1, p2, p3, p4) refl,
        (s1, r1, w1, (s2, r2, w2, (s3, r3, w3, (s4, r4, w4, refl)))),
      )

  -- In memory of bytes, for a pattern of `n` characters, at least one and the first of them ASCII, an
  -- array of 1025 bytes below 4 GB and more fuel than characters are left, on a system as `IsWriting`
  -- states, with the file's name, ":", the line and the line end as C strings in the program's memory: the
  -- search ends. If the pattern occurs at one of the characters from `check` on, it has written the name,
  -- ":", the line and a line end to descriptor 1, once and in this order; if it does at none, it has done
  -- nothing.
  pub search_line_writes :
      (s n fname name_len array line_start line_end fuel check : ℕ) (st : S.State)
      → IsBytes (S.mem st)
      → IsCString (S.mem st) s n
      → 0 < n
      → S.mem st s < 0x80
      → array + 1025 < 0x1_0000_0000
      → line_end ≤ 1024
      → line_start ≤ line_end
      → check ≤ line_end
      → line_end - check < fuel
      → W.Ready st
      → IsText lib_fuel (S.mem st) fname name_len
      → IsText lib_fuel (S.mem st) (text ":") 1
      → IsText lib_fuel (S.mem st) (array + line_start) (line_end - line_start)
      → IsText lib_fuel (S.mem st) (text "\n") 1
      → let run = search_line S text lib_fuel fuel s n fname array line_start line_end check st in
        ((p : ℕ) × (st' : S.State) × (check ≤ p)
          × (p < line_end)
          × Occurs (S.mem st) s n (array + p)
          × (run ≡ some (tt, st'))
          × Written S
              ((fname, name_len)
                ∷ (text ":", 1)
                ∷ (array + line_start, line_end - line_start)
                ∷ (text "\n", 1)
                ∷ [])
              st
              st')
        ⊎ (((p : ℕ) → check ≤ p → p < line_end → ¬ Occurs (S.mem st) s n (array + p))
            × (run ≡ some (tt, st)))
  search_line_writes s n fname name_len array line_start line_end fuel check st bytes pattern
        some_char ascii room small start le h ready name colon line end =
      let at : u32 (array + line_start) ≡ array + line_start = omega arith in
      elim (search_line_lem S text lib_fuel s n fname array line_start line_end fuel check st bytes
        pattern some_char ascii room small le h) [
          | inl (p, lo, hi, occurs, run) ↦
              let (st', printed, written) =
                print_line-Written fname name_len (array + line_start) (line_end - line_start) st
                  ready name colon line end in
              inl (p, st', lo, hi, occurs, run ∙ rw at printed, written)
          | inr nothing ↦ inr nothing
        ]
