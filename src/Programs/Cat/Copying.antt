-- ===== src/Programs/Cat/Copying.antt =====
-- The loop of syscalls/ece391cat.c over any system whose descriptor gives a sequence of bytes.
use Prim.Native.String.{String}
use lightweight_operating_sy.Prelude.{
  subst, ℕ, zero, suc, ◌+◌, ◌<◌, ◌≤◌, ◌≡◌, ◌≢◌, ◌⊎◌, inl, inr, refl, sym, ap, ◌∙◌, arith, false,
  some, List, [], ◌++◌, ◌==◌, ==_ne, length, length-append, minus_one, Memory,
}
use lightweight_operating_sy.FileDriver.ToEnd.{bytes_at}
use lightweight_operating_sy.Programs.{System, ◌>>=◌}
use lightweight_operating_sy.Programs.Cat.{cat, cat_loop}

pub length-bytes_at : (m : Memory) (a n : ℕ) → length (bytes_at m a n) ≡ n
unfolding bytes_at
length-bytes_at m a zero = refl
length-bytes_at m a (suc n) = ap suc (length-bytes_at m (a + 1) n)

-- While it is ready, the descriptor has bytes left to give, in reads of at most 1024 into the array, and
-- what is written to descriptor 1 is put out; `Out` relates the states that some bytes put out lie between.
pub record IsStream (S : System) (fd buf : ℕ) : Type 1 where
  pub Ready : S.State → Type 0
  pub left : S.State → List ℕ
  pub Out : List ℕ → S.State → S.State → Type 0
  pub joins : (a b : List ℕ) (s s1 s2 : S.State) → Out a s s1 → Out b s1 s2 → Out (a ++ b) s s2
  pub ends :
      (s : S.State)
      → Ready s
      → ((s' : S.State) × (S.read fd buf 1024 s ≡ some (0, s')) × (left s ≡ []) × Out [] s s')
        ⊎ ((n : ℕ) × (s' : S.State) × (S.read fd buf 1024 s ≡ some (n, s'))
            × (0 < n)
            × (n ≤ 1024)
            × (left s ≡ bytes_at (S.mem s') buf n ++ left s')
            × Out [] s s'
            × Ready s')
  pub writes :
      (n : ℕ) (s : S.State)
      → Ready s
      → 0 < n
      → n ≤ 1024
      → (s' : S.State) × (S.write 1 buf n s ≡ some (n, s'))
        × Out (bytes_at (S.mem s) buf n) s s'
        × (left s' ≡ left s)
        × Ready s'

module _ (S : System) (text : String → ℕ) (lib_fuel fd buf : ℕ) (I : IsStream S fd buf) where
  -- With more fuel than bytes are left, the loop ends with status 0 and has put out all of them in order.
  pub cat_loop_lem :
      (fuel : ℕ) (s : S.State)
      → I.Ready s
      → length (I.left s) < fuel
      → (s' : S.State) × (cat_loop S text lib_fuel fuel fd buf s ≡ some (0, s'))
        × I.Out (I.left s) s s'
  unfolding cat_loop
  cat_loop_lem zero s ready h = elim h [ ]
  cat_loop_lem (suc fuel) s ready h = elim (I.ends s ready) [
    | inl (s', e, done, same) ↦
        (s', rw (e, ◌>>=◌) refl, subst (λ (t : List ℕ). I.Out t s s') (sym done) same)
    | inr (n, s1, e, positive, small, split, same, ready1) ↦
        let (s2, w, out, kept, ready2) = I.writes n s1 ready1 positive small in
        let shorter : length (I.left s2) < fuel = omega (
          arith,
          ap (λ (t : List ℕ). length t) split,
          length-append (bytes_at (S.mem s1) buf n) (I.left s1),
          length-bytes_at (S.mem s1) buf n,
          ap (λ (t : List ℕ). length t) kept,
        ) in
        let (s', rest, all) = cat_loop_lem fuel s2 ready2 shorter in
        let more : (n == 0) ≡ false = ==_ne n 0 (omega arith) in
        let valid : (n == minus_one) ≡ false = ==_ne n minus_one (omega arith) in
        (
          s',
          rw (e, ◌>>=◌, more, valid, w, valid, rest) refl,
          subst (λ (t : List ℕ). I.Out t s s')
              (ap (λ (t : List ℕ). bytes_at (S.mem s1) buf n ++ t) kept ∙ sym split)
              (I.joins [] (bytes_at (S.mem s1) buf n ++ I.left s2) s s1 s' same
                (I.joins (bytes_at (S.mem s1) buf n) (I.left s2) s1 s2 s' out all)),
        )
  ]

-- A run whose arguments are there and whose file opens.
pub cat-cat_loop :
    (S : System) (text : String → ℕ) (lib_fuel fuel buf fd : ℕ) (s s1 s2 : S.State)
    → S.getargs buf 1024 s ≡ some (0, s1)
    → S.opens buf s1 ≡ some (fd, s2)
    → fd ≢ minus_one
    → cat S text lib_fuel fuel buf s ≡ cat_loop S text lib_fuel fuel fd buf s2
unfolding cat
cat-cat_loop S text lib_fuel fuel buf fd s s1 s2 got opened valid =
    let found : (fd == minus_one) ≡ false = ==_ne fd minus_one valid in
    rw (got, ◌>>=◌, opened, found) refl
