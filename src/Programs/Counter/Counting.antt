-- ===== src/Programs/Counter/Counting.antt =====
-- The numbers that the loop of syscalls/ece391counter.c prints.
use native.Mathlib.Nat.{add-zero}
use mathlib.Core.List.{append_assoc}
use Prim.Native.String.{String}
use lightweight_operating_sy.Prelude.{
  subst, ℕ, zero, suc, ◌+◌, ◌*◌, ◌<◌, ◌≤◌, ◌≡◌, ◌⊎◌, inl, inr, refl, ap, ◌∙◌, arith, some, List, [],
  ◌∷◌, ◌++◌, Memory,
}
use lightweight_operating_sy.FileDriver.{with_memory}
use lightweight_operating_sy.FileDriver.ToEnd.{bytes_at}
use lightweight_operating_sy.Programs.{System, ◌>>=◌, change, ece391_fdputs}
use lightweight_operating_sy.Programs.Counter.{count_loop}
use lightweight_operating_sy.Programs.Ls.Names.{bytes_at-snoc}
use lightweight_operating_sy.Programs.OnKernel.{Machine, Session, kernel_system}
use lightweight_operating_sy.Programs.Printing.{
  IsPrinting, with_memory-IsPrinting, after_write, fdputs_prints, Displays, Displays-append, silent,
}
use lightweight_operating_sy.Screen.{video}
use lightweight_operating_sy.Str.Digits.{AreDigits, digit_value, number_of, itoa_spells}
use lightweight_operating_sy.Str.Length.{IsCString}
use lightweight_operating_sy.Terminal.Showing.{SameScreens-refl}
use lightweight_operating_sy.Support.{ece391_itoa}
use lightweight_operating_sy.Support.Numbers.{ece391_itoa-itoa}

-- The number that decimal digits spell, after the digits that gave `v`.
unfoldable pub spelled : List ℕ → ℕ → ℕ
spelled [] v = v
spelled (c ∷ digits) v = spelled digits (v * 10 + digit_value c)

spelled-snoc :
    (digits : List ℕ) (c v : ℕ)
    → spelled (digits ++ c ∷ []) v ≡ spelled digits v * 10 + digit_value c
unfolding spelled
spelled-snoc [] c v = refl
spelled-snoc (d ∷ digits) c v = spelled-snoc digits c (v * 10 + digit_value d)

spelled_nothing : (m : Memory) (a : ℕ) → spelled (bytes_at m a 0) 0 ≡ 0
unfolding spelled bytes_at
spelled_nothing m a = refl

spelled-number_of : (m : Memory) (a n : ℕ) → spelled (bytes_at m a n) 0 ≡ number_of 10 m a n
unfolding number_of
spelled-number_of m a zero = spelled_nothing m a
spelled-number_of m a (suc n) =
    rw (bytes_at-snoc m a n, spelled-snoc (bytes_at m a n) (m (a + n)) 0, spelled-number_of m a n)
      refl

-- Every character is a decimal digit.
unfoldable pub Decimal : List ℕ → Type 0
Decimal [] = Unit
Decimal (c ∷ digits) = (digit_value c < 10) × Decimal digits

Decimal-AreDigits : (m : Memory) (a n : ℕ) → AreDigits 10 m a n → Decimal (bytes_at m a n)
unfolding AreDigits bytes_at Decimal
Decimal-AreDigits m a zero h = tt
Decimal-AreDigits m a (suc n) h = (
  first (ap m (add-zero a)) (h 0 (omega arith)),
  Decimal-AreDigits m (a + 1) n (λ i p. next i (ap m (omega arith)) (h (suc i) (omega arith))),
)
  where
    first : m (a + 0) ≡ m a → digit_value (m (a + 0)) < 10 → digit_value (m a) < 10
    first e p = rw (← e) p

    next :
        (i : ℕ)
        → m (a + suc i) ≡ m (a + 1 + i)
        → digit_value (m (a + suc i)) < 10
        → digit_value (m (a + 1 + i)) < 10
    next i e p = rw (← e) p

-- The numbers from `i + 1` to `i + left` in decimal digits, each on a line.
unfoldable pub Counted : ℕ → ℕ → List ℕ → Type 0
Counted i zero out = out ≡ []
Counted i (suc left) out =
    (digits : List ℕ) × (rest : List ℕ) × (out ≡ digits ++ b'\n' ∷ rest)
    × (spelled digits 0 ≡ i + 1)
    × Decimal digits
    × Counted (i + 1) left rest

module _ (S : System) (text : String → ℕ) (lib_fuel buf left i : ℕ) where
  one_number :
      (m : Memory) (s s2 s3 : S.State)
      → ece391_itoa lib_fuel (S.mem s) (i + 1) buf 10 ≡ some m
      → ece391_fdputs S lib_fuel 1 buf (S.set_mem s m) ≡ some (tt, s2)
      → ece391_fdputs S lib_fuel 1 (text "\n") s2 ≡ some (tt, s3)
      → count_loop S text lib_fuel (suc left) i buf s
        ≡ count_loop S text lib_fuel left (i + 1) buf s3
  unfolding count_loop
  one_number m s s2 s3 digits printed ended =
      rw (count_loop, ◌>>=◌, change, digits, printed, ended) refl

-- The text of the line end lies below the array at `buf` and outside video memory, and the array lies above
-- video memory.
pub record IsLaidOut (text : String → ℕ) (buf : ℕ) (m : Memory) : Type 0 where
  pub line_end : (m (text "\n") ≡ b'\n') × (m (text "\n" + 1) ≡ 0)
  pub below : (0 < text "\n") × (text "\n" + 1 < buf)
  pub buf_video : video + 0x4000 ≤ buf
  pub text_video : (text "\n" + 1 < video) ⊎ (video + 0x4000 ≤ text "\n")

line_end-IsCString : (m : Memory) (a : ℕ) → m a ≡ b'\n' → m (a + 1) ≡ 0 → IsCString m a 1
line_end-IsCString m a c e = record {
  filled = λ i h z. absurd (omega (arith, ap m (i_zero i h) ∙ c));
  ended = e;
}
  where
    i_zero : (i : ℕ) → i < 1 → a + i ≡ a
    i_zero i h = omega arith

pub IsLaidOut-kept :
    (text : String → ℕ) (buf : ℕ) (m m' : Memory)
    → ((a : ℕ) → (a ≡ text "\n") ⊎ (a ≡ text "\n" + 1) → m' a ≡ m a)
    → IsLaidOut text buf m
    → IsLaidOut text buf m'
IsLaidOut-kept text buf m m' kept l = record {
  line_end = (kept (text "\n") (inl refl) ∙ l.line_end.0, kept _ (inr refl) ∙ l.line_end.1);
  below = l.below;
  buf_video = l.buf_video;
  text_video = l.text_video;
}

number_of-pos : (m : Memory) (a n v : ℕ) → number_of 10 m a n ≡ suc v → 0 < n
unfolding number_of
number_of-pos m a zero v e = absurd (omega (arith, e))
number_of-pos m a (suc n) v e = omega arith

module _ (M : Machine) (text : String → ℕ) (own lib_fuel buf : ℕ) where
  -- What one round does.
  record Round (i : ℕ) (s : Session) : Type 0 where
    digits : List ℕ
    next : Session
    goes_on :
        (left : ℕ)
        → count_loop (kernel_system M) text lib_fuel (suc left) i buf s
          ≡ count_loop (kernel_system M) text lib_fuel left (i + 1) buf next
    printing : IsPrinting next.kernel own
    laid_out : IsLaidOut text buf next.kernel.display.mem
    line : Displays own (digits ++ b'\n' ∷ []) s.kernel next.kernel
    value : spelled digits 0 ≡ i + 1
    decimal : Decimal digits

  round :
      (i : ℕ) (s : Session)
      → IsPrinting s.kernel own
      → IsLaidOut text buf s.kernel.display.mem
      → i < 100000
      → 6 < lib_fuel
      → Round i s
  unfolding bytes_at
  round i s p l room enough =
      let k = s.kernel in
      let m = k.display.mem in
      let (n, m1, e1, few, string, value, are_digits, kept) =
        itoa_spells lib_fuel 6 m (i + 1) buf 10 (omega arith) (omega arith) (omega arith)
          (omega arith) enough in
      let s1 : Session = record { kernel = with_memory k m1 } in
      let (d2, e2, keeps2, shown2, p2) =
        fdputs_prints M lib_fuel own buf n s1 (with_memory-IsPrinting k own m1 p) string
          (omega arith) (omega (arith, l.below)) (number_of-pos m1 buf n i (value ∙ omega arith))
          (omega arith) (inr l.buf_video) in
      let s2 = after_write s1 d2 in
      let l2 : IsLaidOut text buf d2.mem =
        IsLaidOut-kept text buf m d2.mem
          (λ a e.
            keeps2.outside a (omega (arith, e, l.text_video)) ∙ kept a (omega (arith, e, l.below)))
          l in
      let (d3, e3, keeps3, shown3, p3) =
        fdputs_prints M lib_fuel own (text "\n") 1 s2 p2
          (line_end-IsCString d2.mem (text "\n") l2.line_end.0 l2.line_end.1) (omega arith)
          l.below.0 (omega arith) (omega arith) (omega (arith, l.text_video)) in
      let s3 = after_write s2 d3 in
      let stored = silent own k s1.kernel refl (record {
        pages = λ a lo hi. kept a (omega (arith, l.buf_video));
        cursors = (refl, refl);
      }) in
      let first_part =
        Displays-append own [] (bytes_at m1 buf n) k s1.kernel s2.kernel stored shown2 in
      record {
        digits = bytes_at m1 buf n;
        next = s3;
        goes_on = λ left.
            one_number (kernel_system M) text lib_fuel buf left i m1 s s2 s3
              (ece391_itoa-itoa lib_fuel m (i + 1) buf 10 ∙ e1) e2 e3;
        printing = p3;
        laid_out =
            IsLaidOut-kept text buf d2.mem d3.mem
              (λ a e. keeps3.outside a (omega (arith, e, l.text_video))) l2;
        line =
            Displays-append own (bytes_at m1 buf n) (b'\n' ∷ []) k s2.kernel s3.kernel first_part
              (subst (λ (c : ℕ). Displays own (c ∷ []) s2.kernel s3.kernel) l2.line_end.0 shown3);
        value = spelled-number_of m1 buf n ∙ value;
        decimal = Decimal-AreDigits m1 buf n are_digits;
      }

  -- The loop of `counter` on the kernel, for a process that prints on its terminal and with the text of the
  -- line end as `IsLaidOut` states: it ends with status 0, and puts on the screen, as `Displays`
  -- states, the numbers from `i + 1` to `i + left` in decimal digits, each on a line, if these are 100000
  -- at most.
  pub count_loop_prints :
      (left i : ℕ) (s : Session)
      → IsPrinting s.kernel own
      → IsLaidOut text buf s.kernel.display.mem
      → i + left ≤ 100000
      → 6 < lib_fuel
      → (s' : Session) × (out : List ℕ) × (count_loop (kernel_system M) text lib_fuel left i buf s
          ≡ some (0, s'))
        × Displays own out s.kernel s'.kernel
        × Counted i left out
  unfolding count_loop Counted
  count_loop_prints zero i s p l room enough =
      (s, [], refl, silent own s.kernel s.kernel refl (SameScreens-refl s.kernel.display), refl)
  count_loop_prints (suc left) i s p l room enough =
      let r = round i s p l (omega arith) enough in
      let (s', rest, run, printed, counted) =
        count_loop_prints left (i + 1) r.next r.printing r.laid_out (omega arith) enough in
      (
        s',
        r.digits ++ b'\n' ∷ rest,
        r.goes_on left ∙ run,
        subst (λ (b : List ℕ). Displays own b s.kernel s'.kernel)
            (append_assoc r.digits (b'\n' ∷ []) rest)
            (Displays-append own (r.digits ++ b'\n' ∷ []) rest s.kernel r.next.kernel s'.kernel
              r.line printed),
        (r.digits, rest, refl, r.value, r.decimal, counted),
      )
