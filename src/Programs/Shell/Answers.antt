-- ===== src/Programs/Shell/Answers.antt =====
-- What the shell of syscalls/ece391shell.c says of the commands that it runs.
use Prim.Native.String.{String}
use lightweight_operating_sy.Prelude.{
  arith, ℕ, suc, ◌+◌, ◌<◌, ◌≡◌, ◌≢◌, ◌⊎◌, inl, inr, refl, ◌∙◌, some, ==_ne, ==_iff, minus_one,
  Memory,
}
use lightweight_operating_sy.Programs.{System, ◌>>=◌, ◌>>◌, say}
use lightweight_operating_sy.Programs.Shell.{shell_loop, report}
use lightweight_operating_sy.Programs.Shell.OneCommand.{IsLine, ended, one_command}
use lightweight_operating_sy.Str.Length.{IsCString}
use lightweight_operating_sy.Support.Compare.{Same}

module _ (S : System) (text : String → ℕ) (lib_fuel : ℕ) where
  -- From state `s` to `s'` the one message for the status `rval` has been written, and none for 0.
  unfoldable pub IsAnswered : ℕ → S.State → S.State → Type 0
  IsAnswered rval s s' =
      ((rval ≡ minus_one) × (say S lib_fuel text "no such command\n" s ≡ some (tt, s')))
      ⊎ (((rval ≡ 256)
            × (say S lib_fuel text "program terminated by exception\n" s ≡ some (tt, s')))
          ⊎ (((rval ≡ 0) × (s' ≡ s))
              ⊎ ((rval ≢ minus_one)
                  × (rval ≢ 256)
                  × (rval ≢ 0)
                  × (say S lib_fuel text "program terminated abnormally\n" s ≡ some (tt, s')))))

  report-IsAnswered :
      (rval : ℕ) (s s' : S.State)
      → IsAnswered rval s s'
      → report S text lib_fuel rval s ≡ some (rval, s')
  unfolding report IsAnswered
  report-IsAnswered rval s s' (inl (e, said)) =
      rw ((==_iff rval minus_one).1 e, ◌>>◌, ◌>>=◌, said) refl
  report-IsAnswered rval s s' (inr (inl (e, said))) =
      rw (==_ne rval minus_one (λ z. omega arith), (==_iff rval 256).1 e, ◌>>◌, ◌>>=◌, said) refl
  report-IsAnswered rval s s' (inr (inr (inl (e, same)))) =
      rw
        (
          ==_ne rval minus_one (λ z. omega arith),
          ==_ne rval 256 (λ z. omega arith),
          (==_iff rval 0).1 e,
          same,
        )
        refl
  report-IsAnswered rval s s' (inr (inr (inr (a, b, c, said)))) =
      rw (==_ne rval minus_one a, ==_ne rval 256 b, ==_ne rval 0 c, ◌>>◌, ◌>>=◌, said) refl

module _ (S : System) (stores : (s : S.State) (m : Memory) → S.mem (S.set_mem s m) ≡ m)
    (text : String → ℕ) (lib_fuel buf n : ℕ) where
  -- One turn in which the prompt is printed and a line of `n` characters is read: the line end is cut
  -- off, and the array holds the C string of the `n` characters. For "exit" the shell ends with status 0.
  -- For the empty line it goes on. For any other line it executes the line as a command, and once the
  -- command has returned a status and the message for that status is written, as `IsAnswered` states, it
  -- goes on.
  pub shell_turn :
      (fuel rval : ℕ) (s s0 s1 s3 s4 : S.State)
      → say S lib_fuel text "391OS> " s ≡ some (tt, s0)
      → S.read 0 buf 1023 s0 ≡ some (n + 1, s1)
      → IsLine (S.mem s1) buf n (text "exit")
      → n < lib_fuel
      → (¬ Same (S.mem (S.set_mem s1 (ended (S.mem s1) buf n))) buf (text "exit") n 4
          → 0 < n
          → (S.execute buf (S.set_mem s1 (ended (S.mem s1) buf n)) ≡ some (rval, s3))
            × IsAnswered S text lib_fuel rval s3 s4)
      → let s2 = S.set_mem s1 (ended (S.mem s1) buf n) in
        let turn = shell_loop S text lib_fuel (suc fuel) buf s in
        let next = shell_loop S text lib_fuel fuel buf in
        IsCString (S.mem s2) buf n
        × ((Same (S.mem s2) buf (text "exit") n 4 × (turn ≡ some (0, s2)))
            ⊎ ((¬ Same (S.mem s2) buf (text "exit") n 4)
                × (((n ≡ 0) × (turn ≡ next s2)) ⊎ ((0 < n) × (turn ≡ next s4)))))
  shell_turn fuel rval s s0 s1 s3 s4 prompt read l enough answered =
      let (line, what) =
        one_command S stores text lib_fuel buf n fuel s s0 s1 prompt read l enough in
      (
        line,
        elim what [
          | inl leaves ↦ inl leaves
          | inr (other, inl empty) ↦ inr (other, inl empty)
          | inr (other, inr (some_char, runs)) ↦
              let (executed, answer) = answered other some_char in
              let said = report-IsAnswered S text lib_fuel rval s3 s4 answer in
              inr (other, inr (some_char, runs ∙ rw (◌>>=◌, executed, said) refl))
        ],
      )
