-- ===== src/Programs/Shell/OneCommand.antt =====
-- One turn of the loop of syscalls/ece391shell.c, over any system that stores what is written to memory.
use Prim.Native.String.{String}
use lightweight_operating_sy.Prelude.{
  ℕ, suc, ◌+◌, ◌<◌, ◌≤◌, ◌≡◌, ◌≢◌, ◌⊎◌, inl, inr, refl, sym, ap, ◌∙◌, arith, true, false, some,
  ◌==◌, ==_ne, ==_iff, slt, u32, sub32, minus_one, Memory, update, update_self, update_ne,
  ℕ_discrete,
}
use lightweight_operating_sy.Programs.{System, ◌>>=◌, ◌>>◌, say}
use lightweight_operating_sy.Programs.Shell.{shell_loop, trim, report}
use lightweight_operating_sy.Str.Compare.{IsBytes}
use lightweight_operating_sy.Str.Length.{IsCString}
use lightweight_operating_sy.Support.Compare.{Same, ece391_strcmp_iff}

-- A line of `n` characters and its end in the array, and the literal "exit" apart from them.
pub record IsLine (m : Memory) (buf n exit : ℕ) : Type 0 where
  pub bytes : IsBytes m
  pub filled : (i : ℕ) → i < n → m (buf + i) ≢ 0
  pub line_end : m (buf + n) ≡ b'\n'
  pub short : n < 1023
  pub in_memory : buf + 1024 < 0x1_0000_0000
  pub literal : IsCString m exit 4
  pub apart : (exit + 4 < buf) ⊎ (buf + 1024 ≤ exit)

-- The line without its end.
abbrev pub ended : Memory → ℕ → ℕ → Memory
ended m buf n = update m (buf + n) 0

module _ (m : Memory) (buf n exit : ℕ) (l : IsLine m buf n exit) where
  command-IsCString : IsCString (ended m buf n) buf n
  command-IsCString = record {
    filled = λ i h e. l.filled i h (sym (update_ne m (buf + n) (buf + i) 0 (λ z. omega arith)) ∙ e);
    ended = update_self m (buf + n) 0;
  }

  exit-IsCString : IsCString (ended m buf n) exit 4
  exit-IsCString = record {
    filled = λ i h e.
        l.literal.filled i h
          (sym (update_ne m (buf + n) (exit + i) 0 (λ z. omega (arith, l.apart, l.short))) ∙ e);
    ended =
        update_ne m (buf + n) (exit + 4) 0 (λ z. omega (arith, l.apart, l.short)) ∙ l.literal.ended;
  }

  ended-IsBytes : IsBytes (ended m buf n)
  ended-IsBytes a = ground (arith, l.bytes a)

module _ (S : System) (stores : (s : S.State) (m : Memory) → S.mem (S.set_mem s m) ≡ m)
    (text : String → ℕ) (lib_fuel buf n : ℕ) where
  trim_lem :
      (s : S.State)
      → IsLine (S.mem s) buf n (text "exit")
      → trim S text lib_fuel buf (n + 1) s ≡ some (n, s)
  unfolding trim
  trim_lem s l =
      let positive : slt 0 (n + 1) ≡ true = ground (arith, l.short) in
      let before : sub32 (n + 1) 1 ≡ n = omega (arith, l.short) in
      let at : u32 (buf + n) ≡ buf + n = omega (arith, l.in_memory, l.short) in
      let is : (S.mem s (buf + n) == b'\n') ≡ true = (==_iff _ _).1 l.line_end in
      rw (positive, before, at, is) refl

  -- One turn in which the prompt is printed and a line of `n` characters is read: the line end is cut
  -- off, and the array holds the C string of the `n` characters. For "exit" the shell ends with status 0;
  -- for another line it goes on, after it has executed the line as a command and reported on its status
  -- if the line is not empty.
  pub one_command :
      (fuel : ℕ) (s s0 s1 : S.State)
      → say S lib_fuel text "391OS> " s ≡ some (tt, s0)
      → S.read 0 buf 1023 s0 ≡ some (n + 1, s1)
      → IsLine (S.mem s1) buf n (text "exit")
      → n < lib_fuel
      → let s2 = S.set_mem s1 (ended (S.mem s1) buf n) in
        let turn = shell_loop S text lib_fuel (suc fuel) buf s in
        let next = shell_loop S text lib_fuel fuel buf in
        IsCString (S.mem s2) buf n
        × ((Same (S.mem s2) buf (text "exit") n 4 × (turn ≡ some (0, s2)))
            ⊎ ((¬ Same (S.mem s2) buf (text "exit") n 4)
                × (((n ≡ 0) × (turn ≡ next s2))
                    ⊎ ((0 < n)
                        × (turn
                            ≡ (S.execute buf >>= λ rval. report S text lib_fuel rval >>= λ _. next)
                                s2)))))
  unfolding shell_loop
  one_command fuel s s0 s1 prompt read l enough =
      let m2 = ended (S.mem s1) buf n in
      let s2 = S.set_mem s1 m2 in
      let (v, compared, iff) =
        ece391_strcmp_iff lib_fuel m2 buf (text "exit") n 4 (ended-IsBytes _ buf n _ l)
          (command-IsCString _ buf n _ l) (exit-IsCString _ buf n _ l) enough in
      let valid : (n + 1 == minus_one) ≡ false =
        ==_ne (n + 1) minus_one (λ z. omega (arith, l.short)) in
      let at : u32 (buf + n) ≡ buf + n = omega (arith, l.in_memory, l.short) in
      let held = stores s1 m2 in
      let command = command-IsCString (S.mem s1) buf n (text "exit") l in
      (
        rw held command,
        elim (ℕ_discrete v 0) [
          | yes z ↦ inl (
            rw held (iff.0 z),
            rw (prompt, ◌>>=◌, ◌>>◌, read, valid, trim_lem s1 l, at, held, compared, at, z) refl,
          )
          | no nz ↦
              let differs : (v == 0) ≡ false = ==_ne v 0 nz in
              inr (
                (λ same. nz (iff.1 (rw (← held) same))),
                elim (ℕ_discrete n 0) [
                  | yes empty ↦
                      let nothing : (m2 buf == 0) ≡ true =
                        (==_iff _ 0).1 (ap m2 (omega (arith, empty)) ∙ command.ended) in
                      inl (
                        empty,
                        rw
                            (
                              prompt,
                              ◌>>=◌,
                              ◌>>◌,
                              read,
                              valid,
                              trim_lem s1 l,
                              at,
                              held,
                              compared,
                              at,
                              held,
                              differs,
                              nothing,
                            )
                            refl,
                      )
                  | no some_char ↦
                      let something : (m2 buf == 0) ≡ false =
                        ==_ne _ 0 (λ z. command.filled 0 (omega arith) (ap m2 (omega arith) ∙ z)) in
                      inr (
                        omega arith,
                        rw
                            (
                              prompt,
                              ◌>>=◌,
                              ◌>>◌,
                              read,
                              valid,
                              trim_lem s1 l,
                              at,
                              held,
                              compared,
                              at,
                              held,
                              differs,
                              something,
                            )
                            refl,
                      )
                ],
              )
        ],
      )
