-- ===== src/Programs/Ls/Printed.antt =====
-- The loop of syscalls/ece391ls.c prints the directory.
use Prim.Native.String.{String}
use mathlib.Core.List.{append_assoc}
use lightweight_operating_sy.Prelude.{
  subst, List, Memory, ℕ, zero, suc, ◌+◌, ◌-◌, ◌<◌, ◌≤◌, ◌≡◌, inl, inr, ap, ap₂, ◌∙◌, arith, some,
  [], ◌∷◌, ◌++◌, dec_lt,
}
use lightweight_operating_sy.FileDriver.{file_at, dir_read}
use lightweight_operating_sy.FileDriver.Listing.{dir_read_lem}
use lightweight_operating_sy.FileDriver.ToEnd.{bytes_at}
use lightweight_operating_sy.FileSys.{num_dir_entries, dir_entry}
use lightweight_operating_sy.Programs.Ls.{ls_loop}
use lightweight_operating_sy.Programs.Ls.Turn.{
  Turn, turn, position, ends_at_zero, one_turn, read_call,
}
use lightweight_operating_sy.Programs.Ls.Names.{IsListing, name_lines, name_lines_kept, same_num}
use lightweight_operating_sy.Programs.Printing.{Displays, Displays-append, silent}
use lightweight_operating_sy.Programs.OnKernel.{Machine, Session, kernel_system}

one_more : {p num : ℕ} → p < num → suc (num - (p + 1)) ≡ num - p
one_more h = omega arith

module _ (M : Machine) (fd buf own : ℕ) (len : ℕ → ℕ) where
  -- The loop of `ls` on the directory of a sound image, from a position that is not past its end and
  -- with more fuel than entries are left: it ends with status 0, and what it has put on the screen of
  -- its terminal, as `Displays` states, is the name of each entry from the position on, in order, each
  -- followed by a line end, and nothing else.
  pub ls_loop_prints :
      (text : String → ℕ) (lib_fuel fuel : ℕ) (s : Session)
      → IsListing s.kernel fd buf own len
      → (file_at s.kernel fd).file_position ≤ num_dir_entries s.kernel.display.mem s.kernel.fs
      → num_dir_entries s.kernel.display.mem s.kernel.fs - (file_at s.kernel fd).file_position
        < fuel
      → (s' : Session) × (ls_loop (kernel_system M) text lib_fuel fuel fd buf s ≡ some (0, s'))
        × Displays own
            (name_lines s.kernel.display.mem s.kernel.fs len (file_at s.kernel fd).file_position (
              num_dir_entries s.kernel.display.mem s.kernel.fs
              - (file_at s.kernel fd).file_position))
            s.kernel
            s'.kernel
  unfolding name_lines
  ls_loop_prints text lib_fuel zero s l le h = elim h [ ]
  ls_loop_prints text lib_fuel (suc fuel) s l le h =
      let k = s.kernel in
      let p = (file_at k fd).file_position in
      let num = num_dir_entries k.display.mem k.fs in
      elim (dec_lt p num) [
        | no past ↦ stop (omega arith)
        | yes before ↦
            let t = turn M fd buf own len s l before in
            let fewer = same_num k t.s3.kernel fd buf own len l t.same_fs t.same_boot in
            let (s', rest, out) =
              ls_loop_prints text lib_fuel fuel t.s3 t.listing (omega (arith, t.moved, fewer))
                (omega (arith, t.moved, fewer)) in
            (
              s',
              one_turn (kernel_system M) text lib_fuel fuel fd buf t.n s t.s1 t.s3 t.reads
                    t.positive t.small l.buf_in.1 t.writes
                  ∙ rest,
              subst (λ (b : List ℕ). Displays own b s.kernel s'.kernel) (joined t fewer before)
                  (Displays-append own _ _ s.kernel t.s3.kernel s'.kernel t.line out),
            )
      ]
    where
      stop :
          num_dir_entries s.kernel.display.mem s.kernel.fs ≤ (file_at s.kernel fd).file_position
          → (s' : Session) × (ls_loop (kernel_system M) text lib_fuel (suc fuel) fd buf s
              ≡ some (0, s'))
            × Displays own
                (name_lines s.kernel.display.mem s.kernel.fs len
                  (file_at s.kernel fd).file_position
                  (num_dir_entries s.kernel.display.mem s.kernel.fs
                    - (file_at s.kernel fd).file_position))
                s.kernel
                s'.kernel
      stop past =
          let p = (file_at s.kernel fd).file_position in
          let s1 : Session = record { kernel = (dir_read M.stack fd buf 32 s.kernel).1 } in
          let none_left : num_dir_entries s.kernel.display.mem s.kernel.fs - p ≡ 0 = omega arith in
          elim (dir_read_lem M.stack fd buf 32 (len p) s.kernel (λ b. l.names p b)
            (inl (omega arith))) [
              | inl (_, count, _, mem, same) ↦ (
                s1,
                ends_at_zero (kernel_system M) text lib_fuel fuel fd buf s s1
                    (read_call M fd buf own len s l ∙ ap (λ c. some (c, s1)) count),
                unfold name_lines in
                    rw none_left (
                      silent own s.kernel s1.kernel same.same_keyboard (record {
                        pages = λ a lo hi. ap (λ (m : Memory). m a) mem;
                        cursors = same.same_cursors;
                      })),
              )
              | inr (before, _, _, _, _) ↦ absurd (omega arith)
            ]

      joined :
          (t : Turn M fd buf own len s)
          → num_dir_entries t.s3.kernel.display.mem t.s3.kernel.fs
            ≡ num_dir_entries s.kernel.display.mem s.kernel.fs
          → (file_at s.kernel fd).file_position < num_dir_entries s.kernel.display.mem s.kernel.fs
          → let p = (file_at s.kernel fd).file_position in
            let m = s.kernel.display.mem in
            (bytes_at m (dir_entry m s.kernel.fs p) (len p) ++ b'\n' ∷ [])
              ++ name_lines t.s3.kernel.display.mem t.s3.kernel.fs len
                  (position fd t.s3)
                  (num_dir_entries t.s3.kernel.display.mem t.s3.kernel.fs - position fd t.s3)
            ≡ name_lines m s.kernel.fs len p (num_dir_entries m s.kernel.fs - p)
      joined t fewer before =
          let p = (file_at s.kernel fd).file_position in
          let m = s.kernel.display.mem in
          let left = num_dir_entries m s.kernel.fs - (p + 1) in
          let name = bytes_at m (dir_entry m s.kernel.fs p) (len p) in
          let rest = name_lines m s.kernel.fs len (p + 1) left in
          ap (λ y. (name ++ b'\n' ∷ []) ++ y)
            (ap₂ (λ q r. name_lines t.s3.kernel.display.mem t.s3.kernel.fs len q r) t.moved
                (omega (arith, fewer, t.moved))
              ∙ name_lines_kept s.kernel t.s3.kernel fd buf own len l t.same_fs t.same_boot left
                  (p + 1) (omega arith))
          ∙ append_assoc name (b'\n' ∷ []) rest
          ∙ ap (λ r. name_lines m s.kernel.fs len p r) (one_more before)
