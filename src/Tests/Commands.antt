-- ===== src/Tests/Commands.antt =====
-- A directory listing, a line typed at the terminal, and what the shell and grep do with lines.
use Prim.Native.Char.{code}
use Prim.Native.String.{String}
use lightweight_operating_sy.Prelude.{
  [], ◌∷◌, ◌+◌, ◌-◌, ℕ, ◌<◌, ◌≤◌, ◌≡◌, ◌⊎◌, inl, inr, refl, none, some, arith, ◌==◌, if◌then◌else◌,
  load32, Memory, min, suc,
}
use lightweight_operating_sy.Kernel.{Kernel, cur_process_local}
use lightweight_operating_sy.Process.{get_base_process_pcb, dir_operations_table, stdout_fd}
use lightweight_operating_sy.Programs.{System, say, ece391_fdputs}
use lightweight_operating_sy.Programs.Grep.{search_line}
use lightweight_operating_sy.Programs.Grep.Searching.{Occurs}
use lightweight_operating_sy.Programs.Grep.Lines.{IsWriting, Written, IsText, search_line_writes}
use lightweight_operating_sy.Programs.Ls.{ls_loop}
use lightweight_operating_sy.Programs.Ls.Names.{IsListing, name_lines}
use lightweight_operating_sy.Programs.Ls.Printed.{ls_loop_prints}
use lightweight_operating_sy.Programs.Printing.{Displays}
use lightweight_operating_sy.Programs.OnKernel.{Session, kernel_system}
use lightweight_operating_sy.Programs.Shell.{shell_loop}
use lightweight_operating_sy.Programs.Shell.OneCommand.{IsLine, ended}
use lightweight_operating_sy.Programs.Shell.Answers.{IsAnswered, shell_turn}
use lightweight_operating_sy.Str.Length.{IsCString}
use lightweight_operating_sy.Support.{ece391_strlen, ece391_strlen_loop}
use lightweight_operating_sy.Support.Compare.{Same}
use lightweight_operating_sy.Terminal.{terminal_read_finish}
use lightweight_operating_sy.Terminal.ReadingLines.{IsRow, Taken, terminal_read_finish_lem}
use lightweight_operating_sy.Tests.Data.{kernel, image, mounted_fs}
use lightweight_operating_sy.Tests.Files.{first-IsName}
use lightweight_operating_sy.Tests.Users.{machine, user}

-- Descriptor 2 is the directory.
abbrev listing_kernel : Kernel
listing_kernel = record kernel {
  processes = record kernel.processes {
    pcbs = λ p. record user {
      files = λ t.
          if t == 2
          then record stdout_fd { operations_table = dir_operations_table; flags = 1 }
          else user.files t;
    };
  };
}

abbrev one : ℕ → ℕ
one i = 1

listing_terminal : cur_process_local listing_kernel.processes ≡ some 1
unfolding cur_process_local get_base_process_pcb
listing_terminal = refl

listing_kernel-IsListing : IsListing listing_kernel 2 20000 1 one
unfolding load32
listing_kernel-IsListing = record {
  few = omega arith;
  names = λ i h. let is : i ≡ 0 = omega arith in rw is first-IsName;
  nonempty = λ i h. omega arith;
  fd_in = (omega arith, omega arith);
  reads_dir = refl;
  active = λ e. omega arith;
  printing = record {
    prints = refl;
    out_active = λ e. omega arith;
    terminal = listing_terminal;
    own_in = (omega arith, omega arith);
    on = record { col_in = omega arith; row_in = omega arith };
  };
  boot_buf = inr (omega arith);
  boot_video = inl (omega arith);
  buf_video = inl (omega arith);
  buf_in = (omega arith, omega arith);
}

ls_loop_prints_example :
    (s' : Session) × (ls_loop
        (kernel_system machine)
        (λ line. 500)
        9
        2
        2
        20000
        (record { kernel = listing_kernel })
      ≡ some (0, s'))
    × Displays 1 (name_lines image mounted_fs one 0 1) listing_kernel s'.kernel
unfolding load32
ls_loop_prints_example =
    ls_loop_prints machine 2 20000 1 one (λ line. 500) 9 2 (record { kernel = listing_kernel })
      listing_kernel-IsListing (omega arith) (omega arith)

-- The line "a" and its end are in the row of the first terminal.
abbrev typed : Memory
typed a = if a == 0 then b'a' else if a == 1 then b'\n' else 0

abbrev typing : Kernel
typing = record kernel { keyboard = record kernel.keyboard { buffer = typed } }

typed-IsRow : IsRow typed 0 2
typed-IsRow = record { filled = λ i h e. ground arith; ended = refl }

terminal_read_finish_lem_example :
    ((terminal_read_finish 200 9 typing).0 ≡ min 9 3 - 1)
    × Taken image (terminal_read_finish 200 9 typing).1.display.mem typed 0 200 0 (min 9 3)
    × ((terminal_read_finish 200 9 typing).1 ≡ record typing {
      display = record typing.display { mem = (terminal_read_finish 200 9 typing).1.display.mem };
    })
terminal_read_finish_lem_example =
    terminal_read_finish_lem 200 9 2 typing typed-IsRow (λ e. omega arith) (omega arith)
      (omega arith) (omega arith)

-- A system whose input is the line "ls"; the literals are "exit" at 500.
abbrev line_read : Memory → Memory
line_read m a =
    if a == 1000 then b'l' else if a == 1001 then b's' else if a == 1002 then b'\n' else m a

abbrev console : System
console = record {
  State = Memory;
  mem = λ m. m;
  set_mem = λ m m'. m';
  execute = λ command m. some (0, m);
  read = λ fd buf nbytes m. some (3, line_read m);
  write = λ fd buf nbytes m. some (nbytes, m);
  opens = λ name m. none;
  close = λ fd m. none;
  getargs = λ buf nbytes m. none;
  vidmap = λ p m. none;
  trap = λ number m. none;
}

abbrev text : String → ℕ
text line = 500

abbrev at_start : Memory
at_start a =
    if a == 500
    then b'e'
    else if a == 501
    then b'x'
    else if a == 502
    then b'i'
    else if a == 503
    then b't'
    else 0

prompt : say console 9 text "391OS> " at_start ≡ some (tt, at_start)
unfolding ece391_fdputs ece391_strlen ece391_strlen_loop
prompt = refl

line_read-IsLine : IsLine (line_read at_start) 1000 2 500
line_read-IsLine = record {
  bytes = λ a. ground arith;
  filled = λ i h e. ground arith;
  line_end = refl;
  short = omega arith;
  in_memory = omega arith;
  literal = record { filled = λ i h e. ground arith; ended = refl };
  apart = inl (omega arith);
}

shell_turn_example :
    let s2 = ended (line_read at_start) 1000 2 in
    let turn = shell_loop console text 9 (suc 4) 1000 at_start in
    let next = shell_loop console text 9 4 1000 in
    IsCString s2 1000 2
    × ((Same s2 1000 500 2 4 × (turn ≡ some (0, s2)))
        ⊎ ((¬ Same s2 1000 500 2 4)
            × (((◌≡◌ {A = ℕ} 2 0) × (turn ≡ next s2)) ⊎ ((0 < 2) × (turn ≡ next s2)))))
unfolding IsAnswered
shell_turn_example =
    shell_turn console (λ s m. refl) text 9 1000 2 4 0 at_start at_start (line_read at_start)
      (ended (line_read at_start) 1000 2) (ended (line_read at_start) 1000 2) prompt refl
      line_read-IsLine (omega arith) (λ other h. (refl, inr (inr (inl (refl, refl)))))

-- The file "f", the line "ls", the pattern "s", and the literals ":" and the line end.
abbrev searched : Memory
searched a =
    if a == 0x800_1000
    then b'f'
    else if a == 0x800_2000
    then b':'
    else if a == 0x800_2002
    then b'\n'
    else if a == 0x800_3000
    then b'l'
    else if a == 0x800_3001
    then b's'
    else if a == 0x800_4000
    then b's'
    else 0

abbrev literal : String → ℕ
literal String.[] = 0x800_2002
literal (String.◌∷◌ c line) = if code c == 58 then 0x800_2000 else 0x800_2002

console-IsWriting : IsWriting console
console-IsWriting = record {
  Ready = λ m. Unit;
  writes = λ a n m r at pos. (m, n, refl, tt, λ x h. refl);
}

is_text :
    (a n : ℕ) → IsCString searched a n → 0x800_0000 ≤ a → 0 < n → n < 9 → IsText 9 searched a n
unfolding IsText
is_text a n c at pos short = (c, at, pos, short)

-- The pattern "s" in the line "ls" of the file "f".
search_line_writes_example :
    let run = search_line console literal 9 5 0x800_4000 1 0x800_1000 0x800_3000 0 2 0 searched in
    ((p : ℕ) × (m' : Memory) × (0 ≤ p)
      × (p < 2)
      × Occurs searched 0x800_4000 1 (0x800_3000 + p)
      × (run ≡ some (tt, m'))
      × Written console
          ((0x800_1000, 1) ∷ (0x800_2000, 1) ∷ (0x800_3000, 2) ∷ (0x800_2002, 1) ∷ [])
          searched
          m')
    ⊎ (((p : ℕ) → 0 ≤ p → p < 2 → ¬ Occurs searched 0x800_4000 1 (0x800_3000 + p))
        × (run ≡ some (tt, searched)))
unfolding console-IsWriting
search_line_writes_example =
    search_line_writes console console-IsWriting literal 9 0x800_4000 1 0x800_1000 1 0x800_3000 0 2
      5 0 searched (λ a. ground arith) (record { filled = λ i h e. ground arith; ended = refl })
      (omega arith) (omega arith) (omega arith) (omega arith) (omega arith) (omega arith)
      (omega arith) tt
      (is_text 0x800_1000 1 (record { filled = λ i h e. ground arith; ended = refl }) (omega arith)
        (omega arith) (omega arith))
      (is_text 0x800_2000 1 (record { filled = λ i h e. ground arith; ended = refl }) (omega arith)
        (omega arith) (omega arith))
      (is_text 0x800_3000 2 (record { filled = λ i h e. ground arith; ended = refl }) (omega arith)
        (omega arith) (omega arith))
      (is_text 0x800_2002 1 (record { filled = λ i h e. ground arith; ended = refl }) (omega arith)
        (omega arith) (omega arith))
