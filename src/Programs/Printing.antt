-- ===== src/Programs/Printing.antt =====
-- A process that writes to its terminal through descriptor 1.
use lightweight_operating_sy.Prelude.{
  List, [], subst, ◌+◌, ◌⊎◌, ℕ, ◌-◌, ◌<◌, ◌≤◌, ◌≡◌, ◌≢◌, refl, sym, ap, ◌∙◌, arith, false, some,
  ◌++◌, ◌==◌, ==_ne, ◌||◌, slt, Memory,
}
use lightweight_operating_sy.FileDriver.{file_at, with_memory}
use lightweight_operating_sy.FileDriver.Table.{SameElse}
use lightweight_operating_sy.FileDriver.ToEnd.{bytes_at}
use lightweight_operating_sy.Kernel.{Kernel, Keyboard, cur_process_local}
use lightweight_operating_sy.Process.{WriteFunc, FileDescriptor}
use lightweight_operating_sy.Programs.{System, ◌>>=◌, look, ece391_fdputs}
use lightweight_operating_sy.Programs.OnKernel.{Machine, Session, kernel_system, of_outcome}
use lightweight_operating_sy.Screen.{Display, video}
use lightweight_operating_sy.Screen.Printing.{IsOnScreen}
use lightweight_operating_sy.Str.Length.{IsCString, strlen_iff}
use lightweight_operating_sy.Support.{ece391_strlen}
use lightweight_operating_sy.Support.Numbers.{ece391_strlen-strlen}
use lightweight_operating_sy.Syscall
use lightweight_operating_sy.Terminal.Showing.{SameScreens, Shows, Shows-append}
use lightweight_operating_sy.Terminal.Keeping.{Keeps, terminal_write-Keeps}

-- Descriptor 1 is in use and is the terminal, the process is one of terminal `own`, and the cursor of
-- that terminal is on its page.
pub record IsPrinting (k : Kernel) (own : ℕ) : Type 0 where
  pub prints : (file_at k 1).operations_table.write ≡ some WriteFunc.terminal_write
  pub out_active : (file_at k 1).flags ≢ 0
  pub terminal : cur_process_local k.processes ≡ some own
  pub own_in : (1 ≤ own) × (own ≤ 3)
  pub on : IsOnScreen k.display (own - 1)

-- What leaves descriptor 1, the process and the cursors alone keeps this.
pub SameElse-IsPrinting :
    (k k' : Kernel) (fd own : ℕ) → SameElse k k' fd → fd ≢ 1 → IsPrinting k own → IsPrinting k' own
SameElse-IsPrinting k k' fd own same other p = record {
  prints = ap (λ (g : FileDescriptor). g.operations_table.write) out_kept ∙ p.prints;
  out_active = λ z. p.out_active (sym (ap (λ (g : FileDescriptor). g.flags) out_kept) ∙ z);
  terminal = same.same_terminal ∙ p.terminal;
  own_in = p.own_in;
  on = record {
    col_in = rw same.same_cursors.0 p.on.col_in;
    row_in = rw same.same_cursors.1 p.on.row_in;
  };
}
  where
    out_kept : file_at k' 1 ≡ file_at k 1
    out_kept = same.same_others 1 (λ e. other (sym e))

-- So does a change of memory alone.
pub with_memory-IsPrinting :
    (k : Kernel) (own : ℕ) (m : Memory) → IsPrinting k own → IsPrinting (with_memory k m) own
with_memory-IsPrinting k own m p = record {
  prints = p.prints;
  out_active = p.out_active;
  terminal = p.terminal;
  own_in = p.own_in;
  on = record { col_in = p.on.col_in; row_in = p.on.row_in };
}

-- The bytes, and no others, have been put in order on the screen of terminal `own`, while the terminal in
-- view has stayed the same.
pub record Displays (own : ℕ) (bytes : List ℕ) (k k' : Kernel) : Type 0 where
  pub same_view : k'.keyboard.cur_terminal ≡ k.keyboard.cur_terminal
  pub shown : Shows k.keyboard.cur_terminal own bytes k.display k'.display

pub Displays-append :
    (own : ℕ) (bytes more : List ℕ) (k k1 k' : Kernel)
    → Displays own bytes k k1
    → Displays own more k1 k'
    → Displays own (bytes ++ more) k k'
Displays-append own bytes more k k1 k' p q = record {
  same_view = q.same_view ∙ p.same_view;
  shown =
      Shows-append k.keyboard.cur_terminal own bytes more k.display k1.display k'.display p.shown
        (subst (λ (cur : ℕ). Shows cur own more k1.display k'.display) p.same_view q.shown);
}

-- A change of the kernel that leaves the keyboard, the video pages and the cursors alone prints nothing.
pub silent :
    (own : ℕ) (k k' : Kernel)
    → k'.keyboard ≡ k.keyboard
    → SameScreens k.display k'.display
    → Displays own [] k k'
unfolding Shows
silent own k k' same screens = record {
  same_view = ap (λ (b : Keyboard). b.cur_terminal) same;
  shown = screens;
}

-- A session in which the display has changed.
abbrev pub after_write : Session → Display → Session
after_write s d = record { kernel = record s.kernel { display = d } }

-- A write of `n` bytes from outside video memory prints them and returns `n`; only video memory and
-- cursors change, and the process goes on printing.
pub write_prints :
    (M : Machine) (own buf n : ℕ) (s : Session)
    → IsPrinting s.kernel own
    → 0 < buf
    → 0 < n
    → n < 0x8000_0000
    → (buf + n ≤ video) ⊎ (video + 0x4000 ≤ buf)
    → (d : Display) × ((kernel_system M).write 1 buf n s ≡ some (n, after_write s d))
      × Keeps s.kernel.display d own
      × Displays own
          (bytes_at s.kernel.display.mem buf n)
          s.kernel
          (record s.kernel { display = d })
      × IsPrinting (record s.kernel { display = d }) own
unfolding Syscall.write Syscall.call_write of_outcome
write_prints M own buf n s p nonnull positive small apart =
    let k = s.kernel in
    let good : (Syscall.bad_fd 1 || (buf == 0 || slt n 0)) ≡ false = ground arith in
    let used : ((file_at k 1).flags == 0) ≡ false = ==_ne _ 0 p.out_active in
    let (d, e, keeps, shown) =
      terminal_write-Keeps own p.own_in.0 p.own_in.1 buf n k p.terminal p.on apart
        (λ z. omega arith) positive small in
    (
      d,
      rw (good, used, p.prints, e) refl,
      keeps,
      record { same_view = refl; shown = shown },
      record {
        prints = p.prints;
        out_active = p.out_active;
        terminal = p.terminal;
        own_in = p.own_in;
        on = keeps.on;
      },
    )

-- `ece391_fdputs` is the write of a string's characters.
pub fdputs-write :
    (S : System) (lib_fuel a n r : ℕ) (s s' : S.State)
    → ece391_strlen lib_fuel (S.mem s) a ≡ some n
    → S.write 1 a n s ≡ some (r, s')
    → ece391_fdputs S lib_fuel 1 a s ≡ some (tt, s')
unfolding ece391_fdputs
fdputs-write S lib_fuel a n r s s' long written =
    rw (ece391_fdputs, ◌>>=◌, look, long, written) refl

-- `ece391_fdputs` of a C string that is not empty prints its characters.
pub fdputs_prints :
    (M : Machine) (lib_fuel own a n : ℕ) (s : Session)
    → IsPrinting s.kernel own
    → IsCString s.kernel.display.mem a n
    → n < lib_fuel
    → 0 < a
    → 0 < n
    → n < 0x8000_0000
    → (a + n ≤ video) ⊎ (video + 0x4000 ≤ a)
    → (d : Display) × (ece391_fdputs (kernel_system M) lib_fuel 1 a s ≡ some (tt, after_write s d))
      × Keeps s.kernel.display d own
      × Displays own (bytes_at s.kernel.display.mem a n) s.kernel (record s.kernel { display = d })
      × IsPrinting (record s.kernel { display = d }) own
fdputs_prints M lib_fuel own a n s p c enough nonnull positive small apart =
    let m = s.kernel.display.mem in
    let long : ece391_strlen lib_fuel m a ≡ some n =
      ece391_strlen-strlen lib_fuel m a ∙ (strlen_iff lib_fuel m a n).1 (c, enough) in
    let (d, e, keeps, shown, p') = write_prints M own a n s p nonnull positive small apart in
    (d, fdputs-write (kernel_system M) lib_fuel a n n s (after_write s d) long e, keeps, shown, p')
