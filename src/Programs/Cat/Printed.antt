-- ===== src/Programs/Cat/Printed.antt =====
-- What syscalls/ece391cat.c prints of the file that its argument names.
use Prim.Native.String.{String}
use lightweight_operating_sy.Prelude.{
  List, [], subst, ℕ, zero, suc, length, ◌+◌, ◌-◌, ◌*◌, ◌<◌, ◌≤◌, ◌≡◌, ◌≢◌, refl, sym, ap, ◌∙◌,
  arith, some, Memory,
}
use lightweight_operating_sy.FileDriver.{file_at, with_memory}
use lightweight_operating_sy.FileDriver.Table.{
  file_at-with_file_self, file_at-with_file_ne, cur_process_local-with_file,
}
use lightweight_operating_sy.FileDriver.ToEnd.{file_bytes, file_bytes-same}
use lightweight_operating_sy.FileSys.{FileSystem, file_size}
use lightweight_operating_sy.FileSys.Layout.{
  IsMounted-same, IsFile-same, file_byte_same, size_same, blocks_same, image_end,
}
use lightweight_operating_sy.Kernel.{Kernel}
use lightweight_operating_sy.Process.{FileDescriptor, file_operations_table}
use lightweight_operating_sy.Programs.Cat.{cat}
use lightweight_operating_sy.Programs.Cat.ByName.{
  IsGiven, given, given_image, given_screens, getargs_call, open_call, opened,
}
use lightweight_operating_sy.Programs.Cat.Copying.{cat-cat_loop}
use lightweight_operating_sy.Programs.Cat.FromFile.{IsCatting, remaining, cat_loop_prints}
use lightweight_operating_sy.Programs.Printing.{Displays, Displays-append, silent}
use lightweight_operating_sy.Programs.OnKernel.{Machine, Session, kernel_system, of_outcome}

module _ (k : Kernel) (buf own n idx inode : ℕ) (g : IsGiven k buf own n idx inode) where
  same_size : file_size (given k buf) k.fs inode ≡ file_size k.display.mem k.fs inode
  same_size =
      size_same k.display.mem (given k buf) k.fs g.mounted (given_image k buf own n idx inode g)
        inode g.file

  same_end : image_end (given k buf) k.fs ≡ image_end k.display.mem k.fs
  same_end =
      ap (λ (t : ℕ). k.fs.data_blocks + t * 4096)
        (blocks_same k.display.mem (given k buf) k.fs g.mounted
          (given_image k buf own n idx inode g))

  module _ (i : ℕ) (lo : 2 ≤ i) (hi : i < 8) where
    f : FileDescriptor
    f = record (file_at k i) {
      operations_table = file_operations_table;
      inode = inode;
      file_position = 0;
      flags = 1;
    }

    at_i : file_at (opened k buf own n idx inode g i) i ≡ f
    unfolding opened f
    at_i = file_at-with_file_self (with_memory k (given k buf)) i _

    at_1 : file_at (opened k buf own n idx inode g i) 1 ≡ file_at k 1
    unfolding opened
    at_1 = file_at-with_file_ne (with_memory k (given k buf)) i 1 _ (λ e. omega arith)

    opened-IsCatting : IsCatting (opened k buf own n idx inode g i) i buf own
    unfolding opened f
    opened-IsCatting = record {
      readable = record {
        mounted =
            IsMounted-same k.display.mem (given k buf) k.fs g.mounted
              (given_image k buf own n idx inode g);
        file = rw at_i (
            IsFile-same k.display.mem (given k buf) k.fs g.mounted
              (given_image k buf own n idx inode g) inode g.file);
        apart = rw same_end g.apart;
        chunk_pos = omega arith;
      };
      within = rw at_i (omega arith);
      fd_in = (lo, hi);
      reads_file = rw at_i refl;
      active = λ z. used (sym (ap (λ (h : FileDescriptor). h.flags) at_i) ∙ z);
      printing = record {
        prints = rw at_1 g.printing.prints;
        out_active = rw at_1 g.printing.out_active;
        terminal =
            cur_process_local-with_file (with_memory k (given k buf)) i _ ∙ g.printing.terminal;
        own_in = g.printing.own_in;
        on = record { col_in = g.printing.on.col_in; row_in = g.printing.on.row_in };
      };
      image_apart = rw same_end g.image_apart;
      buf_apart = g.buf_apart;
      buf_pos = g.buf_pos;
    }
      where
        used : ◌≢◌ {A = ℕ} 1 0
        used e = omega arith

    remaining-opened :
        remaining (opened k buf own n idx inode g i) i
        ≡ file_bytes k.display.mem k.fs inode 0 (file_size k.display.mem k.fs inode)
    unfolding opened f
    remaining-opened =
        rw (at_i, same_size, minus_zero)
          (file_bytes-same k.display.mem (given k buf) k.fs inode 0
            (file_size k.display.mem k.fs inode)
            (λ j p q.
              file_byte_same k.display.mem (given k buf) k.fs g.mounted
                (given_image k buf own n idx inode g) inode g.file j (omega arith)))
      where
        minus_zero : file_size k.display.mem k.fs inode - 0 ≡ file_size k.display.mem k.fs inode
        minus_zero = omega arith

length-file_bytes :
    (m : Memory) (fs : FileSystem) (inode i n : ℕ) → length (file_bytes m fs inode i n) ≡ n
unfolding file_bytes
length-file_bytes m fs inode i zero = refl
length-file_bytes m fs inode i (suc n) = ap suc (length-file_bytes m fs inode (i + 1) n)

-- `cat` with the name of a sound regular file as its argument, as `IsGiven` states, and more fuel than
-- the file is long: it ends with status 0, and what it has put on the screen of its terminal, as `Displays`
-- states, is the file, all its bytes in order and no others.
pub cat_prints :
    (M : Machine) (text : String → ℕ) (lib_fuel fuel : ℕ) (s : Session) (buf own n idx inode : ℕ)
    → IsGiven s.kernel buf own n idx inode
    → n < M.lookup_fuel
    → file_size s.kernel.display.mem s.kernel.fs inode < fuel
    → (s' : Session) × (cat (kernel_system M) text lib_fuel fuel buf s ≡ some (0, s'))
      × Displays own
          (file_bytes s.kernel.display.mem s.kernel.fs inode 0
            (file_size s.kernel.display.mem s.kernel.fs inode))
          s.kernel
          s'.kernel
unfolding of_outcome opened
cat_prints M text lib_fuel fuel s buf own n idx inode g name_fuel h =
    let k = s.kernel in
    let (i, lo, hi, call) = open_call k buf own n idx inode g M name_fuel in
    let all = remaining-opened k buf own n idx inode g i lo hi in
    let s1 : Session = record { kernel = opened k buf own n idx inode g i } in
    let (s', loop, out) =
      cat_loop_prints M i buf own text lib_fuel fuel s1
        (opened-IsCatting k buf own n idx inode g i lo hi) (rw (all, length-file_bytes) h) in
    let got = getargs_call k buf own n idx inode g in
    (
      s',
      cat-cat_loop (kernel_system M) text lib_fuel fuel buf i s
            (record { kernel = with_memory k (given k buf) }) s1 (rw (got, of_outcome) refl)
            (rw (call, of_outcome) refl) (λ e. omega arith)
          ∙ loop,
      subst (λ (t : List ℕ). Displays own t k s'.kernel) all
          (Displays-append own [] (remaining s1.kernel i) k s1.kernel s'.kernel
            (silent own k s1.kernel refl (given_screens k buf own n idx inode g)) out),
    )
