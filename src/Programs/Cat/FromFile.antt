-- ===== src/Programs/Cat/FromFile.antt =====
-- A regular file of the kernel as what syscalls/ece391cat.c reads, and the terminal as what it writes to.
use Prim.Native.String.{String}
use lightweight_operating_sy.Prelude.{
  subst, ℕ, ◌+◌, ◌-◌, ◌*◌, ◌<◌, ◌≤◌, ◌≡◌, ◌≢◌, ◌⊎◌, inl, inr, refl, sym, ap, ◌∙◌, arith, false,
  some, List, [], ◌++◌, ◌==◌, ==_ne, ◌||◌, min, slt, length,
}
use lightweight_operating_sy.FileDriver.{file_at, file_read}
use lightweight_operating_sy.FileDriver.Reading.{IsRead, file_read_lem}
use lightweight_operating_sy.FileDriver.ToEnd.{
  IsReadable, bytes_at, file_bytes, file_bytes-same, read-IsReadable, read_size, read_bytes,
  image_kept,
}
use lightweight_operating_sy.FileSys.{file_size}
use lightweight_operating_sy.FileSys.Layout.{
  SameImage, IsMounted-same, IsFile-same, file_byte_same, size_same, blocks_same, image_end,
}
use lightweight_operating_sy.Kernel.{Kernel}
use lightweight_operating_sy.Process.{ReadFunc}
use lightweight_operating_sy.Programs.Cat.Copying.{IsStream, cat_loop_lem}
use lightweight_operating_sy.Programs.Cat.{cat_loop}
use lightweight_operating_sy.Programs.Printing.{
  IsPrinting, SameElse-IsPrinting, after_write, write_prints, Displays, Displays-append, silent,
}
use lightweight_operating_sy.Programs.OnKernel.{Machine, Session, kernel_system, of_outcome}
use lightweight_operating_sy.Screen.{Display, video}
use lightweight_operating_sy.Syscall
use lightweight_operating_sy.Terminal.Showing.{SameScreens, SameScreens-refl}
use lightweight_operating_sy.Terminal.Keeping.{Keeps}

-- Descriptor `fd` is a sound file of a mounted image, at a position that is not past its end; descriptor
-- 1 is the terminal of a process of terminal `own`, whose cursor is on its page; and the image, the array
-- and the video pages do not overlap.
pub record IsCatting (k : Kernel) (fd buf own : ℕ) : Type 0 where
  pub readable : IsReadable k fd buf 1024
  pub within : (file_at k fd).file_position ≤ file_size k.display.mem k.fs (file_at k fd).inode
  pub fd_in : (2 ≤ fd) × (fd < 8)
  pub reads_file : (file_at k fd).operations_table.read ≡ some ReadFunc.file_read
  pub active : (file_at k fd).flags ≢ 0
  pub printing : IsPrinting k own
  pub image_apart : (image_end k.display.mem k.fs ≤ video) ⊎ (video + 0x4000 ≤ k.fs.boot_block)
  pub buf_apart : (buf + 1024 ≤ video) ⊎ (video + 0x4000 ≤ buf)
  pub buf_pos : 0 < buf

-- The bytes of the file from the position on.
abbrev pub remaining : Kernel → ℕ → List ℕ
remaining k fd =
    let f = file_at k fd in
    file_bytes k.display.mem k.fs f.inode f.file_position
      (file_size k.display.mem k.fs f.inode - f.file_position)

-- A write to the terminal keeps all this, and the bytes left.
module _ (k : Kernel) (fd buf own : ℕ) (d : Display) (c : IsCatting k fd buf own)
    (keeps : Keeps k.display d own) (printing : IsPrinting (record k { display = d }) own) where
  kept_image : SameImage k.display.mem d.mem k.fs
  kept_image = record { same = λ a lo hi. keeps.outside a (omega (arith, c.image_apart)) }

  wrote : Kernel
  wrote = record k { display = d }

  size_kept :
      file_size d.mem k.fs (file_at k fd).inode ≡ file_size k.display.mem k.fs (file_at k fd).inode
  size_kept =
      size_same k.display.mem d.mem k.fs c.readable.mounted kept_image (file_at k fd).inode
        c.readable.file

  ends_kept : image_end d.mem k.fs ≡ image_end k.display.mem k.fs
  ends_kept =
      ap (λ (t : ℕ). k.fs.data_blocks + t * 4096)
        (blocks_same k.display.mem d.mem k.fs c.readable.mounted kept_image)

  wrote-IsCatting : IsCatting (record k { display = d }) fd buf own
  wrote-IsCatting = record {
    readable = record {
      mounted = IsMounted-same k.display.mem d.mem k.fs c.readable.mounted kept_image;
      file =
          IsFile-same k.display.mem d.mem k.fs c.readable.mounted kept_image (file_at k fd).inode
            c.readable.file;
      apart = rw ends_kept c.readable.apart;
      chunk_pos = omega arith;
    };
    within = rw size_kept c.within;
    fd_in = c.fd_in;
    reads_file = c.reads_file;
    active = c.active;
    printing = printing;
    image_apart = rw ends_kept c.image_apart;
    buf_apart = c.buf_apart;
    buf_pos = c.buf_pos;
  }

  wrote_remaining : remaining (record k { display = d }) fd ≡ remaining k fd
  wrote_remaining =
      let f = file_at k fd in
      rw size_kept (
        file_bytes-same k.display.mem d.mem k.fs f.inode f.file_position
          (file_size k.display.mem k.fs f.inode - f.file_position)
          (λ j lo hi.
            file_byte_same k.display.mem d.mem k.fs c.readable.mounted kept_image f.inode
              c.readable.file j (omega (arith, c.within))))

-- A read of some bytes keeps all this too.
module _ (k k1 : Kernel) (fd buf own n : ℕ) (c : IsCatting k fd buf own) (le : n ≤ 1024)
    (fits : (file_at k fd).file_position + n ≤ file_size k.display.mem k.fs (file_at k fd).inode)
    (r : IsRead k k1 fd buf n) where
  read-IsCatting : IsCatting k1 fd buf own
  read-IsCatting = record {
    readable = read-IsReadable fd buf 1024 k k1 n c.readable le r;
    within = omega (arith, r.position, fits, read_size fd buf 1024 k k1 n c.readable le r);
    fd_in = c.fd_in;
    reads_file = ap (λ t. t.read) r.same.same_table ∙ c.reads_file;
    active = λ z. c.active (sym r.same.same_flags ∙ z);
    printing = SameElse-IsPrinting k k1 fd own r.same (λ e. omega (arith, c.fd_in)) c.printing;
    image_apart =
        rw
          (
            r.same.same_fs,
            blocks_same k.display.mem k1.display.mem k.fs c.readable.mounted
                (image_kept fd buf 1024 k k1 n c.readable le r),
          )
          c.image_apart;
    buf_apart = c.buf_apart;
    buf_pos = c.buf_pos;
  }

module _ (M : Machine) (fd buf own : ℕ) where
  read_call :
      (k : Kernel)
      → IsCatting k fd buf own
      → Syscall.read M.stack fd buf 1024 k ≡ Syscall.of_pair (file_read fd buf 1024 k)
  unfolding Syscall.read Syscall.call_read
  read_call k c =
      let good : (Syscall.bad_fd fd || (buf == 0 || slt 1024 0)) ≡ false =
        ground (arith, c.fd_in, c.buf_pos) in
      let not_out : (fd == 1) ≡ false = ==_ne fd 1 (λ e. omega (arith, c.fd_in)) in
      let used : ((file_at k fd).flags == 0) ≡ false = ==_ne _ 0 c.active in
      rw (good, not_out, used, c.reads_file) refl

  read_ends :
      (s : Session)
      → IsCatting s.kernel fd buf own
      → let S = kernel_system M in
        ((s' : Session) × (S.read fd buf 1024 s ≡ some (0, s'))
          × (remaining s.kernel fd ≡ [])
          × Displays own [] s.kernel s'.kernel)
        ⊎ ((n : ℕ) × (s' : Session) × (S.read fd buf 1024 s ≡ some (n, s'))
            × (0 < n)
            × (n ≤ 1024)
            × (remaining s.kernel fd
                ≡ bytes_at s'.kernel.display.mem buf n ++ remaining s'.kernel fd)
            × Displays own [] s.kernel s'.kernel
            × IsCatting s'.kernel fd buf own)
  unfolding of_outcome
  read_ends s c =
      let k = s.kernel in
      let call : Syscall.read M.stack fd buf 1024 k ≡ Syscall.of_pair (file_read fd buf 1024 k) =
        read_call k c in
      elim (file_read_lem fd buf k 1024 c.readable.mounted c.readable.file
        (omega (arith, c.readable.apart))) [
          | inr (past, e) ↦ inl (
            record { kernel = (file_read fd buf 1024 k).1 },
            rw (call, of_outcome, ap (λ t. t.0) e) refl,
            nothing k (omega arith),
            silent own k (file_read fd buf 1024 k).1 (ap (λ (r : ℕ × Kernel). r.1.keyboard) e) (
                subst (λ (d : Display). SameScreens k.display d)
                  (sym (ap (λ (r : ℕ × Kernel). r.1.display) e)) (SameScreens-refl k.display)),
          )
          | inl (before, count, r) ↦
              let n = min 1024 (
                file_size k.display.mem k.fs (file_at k fd).inode - (file_at k fd).file_position) in
              inr (
                n,
                record { kernel = (file_read fd buf 1024 k).1 },
                rw (call, of_outcome, count) refl,
                omega arith,
                omega arith,
                sym (
                    read_bytes fd buf 1024 k (file_read fd buf 1024 k).1 n c.readable (omega arith)
                      r (omega arith)),
                silent own k (file_read fd buf 1024 k).1 r.same.same_keyboard (record {
                  pages = λ a lo hi. r.into.outside a (omega (arith, c.buf_apart));
                  cursors = r.same.same_cursors;
                }),
                read-IsCatting k (file_read fd buf 1024 k).1 fd buf own n c (omega arith)
                    (omega arith) r,
              )
        ]
    where
      nothing :
          (k : Kernel)
          → file_size k.display.mem k.fs (file_at k fd).inode ≤ (file_at k fd).file_position
          → remaining k fd ≡ []
      nothing k past =
          let none_left : file_size k.display.mem k.fs (file_at k fd).inode
                - (file_at k fd).file_position
              ≡ 0 =
            omega arith in
          unfold file_bytes in rw none_left refl

  kernel-IsStream : IsStream (kernel_system M) fd buf
  kernel-IsStream = record {
    Ready = λ s. IsCatting s.kernel fd buf own;
    left = λ s. remaining s.kernel fd;
    Out = λ bytes s s'. Displays own bytes s.kernel s'.kernel;
    joins = λ a b s s1 s2 p q. Displays-append own a b s.kernel s1.kernel s2.kernel p q;
    ends = read_ends;
    writes = λ n s c positive small.
        let (d, e, keeps, prints, printing) =
          write_prints M own buf n s c.printing c.buf_pos positive (omega arith)
            (omega (arith, c.buf_apart)) in
        (
          after_write s d,
          e,
          prints,
          wrote_remaining s.kernel fd buf own d c keeps printing,
          wrote-IsCatting s.kernel fd buf own d c keeps printing,
        );
  }

  -- The loop of `cat` on a sound regular file, with more fuel than bytes are left: it ends with status 0,
  -- and what it has put on the terminal's screen, as `Displays` states, is the bytes of the file from the
  -- position on, in order.
  pub cat_loop_prints :
      (text : String → ℕ) (lib_fuel fuel : ℕ) (s : Session)
      → IsCatting s.kernel fd buf own
      → length (remaining s.kernel fd) < fuel
      → (s' : Session) × (cat_loop (kernel_system M) text lib_fuel fuel fd buf s ≡ some (0, s'))
        × Displays own (remaining s.kernel fd) s.kernel s'.kernel
  unfolding kernel-IsStream
  cat_loop_prints text lib_fuel fuel s c h =
      cat_loop_lem (kernel_system M) text lib_fuel fd buf kernel-IsStream fuel s c h
