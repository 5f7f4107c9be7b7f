-- ===== src/Programs/Ls/Turn.antt =====
-- One turn of the loop of syscalls/ece391ls.c on the kernel.
use Prim.Native.String.{String}
use lightweight_operating_sy.Prelude.{
  List, subst, ℕ, suc, ◌+◌, ◌<◌, ◌≤◌, ◌≡◌, inl, inr, refl, ap, ap₂, ◌∙◌, arith, false, some, [],
  ◌∷◌, ◌++◌, ◌==◌, ==_ne, ◌||◌, slt, u32, minus_one, Memory, update, update_self, update_ne,
}
use lightweight_operating_sy.FileDriver.{file_at, dir_read, with_memory}
use lightweight_operating_sy.FileDriver.Listing.{dir_read_lem}
use lightweight_operating_sy.FileDriver.ToEnd.{bytes_at, bytes_at-same}
use lightweight_operating_sy.FileSys.{num_dir_entries, dir_entry}
use lightweight_operating_sy.Programs.{System, ◌>>=◌}
use lightweight_operating_sy.Programs.Ls.{ls_loop}
use lightweight_operating_sy.Programs.Ls.Names.{IsListing, IsListing-kept, bytes_at-snoc}
use lightweight_operating_sy.Programs.OnKernel.{Machine, Session, kernel_system, of_outcome}
use lightweight_operating_sy.Programs.Printing.{
  SameElse-IsPrinting, with_memory-IsPrinting, after_write, write_prints, Displays, Displays-append,
  silent,
}
use lightweight_operating_sy.Syscall

-- The loop's three ways on, over any system.
module _ (S : System) (text : String → ℕ) (lib_fuel fuel fd buf : ℕ) where
  pub ends_at_zero :
      (s s' : S.State)
      → S.read fd buf 32 s ≡ some (0, s')
      → ls_loop S text lib_fuel (suc fuel) fd buf s ≡ some (0, s')
  unfolding ls_loop
  ends_at_zero s s' e = rw (e, ◌>>=◌) refl

  pub one_turn :
      (n : ℕ) (s s1 s3 : S.State)
      → S.read fd buf 32 s ≡ some (n, s1)
      → 0 < n
      → n ≤ 32
      → buf + 33 < 0x1_0000_0000
      → S.write 1 buf (n + 1) (S.set_mem s1 (update (S.mem s1) (buf + n) b'\n')) ≡ some (n + 1, s3)
      → ls_loop S text lib_fuel (suc fuel) fd buf s ≡ ls_loop S text lib_fuel fuel fd buf s3
  unfolding ls_loop
  one_turn n s s1 s3 e positive small room w =
      let more : (n == 0) ≡ false = ==_ne n 0 (λ z. omega arith) in
      let valid : (n == minus_one) ≡ false = ==_ne n minus_one (λ z. omega arith) in
      let valid' : (n + 1 == minus_one) ≡ false = ==_ne (n + 1) minus_one (λ z. omega arith) in
      let at : u32 (buf + n) ≡ buf + n = omega arith in
      let count : u32 (n + 1) ≡ n + 1 = omega arith in
      rw (e, ◌>>=◌, more, valid, at, count, w, valid') refl

abbrev pub position : ℕ → Session → ℕ
position fd s = (file_at s.kernel fd).file_position

module _ (M : Machine) (fd buf own : ℕ) (len : ℕ → ℕ) where
  pub read_call :
      (s : Session)
      → IsListing s.kernel fd buf own len
      → (kernel_system M).read fd buf 32 s
        ≡ some (
          (dir_read M.stack fd buf 32 s.kernel).0,
          record { kernel = (dir_read M.stack fd buf 32 s.kernel).1 },
        )
  unfolding Syscall.read Syscall.call_read of_outcome
  read_call s l =
      let k = s.kernel in
      let good : (Syscall.bad_fd fd || (buf == 0 || slt 32 0)) ≡ false =
        ground (arith, l.fd_in, l.buf_in) in
      let not_out : (fd == 1) ≡ false = ==_ne fd 1 (λ e. omega (arith, l.fd_in)) in
      let used : ((file_at k fd).flags == 0) ≡ false = ==_ne _ 0 l.active in
      rw (good, not_out, used, l.reads_dir) refl

  -- What one turn before the end does.
  pub record Turn (s : Session) : Type 0 where
    pub n : ℕ
    pub s1 : Session
    pub s3 : Session
    pub reads : (kernel_system M).read fd buf 32 s ≡ some (n, s1)
    pub positive : 0 < n
    pub small : n ≤ 32
    pub writes :
        (kernel_system M).write 1 buf
          (n + 1)
          ((kernel_system M).set_mem s1 (update ((kernel_system M).mem s1) (buf + n) b'\n'))
        ≡ some (n + 1, s3)
    pub listing : IsListing s3.kernel fd buf own len
    pub moved : position fd s3 ≡ position fd s + 1
    pub line :
        Displays own
          (bytes_at s.kernel.display.mem
              (dir_entry s.kernel.display.mem s.kernel.fs (position fd s))
              (len (position fd s))
            ++ b'\n' ∷ [])
          s.kernel
          s3.kernel
    pub same_fs : s3.kernel.fs ≡ s.kernel.fs
    pub same_boot :
        (a : ℕ)
        → s.kernel.fs.boot_block ≤ a
        → a < s.kernel.fs.boot_block + 4096
        → s3.kernel.display.mem a ≡ s.kernel.display.mem a

  pub turn :
      (s : Session)
      → IsListing s.kernel fd buf own len
      → position fd s < num_dir_entries s.kernel.display.mem s.kernel.fs
      → Turn s
  turn s l before =
      let k = s.kernel in
      let p = (file_at k fd).file_position in
      let m = k.display.mem in
      let entry = dir_entry m k.fs p in
      let n = len p in
      let short : len p ≤ 32 = (l.names p before).short in
      let k1 = (dir_read M.stack fd buf 32 k).1 in
      elim (dir_read_lem M.stack fd buf 32 (len p) k (λ h. l.names p h) (inl (omega arith))) [
        | inl (past, _, _, _, _) ↦ absurd (omega arith)
        | inr (_, counted, moved, listed, same) ↦
            let count : (dir_read M.stack fd buf 32 k).0 ≡ len p = counted ∙ omega arith in
            let m2 = update k1.display.mem (buf + len p) b'\n' in
            let s1 : Session = record { kernel = k1 } in
            let s2 : Session = record { kernel = with_memory k1 m2 } in
            let p1 =
              SameElse-IsPrinting k k1 fd own same (λ e. omega (arith, l.fd_in)) l.printing in
            let p2 = with_memory-IsPrinting k1 own m2 p1 in
            let before_write = silent own k (with_memory k1 m2) same.same_keyboard (record {
              pages = λ a lo hi.
                  update_ne k1.display.mem (buf + len p) a b'\n' (λ z. omega (arith, l.buf_video))
                  ∙ listed.outside a (omega (arith, l.buf_video, count));
              cursors = same.same_cursors;
            }) in
            let (d, e, keeps, prints, p3) =
              write_prints M own buf (len p + 1) s2 p2 l.buf_in.0 (omega arith) (omega arith)
                (omega (arith, l.buf_video)) in
            let boot : (a : ℕ) → k.fs.boot_block ≤ a → a < k.fs.boot_block + 4096 → d.mem a ≡ m a =
              λ a lo hi.
                keeps.outside a (omega (arith, l.boot_video))
                ∙ update_ne k1.display.mem (buf + len p) a b'\n' (λ z. omega (arith, l.boot_buf))
                ∙ listed.outside a (omega (arith, l.boot_buf, count)) in
            record {
              n = len p;
              s1 = s1;
              s3 = after_write s2 d;
              reads = read_call s l ∙ ap (λ c. some (c, s1)) count;
              positive = l.nonempty p before;
              small = short;
              writes = e;
              listing =
                  IsListing-kept k (record (with_memory k1 m2) { display = d }) fd buf own len l
                    same.same_fs boot same.same_table same.same_flags p3;
              moved = moved ∙ omega (arith, l.few);
              line =
                  subst
                    (λ (t : List ℕ). Displays own t k (record (with_memory k1 m2) { display = d }))
                    (written m k1.display.mem entry (len p)
                      (λ j h. listed.inside j (omega (arith, count))))
                    (Displays-append own [] (bytes_at m2 buf (len p + 1)) k (with_memory k1 m2)
                      (record (with_memory k1 m2) { display = d }) before_write prints);
              same_fs = same.same_fs;
              same_boot = boot;
            }
      ]
    where
      -- The name and the line end, as the array holds them.
      written :
          (m m1 : Memory) (entry n : ℕ)
          → ((j : ℕ) → j < n → m1 (buf + j) ≡ m (entry + j))
          → bytes_at (update m1 (buf + n) b'\n') buf (n + 1) ≡ bytes_at m entry n ++ b'\n' ∷ []
      written m m1 entry n h =
          let m2 = update m1 (buf + n) b'\n' in
          let next : n + 1 ≡ suc n = omega arith in
          rw (next, bytes_at-snoc m2 buf n)
            (ap₂ (λ x y. x ++ y ∷ [])
              (bytes_at-same m m2 entry buf n
                (λ j p. update_ne m1 (buf + n) (buf + j) b'\n' (λ z. omega arith) ∙ h j p))
              (update_self m1 (buf + n) b'\n'))
