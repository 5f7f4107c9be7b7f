-- ===== src/Programs/SysErr/Passing.antt =====
-- The kernel passes the tests of syscalls/ece391syserr.c.
use Prim.Native.String.{String}
use lightweight_operating_sy.Prelude.{
  ℕ, zero, suc, ◌+◌, ◌<◌, ◌≤◌, ◌≡◌, ◌⊎◌, inl, inr, refl, arith, true, some, minus_one, slt, dec_lt,
}
use lightweight_operating_sy.FileDriver.{file_at}
use lightweight_operating_sy.Kernel.{chain_fuel}
use lightweight_operating_sy.Process.{get_base_process_pcb}
use lightweight_operating_sy.Programs.{System, Program, ◌>>=◌, ◌>>◌, pure, say}
use lightweight_operating_sy.Programs.OnKernel.{
  Machine, Session, kernel_system, of_outcome, dispatch,
}
use lightweight_operating_sy.Programs.SysErr.{
  refuses, refuses_range, verdict, neg_fd, big_fd, err_neg_fd, err_big_fd, err_unopened, err_vidmap,
  err_stdin_out, err_syscall_num,
}
use lightweight_operating_sy.Scheduler
use lightweight_operating_sy.Syscall
use lightweight_operating_sy.Syscall.Descriptors.{refused}

module _ (S : System) (text : String → ℕ) (lib_fuel : ℕ) where
  refuses_lem :
      (call : Program S ℕ) (line : String) (fail : ℕ) (s : S.State)
      → call s ≡ some (minus_one, s)
      → refuses S text lib_fuel call line fail s ≡ some (fail, s)
  unfolding refuses
  refuses_lem call line fail s e = rw (e, ◌>>=◌) refl

  refuses_range_lem :
      (call : ℕ → Program S ℕ) (line : String) (left i fail : ℕ) (s : S.State)
      → ((j : ℕ) → i ≤ j → j < i + left → call j s ≡ some (minus_one, s))
      → refuses_range S text lib_fuel call line left i fail s ≡ some (fail, s)
  unfolding refuses_range
  refuses_range_lem call line zero i fail s h = refl
  refuses_range_lem call line (suc left) i fail s h =
      rw (refuses_lem (call i) line fail s (h i (omega arith) (omega arith)), ◌>>=◌)
        (refuses_range_lem call line left (i + 1) fail s (λ j p q. h j (omega arith) (omega arith)))

  -- A test that passes: its message and 0.
  abbrev pub passed : String → Program S ℕ
  passed line = do say S lib_fuel text line; pure 0

module _ (M : Machine) (s : Session) where
  read_refused :
      (fd buf nbytes : ℕ)
      → Syscall.read M.stack fd buf nbytes s.kernel ≡ Syscall.returned minus_one s.kernel
      → (kernel_system M).read fd buf nbytes s ≡ some (minus_one, s)
  unfolding of_outcome
  read_refused fd buf nbytes e = rw (e, of_outcome) refl

  write_refused :
      (fd buf nbytes : ℕ)
      → Syscall.write fd buf nbytes s.kernel ≡ Syscall.returned minus_one s.kernel
      → (kernel_system M).write fd buf nbytes s ≡ some (minus_one, s)
  unfolding of_outcome
  write_refused fd buf nbytes e = rw (e, of_outcome) refl

  close_refused :
      (fd : ℕ)
      → Syscall.close fd s.kernel ≡ Syscall.returned minus_one s.kernel
      → (kernel_system M).close fd s ≡ some (minus_one, s)
  unfolding of_outcome
  close_refused fd e = rw (e, of_outcome) refl

module _ (M : Machine) (text : String → ℕ) (lib_fuel buf : ℕ) (s : Session) where
  abbrev S : System
  S = kernel_system M

  why :
      (fd : ℕ)
      → (Syscall.bad_fd fd ≡ true) ⊎ ((file_at s.kernel fd).flags ≡ 0)
      → (Syscall.bad_fd fd ≡ true)
        ⊎ ((buf ≡ 0) ⊎ ((slt 31 0 ≡ true) ⊎ ((file_at s.kernel fd).flags ≡ 0)))
  why fd (inl bad) = inl bad
  why fd (inr unused) = inr (inr (inr unused))

  -- The calls with a descriptor that is refused, as the tests make them.
  read_call :
      (fd : ℕ)
      → (Syscall.bad_fd fd ≡ true) ⊎ ((file_at s.kernel fd).flags ≡ 0)
      → S.read fd buf 31 s ≡ some (minus_one, s)
  read_call fd bad =
      read_refused M s fd buf 31 ((refused M.stack fd buf 31 s.kernel).0 (why fd bad)).0

  write_call :
      (fd : ℕ)
      → (Syscall.bad_fd fd ≡ true) ⊎ ((file_at s.kernel fd).flags ≡ 0)
      → S.write fd buf 31 s ≡ some (minus_one, s)
  write_call fd bad =
      write_refused M s fd buf 31 ((refused M.stack fd buf 31 s.kernel).0 (why fd bad)).1

  close_call :
      (fd : ℕ)
      → (slt fd 2 ≡ true) ⊎ ((slt 7 fd ≡ true) ⊎ ((file_at s.kernel fd).flags ≡ 0))
      → S.close fd s ≡ some (minus_one, s)
  close_call fd bad = close_refused M s fd ((refused M.stack fd buf 31 s.kernel).3 bad)

  neg_fd_passes : err_neg_fd S text lib_fuel buf s ≡ passed S text lib_fuel "err_neg_fd: PASS\n" s
  unfolding err_neg_fd verdict
  neg_fd_passes =
      rw
        (
          err_neg_fd,
          refuses_lem S text lib_fuel _ "read fail\n" 0 s (read_call neg_fd (inl refl)),
          refuses_lem S text lib_fuel _ "write fail\n" 0 s (write_call neg_fd (inl refl)),
          refuses_lem S text lib_fuel _ "close fail\n" 0 s (close_call neg_fd (inl refl)),
          ◌>>=◌,
        )
        refl

  big_fd_passes : err_big_fd S text lib_fuel buf s ≡ passed S text lib_fuel "err_big_fd: PASS\n" s
  unfolding err_big_fd verdict
  big_fd_passes =
      rw
        (
          err_big_fd,
          refuses_lem S text lib_fuel _ "read fail\n" 0 s (read_call big_fd (inl refl)),
          refuses_lem S text lib_fuel _ "write fail\n" 0 s (write_call big_fd (inl refl)),
          refuses_lem S text lib_fuel _ "close fail\n" 0 s (close_call big_fd (inr (inl refl))),
          ◌>>=◌,
        )
        refl

  stdin_out_passes :
      err_stdin_out S text lib_fuel buf s ≡ passed S text lib_fuel "err_stdin_out: PASS\n" s
  unfolding err_stdin_out verdict
  stdin_out_passes =
      let (_, r, w, _) = refused M.stack 0 buf 31 s.kernel in
      rw
        (
          err_stdin_out,
          refuses_lem S text lib_fuel _ "write to stdin fail\n" 0 s (write_refused M s 0 buf 31 w),
          refuses_lem S text lib_fuel _ "read from stdout fail\n" 0 s (read_refused M s 1 buf 31 r),
          ◌>>=◌,
        )
        refl

  syscall_num_passes :
      err_syscall_num S text lib_fuel s ≡ passed S text lib_fuel "err_syscall_num: PASS\n" s
  unfolding err_syscall_num verdict dispatch
  syscall_num_passes =
      rw
        (
          err_syscall_num,
          refuses_lem S text lib_fuel (S.trap big_fd) "syscall 0 fail\n" 0 s refl,
          refuses_lem S text lib_fuel (S.trap neg_fd) "big num syscall fail\n" 0 s refl,
          refuses_lem S text lib_fuel (S.trap 0) "neg num syscall fail\n" 0 s refl,
          ◌>>=◌,
        )
        refl

  vidmap_passes :
      (base : ℕ)
      → get_base_process_pcb chain_fuel s.kernel.processes.pcbs s.kernel.processes.current
        ≡ some base
      → err_vidmap S text lib_fuel s ≡ passed S text lib_fuel "err_vidmap: PASS\n" s
  unfolding err_vidmap verdict Scheduler.vidmap
  vidmap_passes base chain =
      rw
        (
          err_vidmap,
          refuses_lem S text lib_fuel (S.vidmap 0) "Null pointer fail\n" 0 s
              (rw (chain, Scheduler.vidmap) refl),
          refuses_lem S text lib_fuel (S.vidmap 0x40_0000) "Kernel pointer fail fail\n" 0 s
              (rw (chain, Scheduler.vidmap) refl),
          ◌>>=◌,
        )
        refl

  unopened_passes :
      ((t : ℕ) → 2 ≤ t → t < 8 → (file_at s.kernel t).flags ≡ 0)
      → err_unopened S text lib_fuel buf s ≡ passed S text lib_fuel "err_unopened: PASS\n" s
  unfolding err_unopened verdict
  unopened_passes unused =
      rw
        (
          err_unopened,
          refuses_range_lem S text lib_fuel (λ t. S.close t) "close unopened or invalid fd fail\n" 8
              0 0 s (λ t p q. close_call t (low t q)),
          refuses_range_lem S text lib_fuel (λ t. S.read t buf 31) "read from unopened fd fail\n" 6
              2 0 s (λ t p q. read_call t (inr (unused t p q))),
          refuses_range_lem S text lib_fuel (λ t. S.write t buf 31) "write to unopened fd fail\n" 6
              2 0 s (λ t p q. write_call t (inr (unused t p q))),
          ◌>>=◌,
        )
        refl
    where
      low :
          (t : ℕ) → t < 8 → (slt t 2 ≡ true) ⊎ ((slt 7 t ≡ true) ⊎ ((file_at s.kernel t).flags ≡ 0))
      low t h = elim (dec_lt t 2) [
        | yes lt ↦ inl (ground arith)
        | no ge ↦ inr (inr (unused t (omega arith) h))
      ]

-- Six of the tests of `syserr` pass on the kernel, for a process that has no descriptor from 2 to 7 in
-- use and whose chain of parents ends: each prints that it passes, returns 0, and does nothing else.
pub syserr_passes :
    (M : Machine) (text : String → ℕ) (lib_fuel buf base : ℕ) (s : Session)
    → ((t : ℕ) → 2 ≤ t → t < 8 → (file_at s.kernel t).flags ≡ 0)
    → get_base_process_pcb chain_fuel s.kernel.processes.pcbs s.kernel.processes.current ≡ some base
    → let S = kernel_system M in
      (err_neg_fd S text lib_fuel buf s ≡ passed S text lib_fuel "err_neg_fd: PASS\n" s)
      × (err_big_fd S text lib_fuel buf s ≡ passed S text lib_fuel "err_big_fd: PASS\n" s)
      × (err_unopened S text lib_fuel buf s ≡ passed S text lib_fuel "err_unopened: PASS\n" s)
      × (err_vidmap S text lib_fuel s ≡ passed S text lib_fuel "err_vidmap: PASS\n" s)
      × (err_stdin_out S text lib_fuel buf s ≡ passed S text lib_fuel "err_stdin_out: PASS\n" s)
      × (err_syscall_num S text lib_fuel s ≡ passed S text lib_fuel "err_syscall_num: PASS\n" s)
syserr_passes M text lib_fuel buf base s unused chain = (
  neg_fd_passes M text lib_fuel buf s,
  big_fd_passes M text lib_fuel buf s,
  unopened_passes M text lib_fuel buf s unused,
  vidmap_passes M text lib_fuel buf s base chain,
  stdin_out_passes M text lib_fuel buf s,
  syscall_num_passes M text lib_fuel buf s,
)
