-- ===== src/Programs/OnKernel.antt =====
-- The system calls that the programs make, answered by the kernel of this library.
use lightweight_operating_sy.Prelude.{
  ℕ, ◌||◌, Option, none, some, Memory, minus_one, slt, if◌then◌else◌,
}
use lightweight_operating_sy.FileDriver.{with_memory}
use lightweight_operating_sy.Kernel.{Kernel}
use lightweight_operating_sy.Paging.{PdtEntryTable, PtEntry}
use lightweight_operating_sy.Programs.{System}
use lightweight_operating_sy.Rtc.{rtc_read_finish}
use lightweight_operating_sy.Scheduler
use lightweight_operating_sy.Syscall
use lightweight_operating_sy.Syscall.{Wait, Outcome, returned, waiting, fault, enter, tick}
use lightweight_operating_sy.Terminal.{terminal_read_finish}

-- What the kernel does not decide: what its stack and the clock's register hold, where `pt_vidmap` lies,
-- the state in which the interrupts leave a call that waits, the run of a program that `execute` starts,
-- and what a call of a valid number does with the registers as they are.
pub record Machine : Type 0 where
  pub lookup_fuel : ℕ
  pub prev : ℕ
  pub stack : Memory
  pub vidmem : PdtEntryTable
  pub vidmem_pt : PtEntry
  pub pt_vidmap_address : ℕ
  pub until : Wait → Kernel → Option Kernel
  pub child : ℕ → Kernel → Option (ℕ × Kernel)
  pub by_registers : ℕ → Kernel → Option (ℕ × Kernel)

-- What a program runs in.
pub record Session : Type 0 where
  pub kernel : Kernel

-- The rest of a call, once it need not wait any more.
unfoldable pub finish : Wait → Kernel → ℕ × Kernel
finish (enter buf nbytes) k = terminal_read_finish buf nbytes k
finish (tick cur_process) k =
    let (ret, rtc) = rtc_read_finish cur_process k.rtc in (ret, record k { rtc = rtc })

abbrev with_kernel : Option (ℕ × Kernel) → Option (ℕ × Session)
with_kernel none = none
with_kernel (some (ret, k)) = some (ret, record { kernel = k })

module _ (M : Machine) where
  unfoldable pub of_outcome : Outcome → Option (ℕ × Session)
  unfolding finish
  of_outcome (returned ret k) = some (ret, record { kernel = k })
  of_outcome (waiting wait k) = elim (M.until wait k) [
    | none ↦ none
    | some k' ↦ with_kernel (some (finish wait k'))
  ]
  of_outcome fault = none

  -- `sys_calls_handler`: -1 for a number below 1 or above 10.
  unfoldable pub dispatch : ℕ → Kernel → Option (ℕ × Kernel)
  dispatch number k =
      if slt number 1 || slt 10 number then some (minus_one, k) else M.by_registers number k

  abbrev pub kernel_system : System
  kernel_system = record {
    State = Session;
    mem = λ s. s.kernel.display.mem;
    set_mem = λ s m. record s { kernel = with_memory s.kernel m };
    execute = λ command s. with_kernel (M.child command s.kernel);
    read = λ fd buf nbytes s. of_outcome (Syscall.read M.stack fd buf nbytes s.kernel);
    write = λ fd buf nbytes s. of_outcome (Syscall.write fd buf nbytes s.kernel);
    opens = λ name s. of_outcome (Syscall.open_file M.lookup_fuel M.prev M.stack name s.kernel);
    close = λ fd s. of_outcome (Syscall.close fd s.kernel);
    getargs = λ buf nbytes s. of_outcome (Syscall.getargs buf nbytes s.kernel);
    vidmap = λ screen_start s.
        with_kernel
          (Scheduler.vidmap M.vidmem M.vidmem_pt M.pt_vidmap_address screen_start s.kernel);
    trap = λ number s. with_kernel (dispatch number s.kernel);
  }
