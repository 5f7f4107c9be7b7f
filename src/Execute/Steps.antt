-- ===== src/Execute/Steps.antt =====
-- The count over sequences of calls of `execute` and `halt`, between other steps of the kernel.
use mathlib.Core.Option.{some-injective}
use lightweight_operating_sy.Prelude.{ℕ, ◌≤◌, ◌≡◌, subst, Option, none, some, Memory}
use lightweight_operating_sy.Kernel.{Kernel}
use lightweight_operating_sy.Paging.{PdtEntryPage}
use lightweight_operating_sy.Execute.Command.{Frame}
use lightweight_operating_sy.Execute.Accounts.{IsAccounted, few}
use lightweight_operating_sy.Execute.{Execution, returned, runs, resumes, fault, execute, halt}
use lightweight_operating_sy.Execute.Census.{IsKept, IsRunning, execute-IsKept, halt-IsKept}

-- The state that a call ends in, unless it hangs.
abbrev pub state_of : Execution → Option Kernel
state_of fault = none
state_of (returned v k) = some k
state_of (runs pid eip k) = some k
state_of (resumes ebp v k) = some k

state_of-IsAccounted :
    (e : Execution) (u : Kernel) → state_of e ≡ some u → IsKept e → IsAccounted u.processes
state_of-IsAccounted fault u e kept = cc
state_of-IsAccounted (returned v k) u e kept =
    subst (λ (w : Kernel). IsAccounted w.processes) (some-injective k u e) kept
state_of-IsAccounted (runs pid eip k) u e kept =
    subst (λ (w : Kernel). IsAccounted w.processes) (some-injective k u e) kept
state_of-IsAccounted (resumes ebp v k) u e kept =
    subst (λ (w : Kernel). IsAccounted w.processes) (some-injective k u e) kept

-- What can happen to the processes: a call of `execute`, the end of a process that may end, and all that
-- leaves the two globals alone and boots one of the three shells at most: a switch to another process,
-- any other system call, and the keyboard's request for a new shell.
pub data Step : Kernel → Kernel → Type 0 where
  executed :
      {k u : Kernel}
      → (fuel : ℕ) (f : Frame) (stack : Memory) (new_page : PdtEntryPage)
        (unset ebp command_user : ℕ)
      → state_of (execute fuel f stack new_page unset ebp command_user k) ≡ some u
      → Step k u
  halted :
      {k u : Kernel}
      → (fuel : ℕ) (f : Frame) (stack : Memory) (new_page : PdtEntryPage) (unset ebp status : ℕ)
      → IsRunning k.processes
      → state_of (halt fuel f stack new_page unset ebp status k) ≡ some u
      → Step k u
  elsewhere :
      {k u : Kernel}
      → u.processes.aux_processes ≡ k.processes.aux_processes
      → u.processes.active_processes ≡ k.processes.active_processes
      → u.processes.shell_init_boot ≤ 3
      → Step k u

pub data Reach (k : Kernel) : Kernel → Type 0 where
  here : Reach k k
  next : {t u : Kernel} → Reach k t → Step t u → Reach k u

Step-IsAccounted : {t u : Kernel} → Step t u → IsAccounted t.processes → IsAccounted u.processes
Step-IsAccounted {t} {u} (executed fuel f stack new_page unset ebp command_user done) c =
    state_of-IsAccounted _ u done (execute-IsKept fuel f stack new_page unset ebp command_user t c)
Step-IsAccounted {t} {u} (halted fuel f stack new_page unset ebp status running done) c =
    state_of-IsAccounted _ u done (halt-IsKept fuel f stack new_page unset ebp status t c running)
Step-IsAccounted (elsewhere same_count same_slots shell) c = record {
  counted = rw (same_count, same_slots) c.counted;
  shells = shell;
}

-- Over any sequence of calls of `execute` that return or enter a program, of calls of `halt` by running
-- processes, and of steps that leave the count and the slots alone, from a state where `aux_processes` is
-- the number of active slots 3 to 5: it is again, so it is 3 at most.
pub Reach-IsAccounted :
    (k u : Kernel)
    → IsAccounted k.processes
    → Reach k u
    → IsAccounted u.processes × (u.processes.aux_processes ≤ 3)
Reach-IsAccounted k u c steps = let c' = go steps in (c', few u.processes c')
  where
    go : {w : Kernel} → Reach k w → IsAccounted w.processes
    go here = c
    go (next before step) = Step-IsAccounted step (go before)
