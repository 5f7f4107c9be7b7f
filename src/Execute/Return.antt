-- ===== src/Execute/Return.antt =====
-- The end of a program, back to the caller of `execute`.
use lightweight_operating_sy.Prelude.{
  ℕ, ◌+◌, ◌-◌, ◌/◌, ◌%◌, ◌≤◌, ◌≡◌, ◌≢◌, refl, sym, ap, ◌∙◌, arith, false, not, ◌&&◌, none, some,
  Memory, update_self, update_ne, slt,
}
use lightweight_operating_sy.Process.{ProcessControlBlock}
use lightweight_operating_sy.Process.Address.{kernel_stack_top}
use lightweight_operating_sy.Kernel.{Kernel, current_block}
use lightweight_operating_sy.Paging.{PdtEntryPage}
use lightweight_operating_sy.Paging.Walk.{walk}
use lightweight_operating_sy.Scheduler.{kernel_ds}
use lightweight_operating_sy.Execute.Command.{Frame}
use lightweight_operating_sy.Execute.Accounts.{
  IsAccounted, few, taken-update, taken_reset, taken_held,
}
use lightweight_operating_sy.Execute.Census.{finish-current}
use lightweight_operating_sy.Execute.Entering.{entered}
use lightweight_operating_sy.Execute.{
  resumes, map_process, execute, finish, resume, leave, halt, return_value, user_memory,
}
use lightweight_operating_sy.Execute.Caller.{
  IsCaller, IsStarted, caller_bound, map_process-walk, execute-IsStarted,
}

-- A later state, in which the process runs that a state started: the fields of its block and of its
-- caller's that lead back are as they were, its slot is held, and the count is right.
pub record IsLater (k k1 k2 : Kernel) (pid : ℕ) : Type 0 where
  pub at_child : k2.processes.current ≡ pid
  pub same_id : (k2.processes.pcbs pid).process_id ≡ (k1.processes.pcbs pid).process_id
  pub same_parent : (k2.processes.pcbs pid).parent_pcb ≡ (k1.processes.pcbs pid).parent_pcb
  pub caller : k2.processes.pcbs k.processes.current ≡ k1.processes.pcbs k.processes.current
  pub held : k2.processes.active_processes (pid - 1) ≡ k1.processes.active_processes (pid - 1)
  pub counted : IsAccounted k2.processes

-- The caller goes on: its own memory and kernel stack are mapped again, it has no child, and one process
-- fewer is counted, whose slot is as free as before the call.
pub record IsBack (k k2 k3 : Kernel) (pid : ℕ) : Type 0 where
  pub mapped :
      (table : ℕ → ℕ → ℕ) (va : ℕ)
      → va / 0x40_0000 ≡ 32
      → walk k3.paging.pdt table va ≡ some (user_memory k.processes.current + va % 0x40_0000)
  pub own_stack : k3.paging.esp0 ≡ kernel_stack_top k.processes.current
  pub no_child : (k3.processes.pcbs k.processes.current).child_pcb ≡ none
  pub freed : k3.processes.active_processes (pid - 1) ≡ k.processes.active_processes (pid - 1)
  pub others :
      (i : ℕ) → i ≢ pid - 1 → k3.processes.active_processes i ≡ k2.processes.active_processes i
  pub one_less : k3.processes.aux_processes + 1 ≡ k2.processes.aux_processes
  pub interrupts_off : k3.display.hw.interrupts ≡ false

resume-IsBack :
    (new_page : PdtEntryPage) (ebp pid status : ℕ) (k k1 k2 : Kernel)
    → IsCaller k
    → IsStarted k k1 pid ebp
    → IsLater k k1 k2 pid
    → new_page.address_13_20 % 0x100 ≡ 0
    → (k3 : Kernel) × (resume new_page (return_value status) k.processes.current (finish status k2)
        ≡ resumes ebp (return_value status) k3)
      × IsBack k k2 k3 pid
unfolding resume finish leave map_process
resume-IsBack new_page ebp pid status k k1 k2 c s l clear =
    let cur = k.processes.current in
    let done = finish status k2 in
    let q = leave cur done in
    let mapped = map_process new_page ((done.processes.pcbs cur).process_id) done.paging in
    let id : (current_block done).process_id ≡ pid =
      ap (λ (b : ProcessControlBlock). b.process_id) (finish-current status k2)
      ∙ ap (λ (n : ℕ). (k2.processes.pcbs n).process_id) l.at_child
      ∙ l.same_id
      ∙ s.links.own_id in
    let away : cur ≢ k2.processes.current = λ e. s.apart (e ∙ l.at_child) in
    let caller : done.processes.pcbs cur ≡ k1.processes.pcbs cur =
      update_ne k2.processes.pcbs k2.processes.current cur _ away ∙ l.caller in
    let cur_id : (done.processes.pcbs cur).process_id ≡ cur =
      ap (λ (b : ProcessControlBlock). b.process_id) caller ∙ s.links.caller_id ∙ c.own_id in
    let caller_small : cur ≤ 6 = caller_bound k c in
    let slot_held : k2.processes.active_processes (pid - 1) ≢ 0 =
      λ e. omega (arith, sym e ∙ l.held ∙ s.now_taken) in
    let back : q.pcbs cur ≡ record (done.processes.pcbs cur) { child_pcb = none } =
      update_self done.processes.pcbs cur _ in
    let at_ebp : (q.pcbs cur).ebp ≡ ebp =
      ap (λ (b : ProcessControlBlock). b.ebp) back
      ∙ ap (λ (b : ProcessControlBlock). b.ebp) caller
      ∙ s.links.caller_ebp in
    let k3 = record done { processes = q; paging = record mapped { ss0 = kernel_ds } } in
    (
      k3,
      ap (λ (v : ℕ). resumes v (return_value status) k3) at_ebp,
      record {
        mapped = λ table va at_128.
            rw cur_id
              (map_process-walk new_page cur done.paging caller_small clear table va at_128);
        own_stack = ap kernel_stack_top cur_id;
        no_child = ap (λ (b : ProcessControlBlock). b.child_pcb) back;
        freed =
            ap (λ (n : ℕ). q.active_processes (n - 1)) (sym id)
            ∙ update_self k2.processes.active_processes _ 0
            ∙ sym s.was_free;
        others = λ i ne.
            update_ne k2.processes.active_processes _ i 0 (λ e. ne (e ∙ ap (λ (n : ℕ). n - 1) id));
        one_less = omega (
          arith,
          l.counted.counted,
          few k2.processes l.counted,
          taken-update k2.processes.active_processes (pid - 1) 0 (omega (arith, s.above_shells))
              (omega (arith, s.below_seven)),
          taken_reset k2.processes.active_processes (pid - 1),
          taken_held k2.processes.active_processes (pid - 1) slot_held,
        );
        interrupts_off = refl;
      },
    )

-- A program that `execute` entered as a process other than a terminal's own shell, and that later calls
-- `halt`, goes back to the caller: to the EBP that `execute` saved, with the low byte of the status, or
-- 256 for the status 256. The caller's memory, kernel stack, and slot count are as `IsBack` states, if
-- bits 20 to 13 of the page entry on the stack, which the code never sets, are clear.
pub execute-halt :
    (fuel : ℕ) (f : Frame) (stack : Memory) (new_page : PdtEntryPage)
    (unset ebp command_user status pid later_ebp : ℕ) (k k1 k2 : Kernel)
    → IsCaller k
    → entered (execute fuel f stack new_page unset ebp command_user k) ≡ some (pid, k1)
    → IsLater k k1 k2 pid
    → new_page.address_13_20 % 0x100 ≡ 0
    → (k3 : Kernel) × (halt fuel f stack new_page unset later_ebp status k2
        ≡ resumes ebp (return_value status) k3)
      × IsBack k k2 k3 pid
unfolding halt
execute-halt fuel f stack new_page unset ebp command_user status pid later_ebp k k1 k2 c e l clear =
    let s = execute-IsStarted fuel f stack new_page unset ebp command_user pid k k1 c e in
    let id : (current_block k2).process_id ≡ pid =
      ap (λ (n : ℕ). (k2.processes.pcbs n).process_id) l.at_child ∙ l.same_id ∙ s.links.own_id in
    let parent : (current_block k2).parent_pcb ≡ some k.processes.current =
      ap (λ (n : ℕ). (k2.processes.pcbs n).parent_pcb) l.at_child
      ∙ l.same_parent
      ∙ s.links.own_parent
      ∙ ap (λ (n : ℕ). some n) c.own_id in
    let own : not (slt pid 1) && not (slt 3 pid) ≡ false =
      ground (arith, s.above_shells, s.below_seven) in
    rw (id, own, parent) (resume-IsBack new_page ebp pid status k k1 k2 c s l clear)
