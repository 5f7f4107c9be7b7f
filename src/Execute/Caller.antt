-- ===== src/Execute/Caller.antt =====
-- What a call of `execute` has done when it enters a program for a caller in a terminal.
use lightweight_operating_sy.Prelude.{
  ℕ, ◌+◌, ◌-◌, ◌/◌, ◌%◌, ◌≤◌, ◌≡◌, ◌≢◌, inl, inr, refl, ap, ◌∙◌, arith, Bool, true, false, some,
  Memory, update, update_self, bit_xor, u32,
}
use lightweight_operating_sy.Kernel.{Kernel, Processes, Paging, current_block}
use lightweight_operating_sy.Terminal.{set_cli}
use lightweight_operating_sy.FileDriver.{with_memory}
use lightweight_operating_sy.Paging.{PdtEntryPage, page_val, pdt_entry_page_setup}
use lightweight_operating_sy.Paging.Walk.{walk, pdt_entry_page_setup-walk}
use lightweight_operating_sy.Execute.Command.{Frame}
use lightweight_operating_sy.Execute.Slots.{Slot, choose_slot, program_slot}
use lightweight_operating_sy.Execute.Accounts.{IsAccounted, IsGiven, program_slot_lem}
use lightweight_operating_sy.Execute.Census.{IsRunning}
use lightweight_operating_sy.Execute.Linking.{IsLinked}
use lightweight_operating_sy.Execute.Entering.{
  entered, enter-IsEntered, launch-IsEntered, execute-launch,
}
use lightweight_operating_sy.Execute.{map_process, execute, user_memory}

-- A caller of `execute`: a process of its own number that runs, while no terminal waits for its shell.
pub record IsCaller (k : Kernel) : Type 0 where
  pub counted : IsAccounted k.processes
  pub own_id : (current_block k).process_id ≡ k.processes.current
  pub running : IsRunning k.processes
  pub no_boot : k.processes.shell_init_boot ≡ 0
  pub all_live :
      bit_xor k.processes.base_shell_booted_bitmask k.processes.base_shell_live_bitmask ≡ 0

choose_slot-program :
    (unset : ℕ) (is_shell : Bool) (k : Kernel)
    → IsCaller k
    → choose_slot unset is_shell k.processes ≡ program_slot unset k.processes
unfolding choose_slot
choose_slot-program unset false k c = refl
choose_slot-program unset true k c = rw (c.no_boot, c.all_live) refl

-- What `execute` has done when it enters a program as process `pid`.
pub record IsStarted (k k1 : Kernel) (pid ebp : ℕ) : Type 0 where
  pub above_shells : 4 ≤ pid
  pub below_seven : pid ≤ 6
  pub apart : k.processes.current ≢ pid
  pub was_free : k.processes.active_processes (pid - 1) ≡ 0
  pub now_taken : k1.processes.active_processes (pid - 1) ≡ 1
  pub one_more : k1.processes.aux_processes ≡ k.processes.aux_processes + 1
  pub links : IsLinked k k1 pid ebp

-- The number of a process that was free is not the caller's.
caller_apart :
    (k : Kernel)
    → IsCaller k
    → (pid : ℕ) → 4 ≤ pid
    → k.processes.active_processes (pid - 1) ≡ 0
    → k.processes.current ≢ pid
caller_apart k c pid lo free e =
    let same = c.own_id ∙ e in
    elim c.running [
      | inl (low, high) ↦ omega arith
      | inr (low, high, held) ↦
          held (ap (λ (n : ℕ). k.processes.active_processes (n - 1)) same ∙ free)
    ]

pub caller_bound : (k : Kernel) → IsCaller k → k.processes.current ≤ 6
caller_bound k c = elim c.running [
  | inl (low, high) ↦ omega (arith, c.own_id, high)
  | inr (low, high, held) ↦ omega (arith, c.own_id, high)
]

-- The user's 4 MB at 128 MB are the process's own, if bits 20 to 13 of the local entry are clear.
pub map_process-walk :
    (new_page : PdtEntryPage) (pid : ℕ) (g : Paging)
    → pid ≤ 6
    → new_page.address_13_20 % 0x100 ≡ 0
    → (table : ℕ → ℕ → ℕ) (va : ℕ) → va / 0x40_0000 ≡ 32
    → walk (map_process new_page pid g).pdt table va ≡ some (user_memory pid + va % 0x40_0000)
unfolding map_process
map_process-walk new_page pid g small clear table va at_128 =
    let frame : u32 (pid + 1) ≡ pid + 1 = omega arith in
    let entry = page_val (pdt_entry_page_setup new_page (u32 (pid + 1)) 1) in
    (pdt_entry_page_setup-walk new_page (pid + 1) 1 va (update g.pdt 32 entry) table (omega arith)
      (omega arith) clear
      (ap (update g.pdt 32 entry) at_128
        ∙ update_self g.pdt 32 entry
        ∙ ap (λ (n : ℕ). page_val (pdt_entry_page_setup new_page n 1)) frame)).0

pub execute-IsStarted :
    (fuel : ℕ) (f : Frame) (stack : Memory) (new_page : PdtEntryPage)
    (unset ebp command_user pid : ℕ) (k k1 : Kernel)
    → IsCaller k
    → entered (execute fuel f stack new_page unset ebp command_user k) ≡ some (pid, k1)
    → IsStarted k k1 pid ebp
execute-IsStarted fuel f stack new_page unset ebp command_user pid k k1 c e =
    let (m, inode, args_idx, launched) =
      execute-launch fuel f stack new_page unset ebp command_user pid k k1 e in
    let at_launch = with_memory (set_cli k) m in
    let (slot, chosen, done, fits) =
      launch-IsEntered fuel f new_page ebp pid at_launch k1 unset inode args_idx launched in
    let same : slot ≡ program_slot unset k.processes = chosen ∙ choose_slot-program unset _ k c in
    elim (program_slot_lem unset k.processes c.counted) [
      | inl (given', c', has_room, own_boot) ↦
          let given : IsGiven k.processes slot = rw same given' in
          let apart = caller_apart k c slot.next_pid given.above_shells given.was_free in
          let ((in_pid, slots, count, links), made) =
            enter-IsEntered fuel f new_page ebp pid at_launch k1 slot inode args_idx
              (rw same own_boot) apart done in
          record {
            above_shells = rw in_pid given.above_shells;
            below_seven = rw in_pid given.below_seven;
            apart = rw in_pid apart;
            was_free = rw in_pid given.was_free;
            now_taken = rw (slots, in_pid) given.now_taken;
            one_more = count ∙ given.one_more;
            links = record {
              own_id = links.own_id;
              own_parent = links.own_parent;
              caller_ebp = links.caller_ebp;
              caller_id = links.caller_id;
            };
          }
      | inr (full, after) ↦
          let four =
            ap (λ (s : Slot). s.after.aux_processes) same
            ∙ ap (λ (p : Processes). p.aux_processes) after in
          ground arith
    ]
