-- ===== src/Execute/Census.antt =====
-- The count over whole calls of `execute` and `halt`, and over sequences of them.
use lightweight_operating_sy.Prelude.{
  ℕ, bit_and, ◌^◌, ◌+◌, ◌-◌, ◌≤◌, ◌≡◌, ◌≢◌, ◌⊎◌, inl, inr, sym, ap, ◌∙◌, arith, Bool, true, false,
  not, ◌&&◌, none, some, Memory, update, update_self, slt, ltb, ◌==◌, Option-cases, if◌then◌else◌,
  minus_one,
}
use lightweight_operating_sy.Str.{strncmp}
use lightweight_operating_sy.FileSys.{read_dentry_by_name, read_data, inode_num, file_size}
use lightweight_operating_sy.Process.{ProcessControlBlock}
use lightweight_operating_sy.Kernel.{Kernel, Processes, current_block}
use lightweight_operating_sy.Terminal.{terminal_write, set_cli}
use lightweight_operating_sy.Terminal.Writing.{processes_of, terminal_write-processes}
use lightweight_operating_sy.Paging.{PdtEntryPage}
use lightweight_operating_sy.Execute.Command.{
  Frame, name_loop, copy_command, skip_spaces, name_block,
}
use lightweight_operating_sy.Execute.Slots.{Slot, choose_slot}
use lightweight_operating_sy.Execute.Choice.{choose_slot-IsChosen}
use lightweight_operating_sy.Execute.Accounts.{
  IsAccounted, few, taken-update, taken_reset, taken_held,
}
use lightweight_operating_sy.Execute.{
  Execution, returned, runs, resumes, fault, close_all, finish, resume, enter, launch, execute,
  halt, leave, is_elf, program_start, program_room,
}

-- The count is right in the state that a call ends in.
abbrev pub IsKept : Execution → Type 0
IsKept fault = Unit
IsKept (returned v k) = IsAccounted k.processes
IsKept (runs pid eip k) = IsAccounted k.processes
IsKept (resumes ebp v k) = IsAccounted k.processes

refused-IsKept :
    (text : ℕ) (k : Kernel)
    → IsAccounted k.processes
    → IsKept (elim (terminal_write text 33 k) [ none ↦ fault | some (v, k') ↦ returned 1 k' ])
refused-IsKept text k c = elim (Option-cases (terminal_write text 33 k)) [
  | inl lost ↦ rw (lost, IsKept) tt
  | inr ((v, k'), done) ↦
      let same : k'.processes ≡ k.processes =
        ap (processes_of k.processes) (sym done) ∙ terminal_write-processes text 33 k in
      rw done (rw same c)
]

if-IsKept : (b : Bool) (x y : Execution) → IsKept x → IsKept y → IsKept (if b then x else y)
if-IsKept true x y kx ky = kx
if-IsKept false x y kx ky = ky

enter-IsKept :
    (fuel : ℕ) (f : Frame) (new_page : PdtEntryPage) (slot : Slot) (ebp inode args_idx : ℕ)
    (k : Kernel)
    → IsAccounted slot.after
    → IsKept (enter fuel f new_page slot ebp inode args_idx k)
unfolding enter
enter-IsKept fuel f new_page slot ebp inode args_idx k c =
    let length = file_size k.display.mem k.fs inode in
    let (count, loaded) =
      read_data k.display.mem k.fs inode 0 (program_start slot.next_pid) length in
    if-IsKept (ltb program_room count && not (count == minus_one)) fault _ tt
      (elim (Option-cases
        (name_block fuel 0 f.file_name loaded (k.processes.pcbs slot.next_pid).name)) [
          | inl lost ↦ rw (lost, IsKept) tt
          | inr (name, named) ↦ elim (Option-cases (skip_spaces fuel args_idx f.command loaded)) [
            | inl lost ↦ rw (named, lost, IsKept) tt
            | inr (first, skipped) ↦
                rw (named, skipped, IsKept) (record { counted = c.counted; shells = c.shells })
          ]
        ])

launch-IsKept :
    (fuel : ℕ) (f : Frame) (new_page : PdtEntryPage) (unset ebp inode args_idx : ℕ) (k : Kernel)
    → IsAccounted k.processes
    → IsKept (launch fuel f new_page unset ebp inode args_idx k)
unfolding launch
launch-IsKept fuel f new_page unset ebp inode args_idx k c =
    let is_shell = strncmp k.display.mem f.file_name f.shell 5 == 0 in
    let slot = choose_slot unset is_shell k.processes in
    elim (choose_slot-IsChosen unset is_shell k.processes c) [
      | inl (c', few) ↦
          let fits : slt 3 slot.after.aux_processes ≡ false = ground arith in
          rw fits (enter-IsKept fuel f new_page slot ebp inode args_idx k c')
      | inr (full, after) ↦
          let back = record k { processes = record k.processes { aux_processes = 3 } } in
          rw after (
            refused-IsKept f.too_many back
              (record { counted = sym full ∙ c.counted; shells = c.shells }))
    ]

pub execute-IsKept :
    (fuel : ℕ) (f : Frame) (stack : Memory) (new_page : PdtEntryPage) (unset ebp command_user : ℕ)
    (k : Kernel)
    → IsAccounted k.processes
    → IsKept (execute fuel f stack new_page unset ebp command_user k)
unfolding execute
execute-IsKept fuel f stack new_page unset ebp command_user k c =
    let m1 = copy_command 128 0 f.command command_user k.display.mem in
    elim (Option-cases (name_loop fuel 0 f.command f.file_name m1)) [
      | inl lost ↦ rw (lost, IsKept) tt
      | inr ((args_idx, m2), named) ↦
          let m3 = update m2 (f.file_name + args_idx) 0 in
          elim (Option-cases (read_dentry_by_name fuel m3 k.fs f.file_name stack)) [
            | inl lost ↦ rw (named, lost, IsKept) tt
            | inr ((found, cur_dentry), looked) ↦
                let inode = inode_num cur_dentry in
                let (count, m4) = read_data m3 k.fs inode 0 f.file_metadata 28 in
                let loading = record (set_cli k) {
                  display = record (set_cli k).display { mem = m4 };
                } in
                rw (named, looked, IsKept)
                  (if-IsKept (found == minus_one) _ _ c (
                    if-IsKept (count == minus_one) _ _ c (
                      if-IsKept (is_elf m4 f.file_metadata) _ _
                        (launch-IsKept fuel f new_page unset ebp inode args_idx loading c) c)))
          ]
    ]

-- A process that may end: a terminal's own shell, or one that holds a slot.
abbrev pub IsRunning : Processes → Type 0
IsRunning p =
    let id = (p.pcbs p.current).process_id in
    ((1 ≤ id) × (id ≤ 3)) ⊎ ((4 ≤ id) × (id ≤ 6) × (p.active_processes (id - 1) ≢ 0))

leave-IsAccounted :
    (parent : ℕ) (k : Kernel)
    → IsAccounted k.processes
    → 4 ≤ (current_block k).process_id
    → (current_block k).process_id ≤ 6
    → k.processes.active_processes ((current_block k).process_id - 1) ≢ 0
    → IsAccounted (leave parent k)
unfolding leave
leave-IsAccounted parent k c lo hi held =
    let i = (current_block k).process_id - 1 in
    let active = k.processes.active_processes in
    record {
      counted = omega (
        arith,
        c.counted,
        taken-update active i 0 (omega arith) (omega arith),
        taken_reset active i,
        taken_held active i held,
        few k.processes c,
      );
      shells = c.shells;
    }

pub finish-current :
    (status : ℕ) (k : Kernel)
    → current_block (finish status k) ≡ record (current_block k) {
      files = close_all 8 0 (current_block k).files;
      exit_status = status;
    }
unfolding finish
finish-current status k = update_self k.processes.pcbs k.processes.current _

pub halt-IsKept :
    (fuel : ℕ) (f : Frame) (stack : Memory) (new_page : PdtEntryPage) (unset ebp status : ℕ)
    (k : Kernel)
    → IsAccounted k.processes
    → IsRunning k.processes
    → IsKept (halt fuel f stack new_page unset ebp status k)
unfolding halt finish resume
halt-IsKept fuel f stack new_page unset ebp status k c (inl (lo, hi)) =
    let id = (current_block k).process_id in
    let base : not (slt id 1) && not (slt 3 id) ≡ true = ground arith in
    let done = finish status k in
    let live = bit_and done.processes.base_shell_live_bitmask (0xff - 2 ^ (id - 1)) in
    rw base (
      execute-IsKept fuel f stack new_page unset ebp f.shell
        (record done { processes = record done.processes { base_shell_live_bitmask = live } })
        (record { counted = c.counted; shells = c.shells }))
halt-IsKept fuel f stack new_page unset ebp status k c (inr (lo, hi, held)) =
    let id = (current_block k).process_id in
    let own : not (slt id 1) && not (slt 3 id) ≡ false = ground arith in
    elim (Option-cases (current_block k).parent_pcb) [
      | inl lost ↦ rw (own, lost, IsKept) tt
      | inr (parent, found) ↦
          let same = ap (λ (b : ProcessControlBlock). b.process_id) (finish-current status k) in
          rw (own, found, IsKept)
            (leave-IsAccounted parent (finish status k)
              (record { counted = c.counted; shells = c.shells }) (rw same lo) (rw same hi)
              (rw same held))
    ]
