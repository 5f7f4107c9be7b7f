-- ===== src/Execute/Entering.antt =====
-- A call of `execute` that enters a program: the process number, the slot and the blocks that it makes.
use mathlib.Core.Option.{some-injective}
use lightweight_operating_sy.Prelude.{
  ℕ, ◌+◌, ◌≡◌, ◌≢◌, inl, inr, refl, sym, ap, ◌∙◌, false, Option, none, some, Memory, update, slt,
  ◌==◌, ◌&&◌, not, ltb, Bool-cases, Option-cases, minus_one, sub32,
}
use lightweight_operating_sy.Str.{strncmp}
use lightweight_operating_sy.FileSys.{read_dentry_by_name, read_data, inode_num, file_size}
use lightweight_operating_sy.Process.{ProcessControlBlock, args_buffer_size}
use lightweight_operating_sy.Kernel.{Kernel, current_block}
use lightweight_operating_sy.FileDriver.{with_memory}
use lightweight_operating_sy.Terminal.{terminal_write, set_cli}
use lightweight_operating_sy.Paging.{PdtEntryPage}
use lightweight_operating_sy.Execute.Command.{
  Frame, name_loop, copy_command, skip_spaces, clear_args, take_args, name_block,
}
use lightweight_operating_sy.Execute.Linking.{IsLinked, link_blocks-made, link_blocks-IsLinked}
use lightweight_operating_sy.Execute.Slots.{Slot, choose_slot}
use lightweight_operating_sy.Execute.{
  Execution, runs, fill_block, enter, launch, execute, is_elf, program_start, program_room,
}

-- The process that a program was entered as, and the state.
abbrev pub entered : Execution → Option (ℕ × Kernel)
entered (runs pid eip k) = some (pid, k)
entered _ = none

-- The memory after the program is loaded.
abbrev pub loaded : Kernel → Slot → ℕ → Memory
loaded k slot inode =
    (read_data k.display.mem k.fs inode 0 (program_start slot.next_pid)
      (file_size k.display.mem k.fs inode)).1

-- How many bytes of it are loaded.
abbrev pub loaded_count : Kernel → Slot → ℕ → ℕ
loaded_count k slot inode =
    (read_data k.display.mem k.fs inode 0 (program_start slot.next_pid)
      (file_size k.display.mem k.fs inode)).0

-- The arguments as they are taken from character `first` of the command.
abbrev pub args_from : Frame → Kernel → Slot → ℕ → ℕ → Memory
args_from f k slot inode first =
    take_args args_buffer_size 0 first f.command (loaded k slot inode)
      (clear_args args_buffer_size 0 (k.processes.pcbs slot.next_pid).args)

-- A program that is entered as no terminal's own shell: its number, its slot, and the links.
module _ (fuel : ℕ) (f : Frame) (new_page : PdtEntryPage) (ebp : ℕ) (pid : ℕ) (k k1 : Kernel) where
  abbrev IsEntered : Slot → Type 0
  IsEntered slot =
      (pid ≡ slot.next_pid)
      × (k1.processes.active_processes ≡ slot.after.active_processes)
      × (k1.processes.aux_processes ≡ slot.after.aux_processes)
      × IsLinked k k1 pid ebp

  -- The memory and the block of the new process.
  abbrev pub IsMade : Slot → ℕ → ℕ → Type 0
  IsMade slot inode args_idx =
      (name : Memory) × (first : ℕ) × (skip_spaces fuel args_idx f.command (loaded k slot inode)
        ≡ some first)
      × (k1.display.mem ≡ loaded k slot inode)
      × (k1.processes.pcbs slot.next_pid
          ≡ fill_block slot.next_pid false (current_block k).process_id name
              (args_from f k slot inode first) (k.processes.pcbs slot.next_pid))

  pub enter-IsEntered :
      (slot : Slot) (inode args_idx : ℕ)
      → slot.base_boot ≡ false
      → k.processes.current ≢ slot.next_pid
      → entered (enter fuel f new_page slot ebp inode args_idx k) ≡ some (pid, k1)
      → IsEntered slot × IsMade slot inode args_idx
  unfolding enter
  enter-IsEntered slot inode args_idx base apart e =
      elim (Bool-cases (
        ltb program_room (loaded_count k slot inode)
        && not (loaded_count k slot inode == minus_one))) [
          | inl beyond ↦
              let bad : entered (enter fuel f new_page slot ebp inode args_idx k) ≡ none =
                rw (beyond, entered) refl in
              cc
          | inr within ↦
              elim (Option-cases (
                name_block fuel 0 f.file_name (loaded k slot inode)
                  (k.processes.pcbs slot.next_pid).name)) [
                    | inl lost ↦
                        let bad : entered (enter fuel f new_page slot ebp inode args_idx k) ≡ none =
                          rw (within, lost, entered) refl in
                        cc
                    | inr (name, named) ↦
                        elim (Option-cases
                          (skip_spaces fuel args_idx f.command (loaded k slot inode))) [
                            | inl lost ↦
                                let bad : entered (enter fuel f new_page slot ebp inode args_idx k)
                                    ≡ none =
                                  rw (within, named, lost, entered) refl in
                                cc
                            | inr (first, skipped) ↦
                                let done =
                                  some-injective _ _
                                    (rw (within, named, skipped, base, enter, entered) at e) in
                                let in_pid = sym (ap (λ (r : ℕ × Kernel). r.0) done) in
                                let later = ap (λ (r : ℕ × Kernel). r.1) done in
                                let blocks = sym (ap (λ (w : Kernel). w.processes.pcbs) later) in
                                let args = args_from f k slot inode first in
                                (
                                  (
                                    in_pid,
                                    sym (ap (λ (w : Kernel). w.processes.active_processes) later),
                                    sym (ap (λ (w : Kernel). w.processes.aux_processes) later),
                                    rw in_pid (
                                        link_blocks-IsLinked slot.next_pid ebp name args k k1 apart
                                          blocks),
                                  ),
                                  (
                                    name,
                                    first,
                                    skipped,
                                    sym (ap (λ (w : Kernel). w.display.mem) later),
                                    ap (λ (b : ℕ → ProcessControlBlock). b slot.next_pid) blocks
                                        ∙ link_blocks-made slot.next_pid ebp name args k apart,
                                  ),
                                )
                          ]
                  ]
        ]

  pub launch-IsEntered :
      (unset inode args_idx : ℕ)
      → entered (launch fuel f new_page unset ebp inode args_idx k) ≡ some (pid, k1)
      → (slot : Slot) × (slot
          ≡ choose_slot unset (strncmp k.display.mem f.file_name f.shell 5 == 0) k.processes)
        × (entered (enter fuel f new_page slot ebp inode args_idx k) ≡ some (pid, k1))
        × (slt 3 slot.after.aux_processes ≡ false)
  unfolding launch
  launch-IsEntered unset inode args_idx e =
      let slot = choose_slot unset (strncmp k.display.mem f.file_name f.shell 5 == 0) k.processes in
      elim (Bool-cases (slt 3 slot.after.aux_processes)) [
        | inl full ↦
            let refused = record k {
              processes = record slot.after { aux_processes = sub32 slot.after.aux_processes 1 };
            } in
            elim (Option-cases (terminal_write f.too_many 33 refused)) [
              | inl lost ↦
                  let bad : entered (launch fuel f new_page unset ebp inode args_idx k) ≡ none =
                    rw (full, lost, entered) refl in
                  cc
              | inr (r, done) ↦
                  let bad : entered (launch fuel f new_page unset ebp inode args_idx k) ≡ none =
                    rw (full, done, entered) refl in
                  cc
            ]
        | inr fits ↦ (slot, refl, rw (fits, launch, entered) at e, fits)
      ]

-- A call of `execute` that enters a program does so by `launch`, from a state that differs in memory and
-- the interrupt flag.
pub execute-launch :
    (fuel : ℕ) (f : Frame) (stack : Memory) (new_page : PdtEntryPage)
    (unset ebp command_user pid : ℕ) (k0 k1 : Kernel)
    → entered (execute fuel f stack new_page unset ebp command_user k0) ≡ some (pid, k1)
    → (m : Memory) × (inode : ℕ) × (args_idx : ℕ) × (entered
          (launch fuel f new_page unset ebp inode args_idx (with_memory (set_cli k0) m))
        ≡ some (pid, k1))
unfolding execute
execute-launch fuel f stack new_page unset ebp command_user pid k0 k1 e =
    let result = entered (execute fuel f stack new_page unset ebp command_user k0) in
    let m1 = copy_command 128 0 f.command command_user k0.display.mem in
    elim (Option-cases (name_loop fuel 0 f.command f.file_name m1)) [
      | inl lost ↦ let bad : result ≡ none = rw (lost, entered) refl in cc
      | inr ((args_idx, m2), named) ↦
          let m3 = update m2 (f.file_name + args_idx) 0 in
          elim (Option-cases (read_dentry_by_name fuel m3 k0.fs f.file_name stack)) [
            | inl lost ↦ let bad : result ≡ none = rw (named, lost, entered) refl in cc
            | inr ((found, cur_dentry), looked) ↦
                let inode = inode_num cur_dentry in
                let (count, m4) = read_data m3 k0.fs inode 0 f.file_metadata 28 in
                elim (Bool-cases (found == minus_one)) [
                  | inl missing ↦
                      let bad : result ≡ none = rw (named, looked, missing, entered) refl in cc
                  | inr there ↦ elim (Bool-cases (count == minus_one)) [
                    | inl unread ↦
                        let bad : result ≡ none = rw (named, looked, there, unread, entered) refl in
                        cc
                    | inr read ↦ elim (Bool-cases (is_elf m4 f.file_metadata)) [
                      | inl elf ↦ (
                        m4,
                        inode,
                        args_idx,
                        rw (named, looked, there, read, elf, execute, entered) at e,
                      )
                      | inr other ↦
                          let bad : result ≡ none =
                            rw (named, looked, there, read, other, entered) refl in
                          cc
                    ]
                  ]
                ]
          ]
    ]
