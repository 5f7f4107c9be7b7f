-- ===== src/Execute.antt =====
-- `execute` and `halt` of src/sys_calls.c. Memory here is physical: the kernel's own addresses are mapped
-- to themselves (`Paging.Walk.setup_kernel_paging-walk`), and an address of the user's 4 MB is given by
-- where the processor translates it to.
pub mod Command
pub mod Slots
pub mod Accounts
pub mod Choice
pub mod Census
pub mod Steps
pub mod Linking
pub mod Entering
pub mod Arguments
pub mod Ready
pub mod Caller
pub mod Return
use lightweight_operating_sy.Prelude.{
  ℕ, zero, suc, ◌+◌, ◌-◌, ◌*◌, ◌/◌, ◌%◌, ◌^◌, Bool, true, false, ◌&&◌, ◌||◌, not, Option, none,
  some, Memory, update, slt, ltb, leb, ◌==◌, load32, if◌then◌else◌, minus_one, u32, sub32, bit_and,
}
use lightweight_operating_sy.Str.{strncmp}
use lightweight_operating_sy.Hardware.{cli}
use lightweight_operating_sy.FileSys.{read_dentry_by_name, read_data, inode_num, file_size}
use lightweight_operating_sy.Process.{
  ProcessControlBlock, FileDescriptor, FileOperationsTable, CloseFunc, Pcbs, stdin_fd, stdout_fd,
  args_buffer_size,
}
use lightweight_operating_sy.Process.Address.{base_mem, pcb_mem, kernel_stack_top}
use lightweight_operating_sy.Kernel.{Kernel, Processes, Paging, current_block}
use lightweight_operating_sy.FileDriver.{with_memory}
use lightweight_operating_sy.Terminal.{set_cli, terminal_write}
use lightweight_operating_sy.Paging.{PdtEntryPage, page_val, pdt_entry_page_setup}
use lightweight_operating_sy.Scheduler.{kernel_ds}
use lightweight_operating_sy.Execute.Command.{
  Frame, copy_command, name_loop, skip_spaces, clear_args, take_args, name_block,
}
use lightweight_operating_sy.Execute.Slots.{Slot, choose_slot}

-- How `execute` and `halt` end: they return a value to the caller, they enter the program of a process at
-- an address, or they resume the caller of `execute` at its saved EBP with a value. `fault` is a null
-- pointer or a loop that does not end.
pub data Execution : Type 0 where
  returned : ℕ → Kernel → Execution
  runs : ℕ → ℕ → Kernel → Execution
  resumes : ℕ → ℕ → Kernel → Execution
  fault : Execution

-- The 4 MB of physical memory of a process, and where PROGRAM_START lies in them.
abbrev pub user_memory : ℕ → ℕ
user_memory pid = (pid + 1) * 0x40_0000

abbrev pub program_start : ℕ → ℕ
program_start pid = user_memory pid + 0x4_8000

-- The bytes from PROGRAM_START to the end of the user's 4 MB, past which nothing is mapped.
abbrev pub program_room : ℕ
program_room = 0x3b_8000

-- The mapping and the kernel stack of a process. `new_page` is what the stack holds.
unfoldable pub map_process : PdtEntryPage → ℕ → Paging → Paging
map_process new_page pid g = record g {
  pdt = update g.pdt 32 (page_val (pdt_entry_page_setup new_page (u32 (pid + 1)) 1));
  esp0 = kernel_stack_top pid;
}

-- The fields of the new block, but for its name and arguments. Descriptors 2 to 7 are left as they are.
unfoldable pub fill_block :
    ℕ → Bool → ℕ → Memory → Memory → ProcessControlBlock → ProcessControlBlock
fill_block pid base_boot parent name args b = record b {
  process_id = pid;
  exit_status = 0;
  name = name;
  parent_pcb = if base_boot then none else some parent;
  child_pcb = none;
  files =
      update (update b.files 0 (record stdin_fd { flags = 1 })) 1 (record stdout_fd { flags = 1 });
  args = args;
}

-- The blocks after the new one is filled, the caller's child is set, and the caller's EBP is saved.
unfoldable pub link_blocks : ℕ → Bool → ℕ → Memory → Memory → Kernel → Pcbs
unfolding fill_block
link_blocks pid base_boot ebp name args k =
    let cur = k.processes.current in
    let parent = (current_block k).process_id in
    let made =
      update k.processes.pcbs pid
        (fill_block pid base_boot parent name args (k.processes.pcbs pid)) in
    let linked =
      if base_boot then made else update made cur (record (made cur) { child_pcb = some pid }) in
    update linked cur (record (linked cur) { ebp = ebp })

-- Once the process number is chosen: the program, its mapping and its block, and into the program. A copy
-- that leaves the user's 4 MB faults.
unfoldable pub enter : ℕ → Frame → PdtEntryPage → Slot → ℕ → ℕ → ℕ → Kernel → Execution
unfolding map_process link_blocks
enter fuel f new_page slot ebp inode args_idx k =
    let pid = slot.next_pid in
    let length = file_size k.display.mem k.fs inode in
    let (count, loaded) = read_data k.display.mem k.fs inode 0 (program_start pid) length in
    let named : Execution =
      elim (name_block fuel 0 f.file_name loaded (k.processes.pcbs pid).name) [
        | none ↦ fault
        | some name ↦ elim (skip_spaces fuel args_idx f.command loaded) [
          | none ↦ fault
          | some first ↦
              let cleared = clear_args args_buffer_size 0 (k.processes.pcbs pid).args in
              let args = take_args args_buffer_size 0 first f.command loaded cleared in
              runs pid (load32 loaded (f.file_metadata + 24)) (record k {
                display = record k.display { mem = loaded };
                processes = record slot.after {
                  pcbs = link_blocks pid slot.base_boot ebp name args k;
                };
                paging = map_process new_page pid k.paging;
              })
        ]
      ] in
    if ltb program_room count && not (count == minus_one) then fault else named

-- From the choice of the process number on: `file_name` and the first 28 bytes of the file have been
-- read. `inode` and `args_idx` are those found.
unfoldable pub launch : ℕ → Frame → PdtEntryPage → ℕ → ℕ → ℕ → ℕ → Kernel → Execution
unfolding enter
launch fuel f new_page unset ebp inode args_idx k =
    let is_shell = strncmp k.display.mem f.file_name f.shell 5 == 0 in
    let slot = choose_slot unset is_shell k.processes in
    let entered = enter fuel f new_page slot ebp inode args_idx k in
    if slt 3 slot.after.aux_processes
    then elim (terminal_write f.too_many 33 (record k {
      processes = record slot.after { aux_processes = sub32 slot.after.aux_processes 1 };
    })) [ none ↦ fault | some (_, k') ↦ returned 1 k' ]
    else entered

-- The four magic bytes.
abbrev pub is_elf : Memory → ℕ → Bool
is_elf m p = (m p == 0x7f) && (m (p + 1) == 0x45) && (m (p + 2) == 0x4c) && (m (p + 3) == 0x46)

-- `execute(command_user)`: `stack` and `new_page` are what the stack holds where `cur_dentry` and
-- `new_page` lie, `unset` what it holds for `next_pid`, `ebp` is the register.
unfoldable pub execute : ℕ → Frame → Memory → PdtEntryPage → ℕ → ℕ → ℕ → Kernel → Execution
unfolding launch
execute fuel f stack new_page unset ebp command_user k0 =
    let k = set_cli k0 in
    let m1 = copy_command 128 0 f.command command_user k.display.mem in
    elim (name_loop fuel 0 f.command f.file_name m1) [
      | none ↦ fault
      | some (args_idx, m2) ↦
          let m3 = update m2 (f.file_name + args_idx) 0 in
          elim (read_dentry_by_name fuel m3 k.fs f.file_name stack) [
            | none ↦ fault
            | some (found, cur_dentry) ↦
                let inode = inode_num cur_dentry in
                let (count, m4) = read_data m3 k.fs inode 0 f.file_metadata 28 in
                if found == minus_one
                then returned minus_one (with_memory k m3)
                else if count == minus_one
                then returned minus_one (with_memory k m4)
                else if is_elf m4 f.file_metadata
                then launch fuel f new_page unset ebp inode args_idx (with_memory k m4)
                else returned minus_one (with_memory k m4)
          ]
    ]

-- Every close function returns 0 and changes nothing, so closing a descriptor resets its flags.
unfoldable pub close_all : ℕ → ℕ → (ℕ → FileDescriptor) → ℕ → FileDescriptor
close_all zero i files = files
close_all (suc left) i files =
    close_all left (i + 1)
      (if (files i).flags == 0 then files else update files i (record (files i) { flags = 0 }))

-- The end of a process that is no terminal's own shell, in the order of the source.
unfoldable pub leave : ℕ → Kernel → Processes
leave parent k = record k.processes {
  active_processes = update k.processes.active_processes ((current_block k).process_id - 1) 0;
  aux_processes = sub32 k.processes.aux_processes 1;
  pcbs = update k.processes.pcbs parent (record (k.processes.pcbs parent) { child_pcb = none });
}

-- Up to the exit status: every descriptor of the process is closed.
unfoldable pub finish : ℕ → Kernel → Kernel
unfolding close_all
finish status k =
    let b = current_block k in
    let p = k.processes in
    record (set_cli k) {
      processes = record p {
        pcbs =
            update p.pcbs p.current
              (record b { files = close_all 8 0 b.files; exit_status = status });
      };
    }

-- Back to the caller of `execute`: its mapping and kernel stack, and the value that it gets.
unfoldable pub resume : PdtEntryPage → ℕ → ℕ → Kernel → Execution
unfolding leave map_process
resume new_page value parent k =
    let q = leave parent k in
    let mapped = map_process new_page ((k.processes.pcbs parent).process_id) k.paging in
    resumes (q.pcbs parent).ebp value
      (record k { processes = q; paging = record mapped { ss0 = kernel_ds } })

-- `return_value`
abbrev pub return_value : ℕ → ℕ
return_value status = if status == 256 then 0x100 else bit_and status 0xff

-- `halt(status)`. The arguments before the status are those of `execute`, with the address of "shell".
unfoldable pub halt : ℕ → Frame → Memory → PdtEntryPage → ℕ → ℕ → ℕ → Kernel → Execution
unfolding execute finish resume
halt fuel f stack new_page unset ebp status k0 =
    let k = finish status k0 in
    let id = (current_block k0).process_id in
    let live = bit_and k.processes.base_shell_live_bitmask (0xff - 2 ^ (id - 1)) in
    let restarted =
      execute fuel f stack new_page unset ebp f.shell
        (record k { processes = record k.processes { base_shell_live_bitmask = live } }) in
    if not (slt id 1) && not (slt 3 id) then restarted else elim ((current_block k0).parent_pcb) [
      | none ↦ fault
      | some parent ↦ resume new_page (return_value status) parent k
    ]
