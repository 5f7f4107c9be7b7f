-- ===== src/Syscall.antt =====
-- The system calls of src/sys_calls.c on file descriptors: `read`, `write`, `open`, `close` and
-- `getargs`. Arguments are 32-bit patterns. The `RETURN` macro ends the call with its value.
pub mod Descriptors
pub mod Arguments
use lightweight_operating_sy.Prelude.{
  ℕ, zero, suc, ◌+◌, Bool, true, false, ◌||◌, Option, none, some, Memory, update, leb, slt, ◌==◌,
  load32, if◌then◌else◌, minus_one,
}
use lightweight_operating_sy.FileSys.{read_dentry_by_name, file_type, inode_num}
use lightweight_operating_sy.Process.{
  FileDescriptor, FileOperationsTable, ReadFunc, WriteFunc, CloseFunc, dir_operations_table,
  file_operations_table, rtc_operations_table, args_buffer_size,
}
use lightweight_operating_sy.Kernel.{Kernel, current_block}
use lightweight_operating_sy.FileDriver
use lightweight_operating_sy.FileDriver.{file_at, with_file, with_memory}
use lightweight_operating_sy.Terminal
use lightweight_operating_sy.Rtc

-- What a call that has not returned waits for, with what is left of its arguments.
pub data Wait : Type 0 where
  enter : ℕ → ℕ → Wait
  tick : ℕ → Wait

-- `fault` is a call through a null pointer or a loop that does not end.
pub data Outcome : Type 0 where
  returned : ℕ → Kernel → Outcome
  waiting : Wait → Kernel → Outcome
  fault : Outcome

abbrev pub of_pair : ℕ × Kernel → Outcome
of_pair (ret, k) = returned ret k

abbrev pub of_option : Option (ℕ × Kernel) → Outcome
of_option none = fault
of_option (some (ret, k)) = returned ret k

-- `fd < 0 || fd > 7`
abbrev pub bad_fd : ℕ → Bool
bad_fd fd = slt fd 0 || slt 7 fd

-- The call through `operationsTable.read`.
unfoldable pub call_read : Memory → Option ReadFunc → ℕ → ℕ → ℕ → Kernel → Outcome
call_read stack none fd buf nbytes k = fault
call_read stack (some ReadFunc.dir_read) fd buf nbytes k =
    of_pair (FileDriver.dir_read stack fd buf nbytes k)
call_read stack (some ReadFunc.file_read) fd buf nbytes k =
    of_pair (FileDriver.file_read fd buf nbytes k)
call_read stack (some ReadFunc.rtc_read) fd buf nbytes k =
    waiting (tick k.processes.cur_process)
      (record k { rtc = Rtc.rtc_read_start k.processes.cur_process k.rtc })
call_read stack (some ReadFunc.terminal_read) fd buf nbytes k =
    let (done, k') = Terminal.terminal_read_start nbytes k in
    elim done [ some ret ↦ returned ret k' | none ↦ waiting (enter buf nbytes) k' ]

unfoldable pub read : Memory → ℕ → ℕ → ℕ → Kernel → Outcome
read stack fd buf nbytes k =
    if bad_fd fd || (buf == 0 || slt nbytes 0)
    then returned minus_one k
    else if fd == 1
    then returned minus_one k
    else if (file_at k fd).flags == 0
    then returned minus_one k
    else call_read stack (file_at k fd).operations_table.read fd buf nbytes k

-- The call through `operationsTable.write`.
unfoldable pub call_write : Option WriteFunc → ℕ → ℕ → Kernel → Outcome
call_write none buf nbytes k = fault
call_write (some WriteFunc.dir_write) buf nbytes k = returned FileDriver.dir_write k
call_write (some WriteFunc.file_write) buf nbytes k = returned FileDriver.file_write k
call_write (some WriteFunc.rtc_write) buf nbytes k =
    let (ret, rtc, hw) =
      Rtc.rtc_write (load32 k.display.mem buf) k.processes.cur_process k.rtc k.display.hw in
    returned ret (record k { rtc = rtc; display = record k.display { hw = hw } })
call_write (some WriteFunc.terminal_write) buf nbytes k =
    of_option (Terminal.terminal_write buf nbytes k)

unfoldable pub write : ℕ → ℕ → ℕ → Kernel → Outcome
write fd buf nbytes k =
    if bad_fd fd || (buf == 0 || slt nbytes 0)
    then returned minus_one k
    else if fd == 0
    then returned minus_one k
    else if (file_at k fd).flags == 0
    then returned minus_one k
    else call_write (file_at k fd).operations_table.write buf nbytes k

-- `for (i = 2; i < 8; i++)`: the first descriptor that is not in use, or 8.
unfoldable pub free_fd : ℕ → ℕ → Kernel → ℕ
free_fd zero i k = i
free_fd (suc left) i k =
    let rest = free_fd left (i + 1) k in if (file_at k i).flags == 0 then i else rest

-- The three kinds of file. `prev` is what the clock's register A reads as.
unfoldable pub open_as : ℕ → ℕ → ℕ → ℕ → Kernel → Outcome
open_as prev kind inode i k =
    let f = file_at k i in
    if kind == 0
    then (let opened =
          with_file k i
            (record f { operations_table = rtc_operations_table; file_position = 0; flags = 1 }) in
        let (_, rtc, hw) = Rtc.rtc_open prev k.processes.cur_process k.rtc k.display.hw in
        returned i (record opened { rtc = rtc; display = record k.display { hw = hw } }))
    else if kind == 1
    then returned i (
        with_file k i
          (record f { operations_table = dir_operations_table; file_position = 0; flags = 1 }))
    else if kind == 2
    then returned i (
        with_file k i (record f {
          operations_table = file_operations_table;
          inode = inode;
          file_position = 0;
          flags = 1;
        }))
    else returned minus_one k

unfoldable pub open_file : ℕ → ℕ → Memory → ℕ → Kernel → Outcome
open_file fuel prev stack filename k =
    let i = free_fd 6 2 k in
    if i == 8
    then returned minus_one k
    else elim (read_dentry_by_name fuel k.display.mem k.fs filename stack) [
      | none ↦ fault
      | some (ret, dentry) ↦
          if ret == minus_one
          then returned minus_one k
          else open_as prev (file_type dentry) (inode_num dentry) i k
    ]

-- Every close function returns 0 and changes nothing.
unfoldable pub call_close : Option CloseFunc → Kernel → Outcome
call_close none k = fault
call_close (some CloseFunc.dir_close) k = returned FileDriver.dir_close k
call_close (some CloseFunc.file_close) k = returned FileDriver.file_close k
call_close (some CloseFunc.rtc_close) k = returned Rtc.rtc_close k
call_close (some CloseFunc.terminal_close) k = returned Terminal.terminal_close k

unfoldable pub close : ℕ → Kernel → Outcome
close fd k =
    if slt fd 2 || slt 7 fd
    then returned minus_one k
    else if (file_at k fd).flags == 0
    then returned minus_one k
    else call_close (file_at k fd).operations_table.close
        (with_file k fd (record (file_at k fd) { flags = 0 }))

-- The loop of `getargs` with `left` bytes of room.
unfoldable pub copy_args : ℕ → ℕ → Memory → ℕ → Memory → Memory
copy_args zero i args buf m = m
copy_args (suc left) i args buf m =
    let rest = copy_args left (i + 1) args buf (update m (buf + i) (args i)) in
    if args i == 0 then update m (buf + i) 0 else rest

unfoldable pub getargs : ℕ → ℕ → Kernel → Outcome
getargs buf nbytes k =
    if buf == 0 || (slt nbytes 0 || slt args_buffer_size nbytes)
    then returned minus_one k
    else if (current_block k).args 0 == 0
    then returned minus_one k
    else returned 0 (with_memory k (copy_args nbytes 0 (current_block k).args buf k.display.mem))
