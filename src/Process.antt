-- ===== src/Process.antt =====
-- src/sys_calls.h: process control blocks. The block of process `pid` lies at 8 MB - (pid + 1) * 8 KB
-- with that process's kernel stack, so a `ProcessControlBlock*` is a process number here, and a null
-- pointer is `none`. `Process.Address` proves that the kernel's address arithmetic agrees.
pub mod Address
use lightweight_operating_sy.Prelude.{
  ℕ, zero, suc, ◌+◌, ◌-◌, ◌*◌, Bool, Option, none, some, Memory, update,
}

-- The functions that the tables of file operations point at.
pub data ReadFunc : Type 0 where
  dir_read file_read rtc_read terminal_read : ReadFunc

pub data WriteFunc : Type 0 where
  dir_write file_write rtc_write terminal_write : WriteFunc

pub data OpenFunc : Type 0 where
  dir_open file_open rtc_open terminal_open : OpenFunc

pub data CloseFunc : Type 0 where
  dir_close file_close rtc_close terminal_close : CloseFunc

pub record FileOperationsTable : Type 0 where
  pub read : Option ReadFunc
  pub write : Option WriteFunc
  pub opens : Option OpenFunc
  pub close : Option CloseFunc

pub record FileDescriptor : Type 0 where
  pub operations_table : FileOperationsTable
  pub inode : ℕ
  pub file_position : ℕ
  pub flags : ℕ

pub record ProcessControlBlock : Type 0 where
  pub process_id : ℕ
  pub exit_status : ℕ
  pub files : ℕ → FileDescriptor
  pub args : Memory
  pub name : Memory
  pub child_pcb : Option ℕ
  pub parent_pcb : Option ℕ
  pub ebp : ℕ
  pub sched_ebp : ℕ

abbrev pub dir_operations_table : FileOperationsTable
dir_operations_table = record {
  read = some dir_read;
  write = some dir_write;
  opens = some dir_open;
  close = some dir_close;
}

abbrev pub file_operations_table : FileOperationsTable
file_operations_table = record {
  read = some file_read;
  write = some file_write;
  opens = some file_open;
  close = some file_close;
}

abbrev pub rtc_operations_table : FileOperationsTable
rtc_operations_table = record {
  read = some rtc_read;
  write = some rtc_write;
  opens = some rtc_open;
  close = some rtc_close;
}

abbrev pub stdin_fd : FileDescriptor
stdin_fd = record {
  operations_table = record {
    read = some terminal_read;
    write = none;
    opens = some terminal_open;
    close = some terminal_close;
  };
  inode = 0;
  file_position = 0;
  flags = 0;
}

abbrev pub stdout_fd : FileDescriptor
stdout_fd = record {
  operations_table = record {
    read = none;
    write = some terminal_write;
    opens = some terminal_open;
    close = some terminal_close;
  };
  inode = 0;
  file_position = 0;
  flags = 0;
}

abbrev pub args_buffer_size : ℕ
args_buffer_size = 1024

abbrev pub Pcbs : Type 0
Pcbs = ℕ → ProcessControlBlock

-- The loops over `childPCB` and `parentPCB`; `none` means that the fuel ran out.
unfoldable pub get_top_process_pcb : ℕ → Pcbs → ℕ → Option ℕ
get_top_process_pcb zero pcbs pid = none
get_top_process_pcb (suc fuel) pcbs pid = elim ((pcbs pid).child_pcb) [
  | none ↦ some pid
  | some child ↦ get_top_process_pcb fuel pcbs child
]

unfoldable pub get_base_process_pcb : ℕ → Pcbs → ℕ → Option ℕ
get_base_process_pcb zero pcbs pid = none
get_base_process_pcb (suc fuel) pcbs pid = elim ((pcbs pid).parent_pcb) [
  | none ↦ some pid
  | some parent ↦ get_base_process_pcb fuel pcbs parent
]
