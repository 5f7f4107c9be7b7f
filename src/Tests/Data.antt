-- ===== src/Tests/Data.antt =====
-- A file system image with one entry, "a", of a regular file of three bytes, and a kernel that has it
-- open; a string at 100.
use lightweight_operating_sy.Prelude.{true, false, none, Memory, ◌==◌, if◌then◌else◌, []}
use lightweight_operating_sy.Hardware.{Hardware}
use lightweight_operating_sy.Screen.{Display}
use lightweight_operating_sy.FileSys.{FileSystem}
use lightweight_operating_sy.Process.{
  ProcessControlBlock, FileDescriptor, file_operations_table, stdin_fd,
}
use lightweight_operating_sy.Kernel.{Kernel, Rtc, Paging}

-- The image starts at 4096: entry 0 is at 4160, inode 0 at 8192, block 0 at 12288.
abbrev pub image : Memory
image a =
    if a == 4096
    then 1
    else if a == 4100
    then 1
    else if a == 4104
    then 1
    else if a == 4160
    then b'a'
    else if a == 4192
    then 2
    else if a == 8192
    then 3
    else if a == 12288
    then b'x'
    else if a == 12289
    then b'y'
    else if a == 12290
    then b'z'
    else if a == 100
    then b'a'
    else 0

abbrev pub mounted_fs : FileSystem
mounted_fs = record { boot_block = 4096; inodes = 8192; data_blocks = 12288 }

abbrev pub hardware : Hardware
hardware = record { io = []; interrupts = true; master_mask = 255; slave_mask = 255 }

abbrev pub display : Display
display = record { mem = image; screen_x = λ t. 79; screen_y = λ t. 24; hw = hardware }

abbrev pub open_descriptor : FileDescriptor
open_descriptor = record {
  operations_table = file_operations_table;
  inode = 0;
  file_position = 0;
  flags = 1;
}

-- The shell of the first terminal, with descriptor 2 open.
abbrev pub shell_block : ProcessControlBlock
shell_block = record {
  process_id = 1;
  exit_status = 0;
  files = λ t. if t == 2 then open_descriptor else stdin_fd;
  args = λ a. 0;
  name = λ a. 0;
  child_pcb = none;
  parent_pcb = none;
  ebp = 0;
  sched_ebp = 0;
}

abbrev pub clock : Rtc
clock = record { rtc_flag = λ t. 0; rtc_counter = λ t. 0; rtc_freq = λ t. 512 }

abbrev pub tables : Paging
tables = record { pdt = λ i. 0; pt0 = λ i. 0; pt_vidmap = λ i. 0; esp0 = 0; ss0 = 0 }

-- The first terminal's shell runs, and those of the first two are booted.
abbrev pub kernel : Kernel
kernel = record {
  display = display;
  fs = mounted_fs;
  keyboard = record {
    buffer = λ a. 0;
    index = λ t. 0;
    shift_flag = false;
    caps_lock_flag = false;
    ctrl_flag = false;
    alt_flag = false;
    newline_flag = false;
    enter_flag = λ t. false;
    cur_terminal = 1;
  };
  processes = record {
    pcbs = λ p. record shell_block { process_id = p };
    current = 1;
    aux_processes = 0;
    base_shell_live_bitmask = 3;
    base_shell_booted_bitmask = 3;
    shell_init_boot = 0;
    active_processes = λ t. 0;
    cur_process = 1;
  };
  rtc = clock;
  paging = tables;
}
