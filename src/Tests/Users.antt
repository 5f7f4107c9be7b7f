-- ===== src/Tests/Users.antt =====
-- User programs on the kernel.
use Prim.Native.String.{String}
use lightweight_operating_sy.Prelude.{
  ◌+◌, ℕ, ◌≡◌, inl, inr, refl, none, some, arith, ◌==◌, if◌then◌else◌, load32,
}
use lightweight_operating_sy.FileDriver.ToEnd.{file_bytes}
use lightweight_operating_sy.FileSys.{file_size}
use lightweight_operating_sy.Kernel.{Kernel, cur_process_local, chain_fuel}
use lightweight_operating_sy.Process.{
  ProcessControlBlock, stdin_fd, stdout_fd, get_base_process_pcb,
}
use lightweight_operating_sy.Programs.Cat.{cat}
use lightweight_operating_sy.Programs.Cat.ByName.{IsGiven}
use lightweight_operating_sy.Programs.Cat.Printed.{cat_prints}
use lightweight_operating_sy.Programs.Printing.{IsPrinting, Displays}
use lightweight_operating_sy.Programs.OnKernel.{Machine, Session, kernel_system}
use lightweight_operating_sy.Programs.SysErr.{
  err_neg_fd, err_big_fd, err_unopened, err_vidmap, err_stdin_out, err_syscall_num,
}
use lightweight_operating_sy.Programs.SysErr.Passing.{passed, syserr_passes}
use lightweight_operating_sy.Str.Compare.{Agree}
use lightweight_operating_sy.Syscall
use lightweight_operating_sy.Tests.Data.{kernel, image, shell_block, mounted_fs}
use lightweight_operating_sy.Tests.Files.{image-IsMounted, image-IsFile}
use lightweight_operating_sy.Tests.Threads.{stack_table, stack_pt}

-- A process of the first terminal with "a" as its argument, and descriptor 1 in use.
abbrev pub user : ProcessControlBlock
user = record shell_block {
  files = λ t. if t == 1 then record stdout_fd { flags = 1 } else shell_block.files t;
  args = λ a. image (a + 100);
}

abbrev pub user_kernel : Kernel
user_kernel = record kernel { processes = record kernel.processes { pcbs = λ p. user } }

abbrev pub machine : Machine
machine = record {
  lookup_fuel = 3;
  prev = 0;
  stack = λ a. 0;
  vidmem = stack_table;
  vidmem_pt = stack_pt;
  pt_vidmap_address = 0x6000;
  until = λ wait k. some k;
  child = λ command k. none;
  by_registers = λ number k. none;
}

abbrev session : Session
session = record { kernel = user_kernel }

abbrev text : String → ℕ
text line = 500

user_terminal : cur_process_local user_kernel.processes ≡ some 1
unfolding cur_process_local get_base_process_pcb
user_terminal = refl

pub user-IsPrinting : IsPrinting user_kernel 1
user-IsPrinting = record {
  prints = refl;
  out_active = λ e. omega arith;
  terminal = user_terminal;
  own_in = (omega arith, omega arith);
  on = record { col_in = omega arith; row_in = omega arith };
}

user-IsGiven : IsGiven user_kernel 20000 1 1 0 0
unfolding Syscall.copy_args load32 Agree
user-IsGiven = record {
  name = record { filled = λ i h e. ground arith; ended = refl };
  name_in = (omega arith, omega arith);
  bytes = λ a. ground arith;
  first = record {
    late = omega arith;
    within = omega arith;
    agrees = (refl, λ _. (refl, λ h. absurd (h refl)));
    first = λ j p q. absurd (omega arith);
  };
  regular = refl;
  its_inode = refl;
  mounted = image-IsMounted;
  file = image-IsFile;
  room = (3, omega arith, omega arith, refl);
  printing = user-IsPrinting;
  apart = inr (omega arith);
  image_apart = inl (omega arith);
  buf_apart = inl (omega arith);
  buf_pos = omega arith;
}

cat_prints_example :
    (s' : Session) × (cat (kernel_system machine) text 100 4 20000 session ≡ some (0, s'))
    × Displays 1
        (file_bytes image mounted_fs 0 0 (file_size image mounted_fs 0))
        user_kernel
        s'.kernel
unfolding load32
cat_prints_example =
    cat_prints machine text 100 4 session 20000 1 1 0 0 user-IsGiven (omega arith) (omega arith)

-- The shell has no file open.
abbrev idle : Session
idle = record {
  kernel = record kernel {
    processes = record kernel.processes {
      pcbs = λ p. record shell_block { files = λ t. stdin_fd };
    };
  };
}

idle_chain :
    get_base_process_pcb chain_fuel idle.kernel.processes.pcbs idle.kernel.processes.current
    ≡ some 1
unfolding get_base_process_pcb
idle_chain = refl

syserr_passes_example :
    let S = kernel_system machine in
    (err_neg_fd S text 9 300 idle ≡ passed S text 9 "err_neg_fd: PASS\n" idle)
    × (err_big_fd S text 9 300 idle ≡ passed S text 9 "err_big_fd: PASS\n" idle)
    × (err_unopened S text 9 300 idle ≡ passed S text 9 "err_unopened: PASS\n" idle)
    × (err_vidmap S text 9 idle ≡ passed S text 9 "err_vidmap: PASS\n" idle)
    × (err_stdin_out S text 9 300 idle ≡ passed S text 9 "err_stdin_out: PASS\n" idle)
    × (err_syscall_num S text 9 idle ≡ passed S text 9 "err_syscall_num: PASS\n" idle)
syserr_passes_example = syserr_passes machine text 9 300 1 idle (λ t p q. refl) idle_chain
