-- ===== src/Tests/Counting.antt =====
-- The program that counts, with "0" typed at the terminal.
use Prim.Native.String.{String}
use lightweight_operating_sy.Prelude.{ℕ, ◌≡◌, inl, refl, some, arith, ◌==◌, if◌then◌else◌, Memory}
use lightweight_operating_sy.Kernel.{Kernel, cur_process_local}
use lightweight_operating_sy.Process.{
  ProcessControlBlock, stdin_fd, stdout_fd, get_base_process_pcb,
}
use lightweight_operating_sy.Programs.{say, ◌>>◌}
use lightweight_operating_sy.Programs.Printing.{IsPrinting, after_write, fdputs_prints}
use lightweight_operating_sy.Programs.OnKernel.{Machine, Session, kernel_system}
use lightweight_operating_sy.Screen.{Display}
use lightweight_operating_sy.Str.Length.{IsCString}
use lightweight_operating_sy.Syscall
use lightweight_operating_sy.Terminal.{terminal_read_finish}
use lightweight_operating_sy.Tests.Data.{kernel, shell_block}
use lightweight_operating_sy.Tests.Users.{machine}

-- A process of the first terminal with descriptors 0 and 1 in use; the literals are a line end at 500.
abbrev literals : Memory
literals a = if a == 500 then b'\n' else 0

abbrev counting_block : ProcessControlBlock
counting_block = record shell_block {
  files = λ t. if t == 0 then record stdin_fd { flags = 1 } else record stdout_fd { flags = 1 };
}

abbrev counting_kernel : Memory → Kernel
counting_kernel keys = record kernel {
  display = record kernel.display { mem = literals };
  keyboard = record kernel.keyboard { buffer = keys };
  processes = record kernel.processes { pcbs = λ p. counting_block };
}

counting_terminal : (keys : Memory) → cur_process_local (counting_kernel keys).processes ≡ some 1
unfolding cur_process_local get_base_process_pcb
counting_terminal keys = refl

counting_kernel-IsPrinting : (keys : Memory) → IsPrinting (counting_kernel keys) 1
counting_kernel-IsPrinting keys = record {
  prints = refl;
  out_active = λ e. omega arith;
  terminal = counting_terminal keys;
  own_in = (omega arith, omega arith);
  on = record { col_in = omega arith; row_in = omega arith };
}

-- "0" and Enter are what the terminal gets while the program waits.
abbrev choice : Memory
choice a = if a == 0 then b'0' else if a == 1 then b'\n' else 0

abbrev typing_machine : Machine
typing_machine = record machine { until = λ wait k. some (counting_kernel choice) }

abbrev text : String → ℕ
text line = 500

abbrev before : Session
before = record { kernel = counting_kernel (λ a. 0) }

literals-IsCString : IsCString literals 500 1
literals-IsCString = record { filled = λ i h e. ground arith; ended = refl }

prompt_printed :
    (d : Display) × (say
        (kernel_system typing_machine)
        9
        text
        "Enter the Test Number: (0): 100, (1): 10000, (2): 100000\n"
        before
      ≡ some (tt, after_write before d))
prompt_printed =
    let (d, e, _, _, _) =
      fdputs_prints typing_machine 9 1 500 1 before (counting_kernel-IsPrinting (λ a. 0))
        literals-IsCString (omega arith) (omega arith) (omega arith) (omega arith)
        (inl (omega arith)) in
    (d, e)

abbrev prompted : Session
prompted = after_write before prompt_printed.0

abbrev typed : Session
typed = record { kernel = (terminal_read_finish 0x83f_f000 1023 (counting_kernel choice)).1 }
