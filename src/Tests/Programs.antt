-- ===== src/Tests/Programs.antt =====
-- A program that the first terminal's shell runs, and its end; the start of the kernel; printing.
use lightweight_operating_sy.Prelude.{
  false, ◌≤◌, ◌≡◌, inl, refl, some, arith, Memory, ◌==◌, if◌then◌else◌, load32,
}
use lightweight_operating_sy.Str.{strlen, strncmp}
use lightweight_operating_sy.Copy.{memcpy}
use lightweight_operating_sy.FileSys.{read_dentry_by_index, read_dentry_by_name, read_data}
use lightweight_operating_sy.Kernel.{Kernel}
use lightweight_operating_sy.Execute.Command.{
  Frame, copy_command, name_loop, skip_spaces, clear_args, take_args, name_block,
}
use lightweight_operating_sy.Execute.Slots.{Slot, find_slot, program_slot, choose_slot}
use lightweight_operating_sy.Execute.Accounts.{IsAccounted, taken}
use lightweight_operating_sy.Execute.Steps.{here, next, executed, Reach-IsAccounted, state_of}
use lightweight_operating_sy.Execute.Entering.{entered}
use lightweight_operating_sy.Execute.Caller.{IsCaller}
use lightweight_operating_sy.Execute.Return.{IsLater, IsBack, execute-halt}
use lightweight_operating_sy.Execute.{
  Execution, runs, resumes, enter, launch, execute, halt, link_blocks, fill_block,
}
use lightweight_operating_sy.Tests.Data.{kernel, image, display}
use lightweight_operating_sy.Tests.Threads.{stack_page}

-- The file "a" is a program of 28 bytes, entered at 128 MB; the command at 100 is its name.
abbrev program_image : Memory
program_image a =
    if a == 8192
    then 28
    else if a == 12288
    then 0x7f
    else if a == 12289
    then 0x45
    else if a == 12290
    then 0x4c
    else if a == 12291
    then 0x46
    else if a == 12315
    then 8
    else image a

abbrev shell_runs : Kernel
shell_runs = record kernel { display = record display { mem = program_image } }

abbrev frame : Frame
frame = record {
  command = 0x7f_d000;
  file_name = 0x7f_d080;
  file_metadata = 0x7f_d0a0;
  shell = 200;
  too_many = 300;
}

abbrev started : Execution
started = execute 40 frame (λ a. 0) stack_page 0 0x7f_dfc0 100 shell_runs

abbrev state_in : Execution → Kernel
state_in (runs pid eip k) = k
state_in _ = kernel

started_as : entered started ≡ some (4, state_in started)
unfolding execute launch enter choose_slot program_slot find_slot copy_command name_loop skip_spaces
    clear_args take_args name_block strncmp read_dentry_by_name read_data strlen load32
    read_dentry_by_index memcpy
started_as = refl

nothing_runs : IsAccounted shell_runs.processes
unfolding taken
nothing_runs = record { counted = refl; shells = omega arith }

calls : IsCaller shell_runs
calls = record {
  counted = nothing_runs;
  own_id = refl;
  running = inl (omega arith, omega arith);
  no_boot = refl;
  all_live = refl;
}

-- The program runs as process 4.
abbrev program_runs : Kernel
program_runs = record (state_in started) {
  processes = record (state_in started).processes { current = 4 };
}

ended_in : state_of started ≡ some (state_in started)
unfolding execute launch enter choose_slot program_slot find_slot copy_command name_loop skip_spaces
    clear_args take_args name_block strncmp read_dentry_by_name read_data strlen load32
    read_dentry_by_index memcpy
ended_in = refl

Reach-IsAccounted_example :
    IsAccounted (state_in started).processes × ((state_in started).processes.aux_processes ≤ 3)
Reach-IsAccounted_example =
    Reach-IsAccounted shell_runs (state_in started) nothing_runs
      (next here (executed 40 frame (λ a. 0) stack_page 0 0x7f_dfc0 100 ended_in))

is_later : IsLater shell_runs (state_in started) program_runs 4
unfolding execute launch enter choose_slot program_slot find_slot copy_command name_loop skip_spaces
    clear_args take_args name_block strncmp read_dentry_by_name read_data strlen load32
    read_dentry_by_index memcpy taken link_blocks fill_block
is_later = record {
  at_child = refl;
  same_id = refl;
  same_parent = refl;
  caller = refl;
  held = refl;
  counted = record { counted = refl; shells = omega arith };
}

execute-halt_example :
    (k3 : Kernel) × (halt 40 frame (λ a. 0) stack_page 0 0x7f_9fc0 256 program_runs
      ≡ resumes 0x7f_dfc0 0x100 k3)
    × IsBack shell_runs program_runs k3 4
execute-halt_example =
    execute-halt 40 frame (λ a. 0) stack_page 0 0x7f_dfc0 100 256 4 0x7f_9fc0 shell_runs
      (state_in started) program_runs calls started_as is_later refl

-- The command "a b", with the program's name where the image has it.
abbrev command_image : Memory
command_image a = if a == 101 then b' ' else if a == 102 then b'b' else program_image a

abbrev typed : Kernel
typed = record kernel { display = record display { mem = command_image } }

abbrev typed_frame : Frame
typed_frame = record frame { command = 100; file_name = 4160; file_metadata = 12288 }

abbrev first_slot : Slot
first_slot = record { next_pid = 4; base_boot = false; after = kernel.processes }
