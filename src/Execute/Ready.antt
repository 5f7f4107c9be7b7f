-- ===== src/Execute/Ready.antt =====
-- What a program finds when `execute` enters it: its bytes, its two descriptors and its arguments.
use lightweight_operating_sy.Prelude.{ℕ, ◌+◌, ◌<◌, ◌≡◌, ◌≢◌, Memory, ◌*◌}
use lightweight_operating_sy.Str.Length.{IsCString}
use lightweight_operating_sy.FileSys.{FileSystem, file_size}
use lightweight_operating_sy.FileSys.Layout.{file_byte}
use lightweight_operating_sy.FileSys.ReadData.{ReadInto}
use lightweight_operating_sy.Process.{stdin_fd, stdout_fd, args_buffer_size}
use lightweight_operating_sy.Kernel.{Kernel}
use lightweight_operating_sy.Execute.Command.{Frame}
use lightweight_operating_sy.Execute.{program_start}

-- The new process's memory holds the program, its descriptors 0 and 1 are the terminal's, and its arguments
-- are the `n` characters of the command at `text`.
pub record IsReady (k k1 : Kernel) (pid inode text n : ℕ) : Type 0 where
  pub program :
      ReadInto k.display.mem k1.display.mem k.fs inode 0
        (program_start pid)
        (file_size k.display.mem k.fs inode)
  pub stdin : (k1.processes.pcbs pid).files 0 ≡ record stdin_fd { flags = 1 }
  pub stdout : (k1.processes.pcbs pid).files 1 ≡ record stdout_fd { flags = 1 }
  pub args_end : (k1.processes.pcbs pid).args n ≡ 0
  pub args_text : (j : ℕ) → j < n → (k1.processes.pcbs pid).args j ≡ k.display.mem (text + j)

-- The word at byte 24 of the file, where the program is entered.
pub entry_point : Memory → FileSystem → ℕ → ℕ
entry_point m fs inode =
    file_byte m fs inode 24
    + file_byte m fs inode 25 * 0x100
    + file_byte m fs inode 26 * 0x1_0000
    + file_byte m fs inode 27 * 0x100_0000

-- A command and a program's name from which `execute` can enter it: the name is a C string of `l`
-- characters, and after it the command has `s` spaces and then a string of `n` characters, fewer than
-- 1024; all of that lies below the page of the process.
pub record IsCommand (f : Frame) (m : Memory) (page fuel args_idx l s n : ℕ) : Type 0 where
  pub named : IsCString m f.file_name l
  pub name_below : f.file_name + l < page
  pub name_fuel : l < fuel
  pub spaces : (i : ℕ) → i < s → m (f.command + args_idx + i) ≡ b' '
  pub stop : m (f.command + args_idx + s) ≢ b' '
  pub spaces_fuel : s < fuel
  pub text : IsCString m (f.command + (args_idx + s)) n
  pub text_below : f.command + args_idx + s + n < page
  pub room : n < args_buffer_size
