-- ===== src/Execute/Command.antt =====
-- The loops of `execute` (src/sys_calls.c) over the command line.
use lightweight_operating_sy.Prelude.{
  ℕ, zero, suc, ◌+◌, ◌||◌, Option, none, some, Memory, update, ◌==◌, if◌then◌else◌,
}

-- Where the local arrays of `execute` and its literals lie: the compiler's choice.
pub record Frame : Type 0 where
  pub command : ℕ
  pub file_name : ℕ
  pub file_metadata : ℕ
  -- "shell", and the message for too many processes
  pub shell : ℕ
  pub too_many : ℕ

-- `for (cnt = 0; cnt < 128; cnt++) command[cnt] = command_user[cnt];` with `left` rounds to go.
unfoldable pub copy_command : ℕ → ℕ → ℕ → ℕ → Memory → Memory
copy_command zero cnt command user m = m
copy_command (suc left) cnt command user m =
    copy_command left (cnt + 1) command user (update m (command + cnt) (m (user + cnt)))

-- The characters up to a space or the NUL go to `file_name`; the result is `args_idx`. `none`: the
-- fuel ran out.
unfoldable pub name_loop : ℕ → ℕ → ℕ → ℕ → Memory → Option (ℕ × Memory)
name_loop zero args_idx command file_name m = none
name_loop (suc fuel) args_idx command file_name m =
    let c = m (command + args_idx) in
    let rest =
      name_loop fuel (args_idx + 1) command file_name (update m (file_name + args_idx) c) in
    if c == b' ' || c == 0 then some (args_idx, m) else rest

-- `while (command[args_idx] == ' ') args_idx++;`
unfoldable pub skip_spaces : ℕ → ℕ → ℕ → Memory → Option ℕ
skip_spaces zero args_idx command m = none
skip_spaces (suc fuel) args_idx command m =
    let rest = skip_spaces fuel (args_idx + 1) command m in
    if m (command + args_idx) == b' ' then rest else some args_idx

-- `new_PCB->args[i] = '\0'` from `i` on.
unfoldable pub clear_args : ℕ → ℕ → Memory → Memory
clear_args zero i args = args
clear_args (suc left) i args = clear_args left (i + 1) (update args i 0)

-- The characters from `args_idx` up to the NUL, with `left` bytes of room.
unfoldable pub take_args : ℕ → ℕ → ℕ → ℕ → Memory → Memory → Memory
take_args zero i args_idx command m args = args
take_args (suc left) i args_idx command m args =
    let c = m (command + args_idx) in
    let rest = take_args left (i + 1) (args_idx + 1) command m (update args i c) in
    if c == 0 then update args i 0 else rest

-- `strcpy` into the block's `name`.
unfoldable pub name_block : ℕ → ℕ → ℕ → Memory → Memory → Option Memory
name_block zero i file_name m name = none
name_block (suc fuel) i file_name m name =
    let c = m (file_name + i) in
    let rest = name_block fuel (i + 1) file_name m (update name i c) in
    if c == 0 then some (update name i 0) else rest
