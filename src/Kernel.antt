-- ===== src/Kernel.antt =====
-- The kernel's global state: the globals of src/*.c, a record for each file that declares them, and the
-- memory and the machine inside `display`.
use lightweight_operating_sy.Prelude.{
  ℕ, Bool, true, ◌||◌, Option, none, some, List, [], ◌∷◌, Memory, ◌==◌, if◌then◌else◌,
}
use lightweight_operating_sy.FileSys.{FileSystem}
use lightweight_operating_sy.Process.{Pcbs, ProcessControlBlock, get_base_process_pcb}
use lightweight_operating_sy.Screen.{Display, putc_on, clear_screen}

abbrev pub num_terminals : ℕ
num_terminals = 3

-- The globals of keyboard.c. `buffer` holds `keyboard_buffer[NUM_TERMINALS][BUFFER_SIZE]` by the byte
-- offset from its start, so an index past a row reaches the next row as it does in C.
pub record Keyboard : Type 0 where
  pub buffer : Memory
  pub index : ℕ → ℕ
  pub shift_flag : Bool
  pub caps_lock_flag : Bool
  pub ctrl_flag : Bool
  pub alt_flag : Bool
  pub newline_flag : Bool
  pub enter_flag : ℕ → Bool
  pub cur_terminal : ℕ

-- The globals of sys_calls.c and pit.c; `current` is the process whose kernel stack ESP is in.
pub record Processes : Type 0 where
  pub pcbs : Pcbs
  pub current : ℕ
  pub aux_processes : ℕ
  pub base_shell_live_bitmask : ℕ
  pub base_shell_booted_bitmask : ℕ
  pub shell_init_boot : ℕ
  pub active_processes : ℕ → ℕ
  pub cur_process : ℕ

-- The globals of RTC.c, by terminal.
pub record Rtc : Type 0 where
  pub rtc_flag : ℕ → ℕ
  pub rtc_counter : ℕ → ℕ
  pub rtc_freq : ℕ → ℕ

-- The paging tables of x86_desc.S and the two fields of the TSS that the kernel writes.
pub record Paging : Type 0 where
  pub pdt : ℕ → ℕ
  pub pt0 : ℕ → ℕ
  pub pt_vidmap : ℕ → ℕ
  pub esp0 : ℕ
  pub ss0 : ℕ

pub record Kernel : Type 0 where
  pub display : Display
  pub fs : FileSystem
  pub keyboard : Keyboard
  pub processes : Processes
  pub rtc : Rtc
  pub paging : Paging

-- The block that the inline assembly finds from ESP.
abbrev pub current_block : Kernel → ProcessControlBlock
current_block k = k.processes.pcbs k.processes.current

-- No chain of parents is longer than the seven blocks there are.
abbrev pub chain_fuel : ℕ
chain_fuel = 8

-- `cur_process_local` of `putc`: the terminal whose shell the current process descends from.
unfoldable pub cur_process_local : Processes → Option ℕ
cur_process_local p =
    if p.base_shell_booted_bitmask == 0
    then some 1
    else elim (get_base_process_pcb chain_fuel p.pcbs p.current) [
      | none ↦ none
      | some base ↦ some ((p.pcbs base).process_id)
    ]

-- `putc(c, keyboard_print)`
unfoldable pub putc : ℕ → Bool → Kernel → Option Kernel
putc c keyboard_print k = elim (cur_process_local k.processes) [
  | none ↦ none
  | some own ↦
      some (record k { display = putc_on k.keyboard.cur_terminal own keyboard_print c k.display })
]

abbrev pub putc_keyboard : ℕ → Kernel → Option Kernel
putc_keyboard c k = putc c true k

-- `putc(c, 1)` for each of some characters.
put_all : List ℕ → Kernel → Option Kernel
put_all [] k = some k
put_all (c ∷ cs) k = elim (putc_keyboard c k) [ none ↦ none | some k' ↦ put_all cs k' ]

-- `clear()`: the prompt is for a terminal's own shell.
unfoldable pub clear : Kernel → Option Kernel
unfolding put_all
clear k =
    let cleared = record k { display = clear_screen k.keyboard.cur_terminal k.display } in
    let id = (current_block k).process_id in
    if id == 1 || (id == 2 || id == 3)
    then put_all (b'3' ∷ b'9' ∷ b'1' ∷ b'O' ∷ b'S' ∷ b'>' ∷ b' ' ∷ []) cleared
    else some cleared
