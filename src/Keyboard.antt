-- ===== src/Keyboard.antt =====
-- The keyboard interrupt of src/keyboard.c: the set-up, the switch between terminals and the handler.
-- `none` means that the chain of parents of the current process has no end.
pub mod Codes
pub mod Line
pub mod Switch
pub mod Typing
use lightweight_operating_sy.Prelude.{
  ℕ, ◌+◌, ◌-◌, ◌*◌, ◌^◌, true, false, ◌&&◌, ◌||◌, Option, none, some, update, ◌==◌, if◌then◌else◌,
  bit_and,
}
use lightweight_operating_sy.Hardware.{Hardware, outb, cli, sti}
use lightweight_operating_sy.Pic.{enable_irq, send_eoi}
use lightweight_operating_sy.Copy.{memcpy}
use lightweight_operating_sy.Screen.{Display, video, update_cursor}
use lightweight_operating_sy.Kernel.{Kernel, Keyboard, Processes, current_block}
use lightweight_operating_sy.Process.{ProcessControlBlock}
use lightweight_operating_sy.Keyboard.Codes.{modifiers}
use lightweight_operating_sy.Keyboard.Line.{
  shown, and_then, press_enter, break_line, press_clear, press_tab, press_backspace, press_char,
}

abbrev pub four_kb : ℕ
four_kb = 4096

unfoldable pub keyboard_init : Keyboard → Hardware → Keyboard × Hardware
keyboard_init b h = (
  record b {
    index = update (update (update b.index 0 0) 1 0) 2 0;
    cur_terminal = 1;
    shift_flag = false;
    caps_lock_flag = false;
    ctrl_flag = false;
    enter_flag = update (update (update b.enter_flag 0 false) 1 false) 2 false;
    newline_flag = false;
    alt_flag = false;
  },
  enable_irq 1 h,
)

-- `videomem_buffer[t - 1]`
abbrev pub videomem_buffer : ℕ → ℕ
videomem_buffer t = video + t * four_kb

-- The screen shown is saved to its terminal's page, and the selected terminal's page is shown.
unfoldable pub show_terminal : ℕ → Kernel → Kernel
show_terminal selected k =
    let d = k.display in
    let saved = memcpy d.mem (videomem_buffer k.keyboard.cur_terminal) video four_kb in
    record k {
      display = record d {
        mem = memcpy saved video (videomem_buffer selected) four_kb;
        hw = update_cursor (d.screen_x (selected - 1)) (d.screen_y (selected - 1)) d.hw;
      };
      keyboard = record k.keyboard { cur_terminal = selected };
    }

-- How the handler ends: it returns, or it calls `execute` of "shell" for a terminal without one.
pub data Handled : Type 0 where
  done boots : Kernel → Handled

abbrev end_of_interrupt : Kernel → Kernel
end_of_interrupt k = record k {
  display = record k.display { hw = sti (outb 0x61 0x20 k.display.hw) };
}

unfoldable pub press_function : ℕ → ℕ → Kernel → Handled
unfolding show_terminal
press_function scan_code ebp k =
    let selected = scan_code - 0x3a in
    let switched = show_terminal selected k in
    let p = switched.processes in
    if k.keyboard.alt_flag && (scan_code == 0x3b || (scan_code == 0x3c || scan_code == 0x3d))
    then if bit_and p.base_shell_booted_bitmask (2 ^ (selected - 1)) == 0
      then boots (record switched {
        processes = record p {
          pcbs = update p.pcbs p.current (record (current_block k) { sched_ebp = ebp });
          shell_init_boot = selected;
          cur_process = selected;
        };
        display = record switched.display { hw = send_eoi 1 switched.display.hw };
      })
      else done (end_of_interrupt switched)
    else done (end_of_interrupt k)

-- `update_cursor` after the line keys, before the printing ones.
abbrev place_cursor : Kernel → Kernel
place_cursor k = record k {
  display = record k.display {
    hw = update_cursor (k.display.screen_x (shown k)) (k.display.screen_y (shown k)) k.display.hw;
  };
}

-- `scan_code` is the byte that the port reads as, `ebp` the register.
unfoldable pub keyboard_handler : ℕ → ℕ → Kernel → Option Handled
unfolding modifiers press_enter break_line press_clear press_tab press_backspace press_char
    press_function
keyboard_handler scan_code ebp k =
    let masked = record k {
      display = record k.display { hw = cli k.display.hw };
      keyboard = modifiers scan_code k.keyboard;
    } in
    let line =
      and_then
        (and_then
          (and_then (and_then (press_enter scan_code masked) break_line) (press_clear scan_code))
          (press_tab scan_code))
        (press_backspace scan_code) in
    elim (and_then line (λ l. press_char scan_code (place_cursor l))) [
      | none ↦ none
      | some k' ↦ some (press_function scan_code ebp k')
    ]
