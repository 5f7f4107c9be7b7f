-- ===== src/Tests/Keys.antt =====
-- The keyboard.
use lightweight_operating_sy.Prelude.{
  ℕ, ◌+◌, ◌<◌, ◌≤◌, ◌≡◌, ◌≢◌, ◌⊎◌, refl, some, true, false, arith,
}
use lightweight_operating_sy.Process.{get_base_process_pcb}
use lightweight_operating_sy.Screen.{video}
use lightweight_operating_sy.Kernel.{Kernel, cur_process_local}
use lightweight_operating_sy.Terminal.{key_at}
use lightweight_operating_sy.Keyboard.{show_terminal, videomem_buffer, four_kb}
use lightweight_operating_sy.Keyboard.Codes.{char_of}
use lightweight_operating_sy.Keyboard.Line.{key_index, key, types_char, press_char}
use lightweight_operating_sy.Keyboard.Switch.{show_terminal-Copied}
use lightweight_operating_sy.Keyboard.Typing.{press_char-appends}
use lightweight_operating_sy.Tests.Data.{image, kernel}

show_terminal-Copied_example :
    ((i : ℕ)
      → i < four_kb
      → (show_terminal 2 kernel).display.mem (videomem_buffer 1 + i) ≡ image (video + i))
    × ((i : ℕ)
        → i < four_kb
        → (show_terminal 2 kernel).display.mem (video + i) ≡ image (videomem_buffer 2 + i))
    × ((a : ℕ)
        → (a < video) ⊎ (video + four_kb ≤ a)
        → (a < videomem_buffer 1) ⊎ (videomem_buffer 1 + four_kb ≤ a)
        → (show_terminal 2 kernel).display.mem a ≡ image a)
    × ((show_terminal 2 kernel).keyboard.cur_terminal ≡ 2)
show_terminal-Copied_example =
    show_terminal-Copied 2 kernel (omega arith) (omega arith) (omega arith) (omega arith)
      (λ e. omega arith)

press_char-appends_example :
    (k' : Kernel) × (press_char 0x1e kernel ≡ some k')
    × (key_index k' ≤ 126)
    × (((types_char kernel 0x1e ≡ true)
          × (key_index kernel < 126)
          × (key_index k' ≡ key_index kernel + 1)
          × (key k' (key_index kernel) ≡ char_of kernel.keyboard 0x1e)
          × ((a : ℕ)
              → a ≢ key_at 0 (key_index kernel)
              → k'.keyboard.buffer a ≡ kernel.keyboard.buffer a))
        ⊎ (((types_char kernel 0x1e ≡ false) ⊎ (key_index kernel ≡ 126)) × (k' ≡ kernel)))
unfolding cur_process_local get_base_process_pcb
press_char-appends_example = press_char-appends 0x1e 1 kernel refl (omega arith)
