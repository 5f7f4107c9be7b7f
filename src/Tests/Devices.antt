-- ===== src/Tests/Devices.antt =====
-- The interrupt controllers, the screen and the clock.
use lightweight_operating_sy.Prelude.{
  ℕ, ◌+◌, ◌-◌, ◌*◌, ◌/◌, ◌%◌, ◌^◌, ◌<◌, ◌≤◌, ◌≡◌, ◌≢◌, ◌⊎◌, ◌↔◌, some, none, true, false, not, ◌&&◌,
  ◌||◌, arith, minus_one, ◌==◌, update,
}
use lightweight_operating_sy.Pic.{enable_irq, disable_irq, i8259_init}
use lightweight_operating_sy.Pic.Masks.{InStep, is_masked, irq_lines, i8259_init-InStep}
use lightweight_operating_sy.Screen.{put_glyph, put_char, putc_on, video, cell, attrib, num_cols}
use lightweight_operating_sy.Screen.Printing.{
  IsOnScreen, Within, put_glyph_lem, put_char-IsOnScreen, putc_on_hidden,
}
use lightweight_operating_sy.Kernel.{Rtc}
use lightweight_operating_sy.Rtc.{
  get_current_process, rtc_write, rtc_tick, rtc_read_start, processes_active, max_freq,
}
use lightweight_operating_sy.Rtc.Frequency.{rtc_write_accepts}
use lightweight_operating_sy.Rtc.Ticks.{rtc_ticks, rtc_tick_faults_iff, rtc_read_ends}
use lightweight_operating_sy.Tests.Data.{image, hardware, display, clock}

abbrev row : ℕ
row = 24

abbrev rate : ℕ
rate = 8192

set_up-InStep : InStep (i8259_init hardware)
set_up-InStep = (i8259_init-InStep hardware (omega arith) (omega arith)).0

irq_lines_example :
    (is_masked (enable_irq 8 (i8259_init hardware)) 9
      ≡ (not (8 == 9) && is_masked (i8259_init hardware) 9))
    × (is_masked (disable_irq 8 (i8259_init hardware)) 9
        ≡ (8 == 9 || is_masked (i8259_init hardware) 9))
    × InStep (enable_irq 8 (i8259_init hardware))
    × InStep (disable_irq 8 (i8259_init hardware))
irq_lines_example = irq_lines (i8259_init hardware) set_up-InStep 8 (omega arith) 9 (omega arith)

corner-IsOnScreen : IsOnScreen display 0
corner-IsOnScreen = record { col_in = omega arith; row_in = omega arith }

put_char-IsOnScreen_example :
    IsOnScreen (put_char video 0 true b'\n' display) 0
    × Within display (put_char video 0 true b'\n' display) video 0
put_char-IsOnScreen_example =
    put_char-IsOnScreen video 0 display corner-IsOnScreen (omega arith) true b'\n'

second-IsOnScreen : IsOnScreen display 1
second-IsOnScreen = record { col_in = omega arith; row_in = omega arith }

putc_on_hidden_example :
    Within display (putc_on 1 2 false b'x' display) (video + 4096 * 2) (2 - 1)
    × ((a : ℕ) → video ≤ a → a < video + 4000 → (putc_on 1 2 false b'x' display).mem a ≡ image a)
    × ((putc_on 1 2 false b'x' display).hw ≡ hardware)
putc_on_hidden_example =
    putc_on_hidden 1 2 b'x' display (omega arith) (omega arith) (λ e. omega arith) second-IsOnScreen

rtc_write_accepts_example :
    (((k : ℕ) × (1 ≤ k) × (k ≤ 13) × (rate ≡ 2 ^ k))
      × ((rtc_write rate 1 clock hardware).0 ≡ 0)
      × ((rtc_write rate 1 clock hardware).1
          ≡ record clock { rtc_freq = update clock.rtc_freq (get_current_process 1) rate }))
    ⊎ (((k : ℕ) → 1 ≤ k → k ≤ 13 → rate ≢ 2 ^ k)
        × ((rtc_write rate 1 clock hardware).0 ≡ minus_one)
        × ((rtc_write rate 1 clock hardware).1 ≡ clock))
rtc_write_accepts_example = rtc_write_accepts rate 1 clock hardware

rtc_tick_faults_iff_example :
    (rtc_tick 1 7 clock ≡ none)
    ↔ ((512 * processes_active 7 ≡ 0) ⊎ (1024 < 512 * processes_active 7))
unfolding processes_active
rtc_tick_faults_iff_example = rtc_tick_faults_iff 1 7 clock (omega arith)

rtc_read_ends_example :
    (r' : Rtc) × (rtc_ticks (max_freq / (512 * processes_active 3)) 1 3 (rtc_read_start 1 clock)
      ≡ some r')
    × (r'.rtc_flag (get_current_process 1) ≡ 0)
unfolding processes_active
rtc_read_ends_example = rtc_read_ends 1 3 clock (omega arith) (omega arith) (omega arith)

put_glyph_lem_example :
    ((put_glyph video 0 true b'x' display).mem (cell video 24 79) ≡ b'x')
    × ((put_glyph video 0 true b'x' display).mem (cell video 24 79 + 1) ≡ attrib)
    × ((a : ℕ)
        → a ≢ cell video 24 79
        → a ≢ cell video 24 79 + 1
        → (put_glyph video 0 true b'x' display).mem a ≡ image a)
    × ((put_glyph video 0 true b'x' display).screen_x 0 ≡ (79 + 1) % num_cols)
    × ((put_glyph video 0 true b'x' display).screen_y 0 ≡ 24)
put_glyph_lem_example = put_glyph_lem video 0 display corner-IsOnScreen (omega arith) true b'x'
