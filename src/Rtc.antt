-- ===== src/Rtc.antt =====
-- src/RTC.c: one real-time clock at 1024 Hz, shared out to the terminals by a counter each. A read
-- that waits for a tick is in two parts. What `inb` returns is an argument.
pub mod Frequency
pub mod Ticks
use lightweight_operating_sy.Prelude.{
  ℕ, zero, suc, ◌+◌, ◌-◌, ◌*◌, ◌/◌, ◌%◌, Bool, true, false, not, ◌&&◌, ◌||◌, Option, none, some,
  update, ltb, leb, ◌==◌, if◌then◌else◌, u8, u32, minus_one, bit_and, bit_or,
}
use lightweight_operating_sy.Hardware.{Hardware, outb, cli, sti}
use lightweight_operating_sy.Pic.{enable_irq, send_eoi}
use lightweight_operating_sy.Kernel.{Rtc}

abbrev pub max_freq : ℕ
max_freq = 1024

abbrev pub init_rate_default : ℕ
init_rate_default = 340

-- `get_current_process()` of src/pit.c
abbrev pub get_current_process : ℕ → ℕ
get_current_process cur_process = cur_process - 1

unfoldable pub rtc_init : ℕ → Hardware → Hardware
unfolding enable_irq
rtc_init prev h =
    sti (enable_irq 8 (outb (bit_or prev 0x40) 0x71 (outb 0x8b 0x70 (outb 0x8b 0x70 (cli h)))))

-- `processes_active`: 1, and one more for each of the shells 2 and 3 that is booted.
unfoldable pub processes_active : ℕ → ℕ
processes_active booted = 1 + booted / 2 % 2 + booted / 4 % 2

-- `MAX_FREQ / (rtc_freq[curProcess] * processes_active)`: `none` is the processor's divide error, here
-- and for the remainder by a zero quotient.
unfoldable pub tick_divisor : ℕ → ℕ → Option ℕ
tick_divisor freq active =
    if u32 (freq * active) == 0
    then none
    else if max_freq / u32 (freq * active) == 0
    then none
    else some (max_freq / u32 (freq * active))

-- What the handler does to the clock state; `none` is a divide error in the kernel.
unfoldable pub rtc_tick : ℕ → ℕ → Rtc → Option Rtc
rtc_tick cur_process booted r =
    let t = get_current_process cur_process in
    elim (tick_divisor (r.rtc_freq t) (processes_active booted)) [
      | none ↦ none
      | some divisor ↦ some (record r {
        rtc_flag = if r.rtc_counter t % divisor == 0 then update r.rtc_flag t 0 else r.rtc_flag;
        rtc_counter = update r.rtc_counter t (u32 (r.rtc_counter t + 1));
      })
    ]

unfoldable pub rtc_handler : ℕ → ℕ → Rtc → Hardware → Option (Rtc × Hardware)
unfolding rtc_tick
rtc_handler cur_process booted r h = elim (rtc_tick cur_process booted r) [
  | none ↦ none
  | some r' ↦ some (r', send_eoi 8 (outb 0x0c 0x70 h))
]

-- The result is the return value and the two states.
unfoldable pub rtc_open : ℕ → ℕ → Rtc → Hardware → ℕ × Rtc × Hardware
rtc_open prev cur_process r h = (
  1,
  record r { rtc_flag = update r.rtc_flag (get_current_process cur_process) 0 },
  sti (outb (bit_or (bit_and prev 0xf0) 6) 0x71 (outb 0x8a 0x70 (outb 0x8a 0x70 (cli h)))),
)

abbrev pub rtc_close : ℕ
rtc_close = 0

-- `while (value > frequency) { value >>= 1; rate++; }`; `value` reaches 0 in 16 rounds at most.
unfoldable pub rate_loop : ℕ → ℕ → ℕ → ℕ → ℕ
rate_loop zero value rate frequency = rate
rate_loop (suc fuel) value rate frequency =
    let rest = rate_loop fuel (value / 2) (rate + 1) frequency in
    if ltb frequency value then rest else rate

-- `buf` is given by the word that it points to. Both failures return with interrupts off.
unfoldable pub rtc_write : ℕ → ℕ → Rtc → Hardware → ℕ × Rtc × Hardware
rtc_write frequency cur_process r h =
    let rate = rate_loop 17 32768 1 frequency in
    if not (ltb 0 frequency && (bit_and frequency (frequency - 1) == 0))
    then (minus_one, r, cli h)
    else if ltb rate 3 || ltb 15 rate
    then (minus_one, r, cli h)
    else (
      0,
      record r { rtc_freq = update r.rtc_freq (get_current_process cur_process) frequency },
      sti (cli h),
    )

-- Up to the wait, and again after it: the flag is set.
unfoldable pub rtc_read_start : ℕ → Rtc → Rtc
rtc_read_start cur_process r = record r {
  rtc_flag = update r.rtc_flag (get_current_process cur_process) 1;
}

-- After the wait, once `rtc_flag` of the terminal that began the read is no longer 1.
unfoldable pub rtc_read_finish : ℕ → Rtc → ℕ × Rtc
rtc_read_finish cur_process_at_start r =
    (0, record r { rtc_flag = update r.rtc_flag (get_current_process cur_process_at_start) 1 })
