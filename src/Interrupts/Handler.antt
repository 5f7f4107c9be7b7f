-- ===== src/Interrupts/Handler.antt =====
-- `exc_handler` of src/interrupts.c: what each vector leads to.
use Prim.Native.Char.{code}
use Prim.Native.String.{String}
use lightweight_operating_sy.Prelude.{
  ℕ, zero, suc, ◌+◌, ◌*◌, ◌/◌, ◌%◌, ◌≡◌, ◌⊎◌, inl, inr, refl, false, not, ◌&&◌, Option, none, some,
  List, [], ◌∷◌, Memory, update, slt, ◌==◌, if◌then◌else◌, Option-cases, true, arith, ◌≤◌,
}
use lightweight_operating_sy.Copy.{store4}
use lightweight_operating_sy.Kernel.{Kernel}
use lightweight_operating_sy.FileDriver.{with_memory}
use lightweight_operating_sy.Terminal.{set_cli}
use lightweight_operating_sy.Terminal.Printf.{printf}
use lightweight_operating_sy.Keyboard.{done, boots, keyboard_handler}
use lightweight_operating_sy.Rtc.{rtc_handler}
use lightweight_operating_sy.Scheduler.{pit_handler}
use lightweight_operating_sy.Paging.{PdtEntryPage, PtEntry}

-- Where the locals of the handler and its literals lie, the compiler's choice: the stack's words for the
-- arguments of `printf`, its buffer, the array `exceptions`, and the three formats.
pub record HandlerFrame : Type 0 where
  pub esp : ℕ
  pub conv_buf : ℕ
  pub exceptions : ℕ
  pub exception_format : ℕ
  pub type_format : ℕ
  pub address_format : ℕ

-- How the handler ends: it spins with interrupts off, it returns, it jumps to the frame of another thread,
-- it boots a terminal's shell, or it is stuck in a divide error, a chain without end or a text without end.
pub data Service : Type 0 where
  spins : Kernel → Service
  returns : Kernel → Service
  switches : ℕ → Kernel → Service
  boots_shell : Kernel → Service
  stuck : Service

abbrev codes : String → List ℕ
codes String.[] = []
codes (String.◌∷◌ c s) = code c ∷ codes s

-- The messages, by vector.
abbrev pub messages : List String
messages =
    "Division Error" ∷ "Debug" ∷ "Non-maskable Interrupt" ∷ "Breakpoint" ∷ "Overflow"
    ∷ "Bound Range Exceeded" ∷ "Invalid Opcode" ∷ "Device Not Avalable" ∷ "Double Fault"
    ∷ "Coprocessor Segment Overrun" ∷ "Invalid TSS" ∷ "Segment Not Present" ∷ "Stack-Segment Fault"
    ∷ "General Protection Fault" ∷ "Page Fault" ∷ "Test Assertion" ∷ "x87 Floating-Point Exception"
    ∷ "Alignment Check" ∷ "Machine Check" ∷ "SIMD Floating-Point Exception" ∷ []

-- A row of the array: the text, and zeros in the rest of its `left` bytes.
unfoldable pub store_row : ℕ → ℕ → List ℕ → Memory → Memory
store_row zero at text m = m
store_row (suc left) at [] m = store_row left (at + 1) [] (update m at 0)
store_row (suc left) at (c ∷ text) m = store_row left (at + 1) text (update m at c)

-- `char exceptions[20][30] = {...}`
unfoldable pub store_rows : ℕ → List String → Memory → Memory
unfolding store_row
store_rows at [] m = m
store_rows at (text ∷ rest) m = store_rows (at + 30) rest (store_row 30 at (codes text) m)

-- A call of `printf` with one more argument.
unfoldable pub printf_with : ℕ → HandlerFrame → ℕ → ℕ → Kernel → Option Kernel
printf_with fuel f format value k =
    let word =
      store4 k.display.mem f.esp (value % 256) (value / 256 % 256) (value / 65536 % 256)
        (value / 16777216 % 256) in
    elim (printf fuel f.conv_buf format f.esp (with_memory k word)) [
      | none ↦ none
      | some (_, k') ↦ some k'
    ]

-- What is printed for a processor exception; `cr2` is the register.
unfoldable pub report : ℕ → HandlerFrame → ℕ → ℕ → Kernel → Option Kernel
unfolding store_rows printf_with
report fuel f cr2 vector k = elim (printf_with fuel f f.exception_format vector k) [
  | none ↦ none
  | some k1 ↦
      let k2 = with_memory k1 (store_rows f.exceptions messages k1.display.mem) in
      elim (printf_with fuel f f.type_format (f.exceptions + 30 * vector) k2) [
        | none ↦ none
        | some k3 ↦
            let addressed = printf_with fuel f f.address_format cr2 k3 in
            if vector == 0x0e then addressed else some k3
      ]
]

-- The three handlers.
unfoldable pub serve_rtc : Kernel → Service
serve_rtc k =
    let p = k.processes in
    elim (rtc_handler p.cur_process p.base_shell_booted_bitmask k.rtc k.display.hw) [
      | none ↦ stuck
      | some (rtc, hw) ↦ returns (record k { rtc = rtc; display = record k.display { hw = hw } })
    ]

unfoldable pub serve_keyboard : ℕ → ℕ → Kernel → Service
serve_keyboard scan_code ebp k = elim (keyboard_handler scan_code ebp k) [
  | none ↦ stuck
  | some handled ↦ elim handled [ done k' ↦ returns k' | boots k' ↦ boots_shell k' ]
]

unfoldable pub serve_pit : PdtEntryPage → PtEntry → ℕ → Kernel → Service
serve_pit new_page vidmem_pt ebp k = elim (pit_handler new_page vidmem_pt ebp k) [
  | none ↦ stuck
  | some (frame, k') ↦ elim frame [ none ↦ returns k' | some to ↦ switches to k' ]
]

-- `exc_handler(vector)`. The arguments after `cr2` are those of the handlers.
unfoldable pub exc_handler :
    ℕ → HandlerFrame → ℕ → ℕ → ℕ → PdtEntryPage → PtEntry → ℕ → Kernel → Service
unfolding report serve_rtc serve_keyboard serve_pit
exc_handler fuel f cr2 scan_code ebp new_page vidmem_pt vector k =
    let reported : Service = elim (report fuel f cr2 vector k) [
      | none ↦ stuck
      | some k' ↦ spins (set_cli k')
    ] in
    let clock = serve_rtc k in
    let keys = serve_keyboard scan_code ebp k in
    let timer = serve_pit new_page vidmem_pt ebp k in
    if not (slt vector 0) && not (slt 0x13 vector)
    then reported
    else if vector == 0x28
    then clock
    else if vector == 0x21
    then keys
    else if vector == 0x20
    then timer
    else returns k

-- A processor exception never returns, to its program or to any other: `exc_handler` spins with interrupts
-- off, unless its own printing hangs.
pub exc_handler-spins :
    (fuel : ℕ) (f : HandlerFrame) (cr2 scan_code ebp : ℕ) (new_page : PdtEntryPage)
    (vidmem_pt : PtEntry) (vector : ℕ) (k : Kernel)
    → vector ≤ 0x13
    → ((k' : Kernel) × (exc_handler fuel f cr2 scan_code ebp new_page vidmem_pt vector k ≡ spins k')
        × (k'.display.hw.interrupts ≡ false))
      ⊎ (exc_handler fuel f cr2 scan_code ebp new_page vidmem_pt vector k ≡ stuck)
unfolding exc_handler
exc_handler-spins fuel f cr2 scan_code ebp new_page vidmem_pt vector k low =
    let exception : not (slt vector 0) && not (slt 0x13 vector) ≡ true = ground arith in
    elim (Option-cases (report fuel f cr2 vector k)) [
      | inl lost ↦ inr (rw (exception, lost) refl)
      | inr (k', reported) ↦ inl (set_cli k', rw (exception, reported) refl, refl)
    ]
