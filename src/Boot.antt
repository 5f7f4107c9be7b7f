-- ===== src/Boot.antt =====
-- The start of src/kernel.c once the descriptors are loaded: paging, the interrupt table and the devices,
-- up to the first prompt.
pub mod Lines
use lightweight_operating_sy.Prelude.{ℕ, bit_and, bit_or}
use lightweight_operating_sy.Hardware.{Hardware, outb}
use lightweight_operating_sy.Screen.{update_cursor}
use lightweight_operating_sy.Pic.{i8259_init, master_8259_data_port, slave_8259_data_port}
use lightweight_operating_sy.Keyboard.{keyboard_init}
use lightweight_operating_sy.Rtc.{rtc_init}
use lightweight_operating_sy.Scheduler.{pit_init}
use lightweight_operating_sy.Paging.{PdtEntryPage, PdtEntryTable, PtEntry, setup_kernel_paging}
use lightweight_operating_sy.Interrupts.{Linkage, IdtDesc, Idt, setup_idt}
use lightweight_operating_sy.Kernel.{Kernel, Keyboard}

-- `enable_cursor()`: `first` and `last` are what the two cursor registers hold.
unfoldable pub enable_cursor : ℕ → ℕ → Hardware → Hardware
enable_cursor first last h =
    outb (bit_or (bit_and last 0xe0) 15) 0x3d5
      (outb 0x0b 0x3d4 (outb (bit_or (bit_and first 0xc0) 14) 0x3d5 (outb 0x0a 0x3d4 h)))

-- From the masking of all lines to `update_cursor(0, 0)`. `prev` is the clock's register B.
unfoldable pub start_devices : ℕ → ℕ → ℕ → Keyboard → Hardware → Keyboard × Hardware
unfolding enable_cursor
start_devices prev first last b h =
    let masked = outb 0xff slave_8259_data_port (outb 0xff master_8259_data_port h) in
    let (b', keys) = keyboard_init b (i8259_init masked) in
    (b', update_cursor 0 0 (enable_cursor first last (pit_init (rtc_init prev keys))))

-- The table and the state after the calls from `setup_kernel_paging` on. The first arguments are those of
-- `setup_kernel_paging` and `setup_IDT`.
unfoldable pub start :
    PdtEntryPage
    → PdtEntryTable
    → (ℕ → PtEntry)
    → ℕ
    → (Linkage → ℕ)
    → IdtDesc
    → ℕ
    → ℕ
    → ℕ
    → Idt
    → Kernel
    → Idt × Kernel
unfolding start_devices
start kernal_page first_mb video pt0_address address stack prev first last idt k =
    let (keyboard, hw) = start_devices prev first last k.keyboard k.display.hw in
    (
      setup_idt address stack idt,
      record k {
        paging = setup_kernel_paging kernal_page first_mb video pt0_address k.paging;
        keyboard = keyboard;
        display = record k.display { hw = hw };
      },
    )
