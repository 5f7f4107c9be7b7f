-- ===== src/Pic.antt =====
-- src/i8259.c: the two cascaded 8259 interrupt controllers.
pub mod Masks
use lightweight_operating_sy.Prelude.{
  ℕ, ◌+◌, ◌-◌, ◌*◌, ◌%◌, ◌^◌, Bool, ltb, leb, if◌then◌else◌, u8, u32, bit_and, bit_or,
}
use lightweight_operating_sy.Hardware.{Hardware, outb}

abbrev pub master_8259_port : ℕ
master_8259_port = 0x20

abbrev pub slave_8259_port : ℕ
slave_8259_port = 0xa0

abbrev pub master_8259_data_port : ℕ
master_8259_data_port = 0x21

abbrev pub slave_8259_data_port : ℕ
slave_8259_data_port = 0xa1

abbrev pub eoi : ℕ
eoi = 0x60

-- `1 << n` as a byte
abbrev bit8 : ℕ → ℕ
bit8 n = u8 (2 ^ n)

-- `~x` as a byte
abbrev not8 : ℕ → ℕ
not8 x = 0xff - x

unfoldable pub enable_irq : ℕ → Hardware → Hardware
enable_irq irq_num h =
    if leb 8 irq_num
    then (let slave_mask = bit_and h.slave_mask (not8 (bit8 (irq_num - 8))) in
        outb slave_mask slave_8259_data_port (record h { slave_mask = slave_mask }))
    else (let master_mask = bit_and h.master_mask (not8 (bit8 irq_num)) in
        outb master_mask master_8259_data_port (record h { master_mask = master_mask }))

unfoldable pub disable_irq : ℕ → Hardware → Hardware
disable_irq irq_num h =
    if leb 8 irq_num
    then (let slave_mask = bit_or h.slave_mask (bit8 (irq_num - 8)) in
        outb slave_mask slave_8259_data_port (record h { slave_mask = slave_mask }))
    else (let master_mask = bit_or h.master_mask (bit8 irq_num) in
        outb master_mask master_8259_data_port (record h { master_mask = master_mask }))

unfoldable pub i8259_init : Hardware → Hardware
unfolding enable_irq
i8259_init h =
    let masked = outb 0xff 0xa1 (outb 0xff 0x21 h) in
    let icw1 = outb 0x11 slave_8259_port (outb 0x11 master_8259_port masked) in
    let icw2 = outb 0x28 slave_8259_data_port (outb 0x20 master_8259_data_port icw1) in
    let icw3 = outb 0x02 slave_8259_data_port (outb 0x04 master_8259_data_port icw2) in
    let icw4 = outb 0x01 slave_8259_data_port (outb 0x01 master_8259_data_port icw3) in
    let restored =
      outb h.slave_mask slave_8259_data_port (outb h.master_mask master_8259_data_port icw4) in
    enable_irq 2 restored

unfoldable pub send_eoi : ℕ → Hardware → Hardware
send_eoi irq_num h =
    if leb 8 irq_num
    then outb (eoi + 2) master_8259_port (outb (u8 (eoi + (irq_num - 8))) slave_8259_port h)
    else outb (u8 (eoi + irq_num)) master_8259_port h
