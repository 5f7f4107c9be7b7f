-- ===== src/Interrupts.antt =====
-- The interrupt descriptor table: src/interrupts.c's `set_IDT_entry_metadata` and `setup_IDT`, the
-- descriptor of src/x86_desc.h, and the linkage functions of src/x86_desc.S.
pub mod Gates
pub mod Handler
use lightweight_operating_sy.Prelude.{ℕ, ◌/◌, ◌%◌, List, [], ◌∷◌, update, bit_and}

-- `idt_desc_t`, by its bit fields.
pub record IdtDesc : Type 0 where
  pub offset_15_00 : ℕ
  pub seg_selector : ℕ
  pub reserved4 : ℕ
  pub reserved3 : ℕ
  pub reserved2 : ℕ
  pub reserved1 : ℕ
  pub size : ℕ
  pub reserved0 : ℕ
  pub dpl : ℕ
  pub present : ℕ
  pub offset_31_16 : ℕ

abbrev pub Idt : Type 0
Idt = ℕ → IdtDesc

-- The functions that the entries point at, in the order of `setup_IDT`.
pub data Linkage : Type 0 where
  division_error debug nmi breakpoint overflow bound_range_interrupt invalid_opcode : Linkage
  device_not_avalible double_fault coprocessor_overrun invalid_tss segment_not_present : Linkage
  stack_segfault general_protection_fault page_fault assert_fault x87_floating_point : Linkage
  alignment_check machine_check simd_floating_point : Linkage
  keyboard rtc pit system_call : Linkage

abbrev pub interrupt : ℕ
interrupt = 0xe

abbrev pub trap : ℕ
trap = 0xf

abbrev pub kernel_cs : ℕ
kernel_cs = 0x10

-- `SET_IDT_ENTRY(str, handler)`
unfoldable pub set_idt_entry : IdtDesc → ℕ → IdtDesc
set_idt_entry str handler = record str {
  offset_31_16 = bit_and handler 0xffff_0000 / 0x1_0000;
  offset_15_00 = bit_and handler 0xffff;
}

unfoldable pub set_idt_entry_metadata : IdtDesc → ℕ → IdtDesc
set_idt_entry_metadata entry type = record entry {
  seg_selector = kernel_cs;
  reserved3 = bit_and type 1;
  reserved2 = bit_and (type / 2) 1;
  reserved1 = bit_and (type / 4) 1;
  size = bit_and (type / 8) 1;
  reserved0 = 0;
  dpl = 0;
  present = 1;
}

-- The interrupt gates that `setup_IDT` installs, with their vectors, in its order.
abbrev pub gates : List (Linkage × ℕ)
gates =
    (division_error, 0x0)
    ∷ (debug, 0x1)
    ∷ (nmi, 0x2)
    ∷ (breakpoint, 0x3)
    ∷ (overflow, 0x4)
    ∷ (bound_range_interrupt, 0x5)
    ∷ (invalid_opcode, 0x6)
    ∷ (device_not_avalible, 0x7)
    ∷ (double_fault, 0x8)
    ∷ (coprocessor_overrun, 0x9)
    ∷ (invalid_tss, 0xa)
    ∷ (segment_not_present, 0xb)
    ∷ (stack_segfault, 0xc)
    ∷ (general_protection_fault, 0xd)
    ∷ (page_fault, 0xe)
    ∷ (assert_fault, 0xf)
    ∷ (x87_floating_point, 0x10)
    ∷ (alignment_check, 0x11)
    ∷ (machine_check, 0x12)
    ∷ (simd_floating_point, 0x13)
    ∷ (keyboard, 0x21)
    ∷ (rtc, 0x28)
    ∷ (pit, 0x20)
    ∷ []

-- The three lines for each gate, on the local `entry` and the table. `address` gives where the
-- linkage functions lie.
unfoldable pub install : (Linkage → ℕ) → List (Linkage × ℕ) → IdtDesc → Idt → IdtDesc × Idt
unfolding set_idt_entry set_idt_entry_metadata
install address [] entry idt = (entry, idt)
install address ((handler, vector) ∷ rest) entry idt =
    let entry' = set_idt_entry_metadata (set_idt_entry entry (address handler)) interrupt in
    install address rest entry' (update idt vector entry')

-- `setup_IDT()`: `stack` is what the stack holds where `entry` lies, and the last gate is a trap that
-- user code may call.
unfoldable pub setup_idt : (Linkage → ℕ) → IdtDesc → Idt → Idt
unfolding install
setup_idt address stack idt =
    let (entry, installed) = install address gates stack idt in
    let last = set_idt_entry_metadata (set_idt_entry entry (address system_call)) trap in
    update installed 0x80 (record last { dpl = 3 })

-- The vector that x86_desc.S makes each linkage function hand to `exc_handler`. `system_call_linkage`
-- serves the vector of `int $0x80` and calls `sys_calls_handler`.
unfoldable pub vector_of : Linkage → ℕ
vector_of division_error = 0x0
vector_of debug = 0x1
vector_of nmi = 0x2
vector_of breakpoint = 0x3
vector_of overflow = 0x4
vector_of bound_range_interrupt = 0x5
vector_of invalid_opcode = 0x6
vector_of device_not_avalible = 0x7
vector_of double_fault = 0x8
vector_of coprocessor_overrun = 0x9
vector_of invalid_tss = 0xa
vector_of segment_not_present = 0xb
vector_of stack_segfault = 0xc
vector_of general_protection_fault = 0xd
vector_of page_fault = 0xe
vector_of assert_fault = 0xf
vector_of x87_floating_point = 0x10
vector_of alignment_check = 0x11
vector_of machine_check = 0x12
vector_of simd_floating_point = 0x13
vector_of keyboard = 0x21
vector_of rtc = 0x28
vector_of pit = 0x20
vector_of system_call = 0x80
