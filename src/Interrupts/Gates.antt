-- ===== src/Interrupts/Gates.antt =====
-- What the processor makes of the table that `setup_IDT` leaves.
use lightweight_operating_sy.Prelude.{
  Bool, true, ◌==◌, ◌&&◌, ℕ, ◌+◌, ◌*◌, ◌/◌, ◌<◌, ◌≡◌, ◌≢◌, refl, ◌∙◌, arith, List, [], ◌∷◌, update,
  update_ne, bit_and,
}
use lightweight_operating_sy.Prelude.Bits.{bit_and_low, bit_and_word}
use lightweight_operating_sy.Interrupts.{
  IdtDesc, Idt, Linkage, interrupt, set_idt_entry, set_idt_entry_metadata, gates, install,
  setup_idt, vector_of, division_error, debug, nmi, breakpoint, overflow, bound_range_interrupt,
  invalid_opcode, device_not_avalible, double_fault, coprocessor_overrun, invalid_tss,
  segment_not_present, stack_segfault, general_protection_fault, page_fault, assert_fault,
  x87_floating_point, alignment_check, machine_check, simd_floating_point, keyboard, rtc, pit,
  system_call,
}

-- The fields as the processor reads them (Intel SDM, 6.11): the handler's address, and byte 5, which is
-- the present bit, two bits of privilege, a 0, and four bits of type.
abbrev pub gate_offset : IdtDesc → ℕ
gate_offset d = d.offset_31_16 * 0x1_0000 + d.offset_15_00

abbrev pub gate_access : IdtDesc → ℕ
gate_access d =
    d.reserved3
    + d.reserved2 * 2
    + d.reserved1 * 4
    + d.size * 8
    + d.reserved0 * 0x10
    + d.dpl * 0x20
    + d.present * 0x80

pub record IsGate (d : IdtDesc) (handler access : ℕ) : Type 0 where
  pub offset : gate_offset d ≡ handler
  pub segment : d.seg_selector ≡ 0x10
  pub mode : gate_access d ≡ access

-- A 32-bit interrupt gate of the kernel is 0x8e, and a 32-bit trap gate for user code 0xef.
abbrev pub access_of : Linkage → ℕ
access_of system_call = 0xef
access_of _ = 0x8e

offset_halves :
    (a : ℕ) → a < 0x1_0000_0000 → bit_and a 0xffff_0000 / 0x1_0000 * 0x1_0000 + bit_and a 0xffff ≡ a
offset_halves a small = omega (arith, bit_and_word a small, bit_and_low 16 a)

made-IsGate :
    (entry : IdtDesc) (a : ℕ)
    → a < 0x1_0000_0000
    → IsGate (set_idt_entry_metadata (set_idt_entry entry a) interrupt) a 0x8e
unfolding set_idt_entry_metadata set_idt_entry
made-IsGate entry a small = record { offset = offset_halves a small; segment = refl; mode = refl }

-- The entry of each of the 24 vectors.
setup_idt-IsGate :
    (address : Linkage → ℕ) (stack : IdtDesc) (idt : Idt)
    → ((l : Linkage) → address l < 0x1_0000_0000)
    → (l : Linkage) → IsGate (setup_idt address stack idt (vector_of l)) (address l) (access_of l)
unfolding setup_idt install vector_of
setup_idt-IsGate address stack idt small division_error =
    made-IsGate stack (address division_error) (small division_error)
setup_idt-IsGate address stack idt small debug = made-IsGate stack (address debug) (small debug)
setup_idt-IsGate address stack idt small nmi = made-IsGate stack (address nmi) (small nmi)
setup_idt-IsGate address stack idt small breakpoint =
    made-IsGate stack (address breakpoint) (small breakpoint)
setup_idt-IsGate address stack idt small overflow =
    made-IsGate stack (address overflow) (small overflow)
setup_idt-IsGate address stack idt small bound_range_interrupt =
    made-IsGate stack (address bound_range_interrupt) (small bound_range_interrupt)
setup_idt-IsGate address stack idt small invalid_opcode =
    made-IsGate stack (address invalid_opcode) (small invalid_opcode)
setup_idt-IsGate address stack idt small device_not_avalible =
    made-IsGate stack (address device_not_avalible) (small device_not_avalible)
setup_idt-IsGate address stack idt small double_fault =
    made-IsGate stack (address double_fault) (small double_fault)
setup_idt-IsGate address stack idt small coprocessor_overrun =
    made-IsGate stack (address coprocessor_overrun) (small coprocessor_overrun)
setup_idt-IsGate address stack idt small invalid_tss =
    made-IsGate stack (address invalid_tss) (small invalid_tss)
setup_idt-IsGate address stack idt small segment_not_present =
    made-IsGate stack (address segment_not_present) (small segment_not_present)
setup_idt-IsGate address stack idt small stack_segfault =
    made-IsGate stack (address stack_segfault) (small stack_segfault)
setup_idt-IsGate address stack idt small general_protection_fault =
    made-IsGate stack (address general_protection_fault) (small general_protection_fault)
setup_idt-IsGate address stack idt small page_fault =
    made-IsGate stack (address page_fault) (small page_fault)
setup_idt-IsGate address stack idt small assert_fault =
    made-IsGate stack (address assert_fault) (small assert_fault)
setup_idt-IsGate address stack idt small x87_floating_point =
    made-IsGate stack (address x87_floating_point) (small x87_floating_point)
setup_idt-IsGate address stack idt small alignment_check =
    made-IsGate stack (address alignment_check) (small alignment_check)
setup_idt-IsGate address stack idt small machine_check =
    made-IsGate stack (address machine_check) (small machine_check)
setup_idt-IsGate address stack idt small simd_floating_point =
    made-IsGate stack (address simd_floating_point) (small simd_floating_point)
setup_idt-IsGate address stack idt small keyboard =
    made-IsGate stack (address keyboard) (small keyboard)
setup_idt-IsGate address stack idt small rtc = made-IsGate stack (address rtc) (small rtc)
setup_idt-IsGate address stack idt small pit = made-IsGate stack (address pit) (small pit)
setup_idt-IsGate address stack idt small system_call = record {
  offset = offset_halves (address system_call) (small system_call);
  segment = refl;
  mode = refl;
}

-- Every linkage function of a list stands with the vector that it hands on.
abbrev is_listed : List (Linkage × ℕ) → Bool
is_listed [] = true
is_listed ((l, v) ∷ rest) = (v == vector_of l) && is_listed rest

listed_head :
    (l : Linkage) (v : ℕ) (rest : Bool)
    → (v == vector_of l) && rest ≡ true
    → (v ≡ vector_of l) × (rest ≡ true)
listed_head l v rest e = ground arith

-- A table that `install` has written differs only at the vectors of the list.
install-other :
    (address : Linkage → ℕ) (list : List (Linkage × ℕ)) (entry : IdtDesc) (idt : Idt) (vector : ℕ)
    → is_listed list ≡ true
    → ((l : Linkage) → vector ≢ vector_of l)
    → (install address list entry idt).1 vector ≡ idt vector
unfolding install
install-other address [] entry idt vector listed away = refl
install-other address ((l, v) ∷ rest) entry idt vector listed away =
    let (own, others) = listed_head l v (is_listed rest) listed in
    let entry' = set_idt_entry_metadata (set_idt_entry entry (address l)) interrupt in
    install-other address rest entry' (update idt v entry') vector others away
    ∙ update_ne idt v vector entry' (λ e. away l (e ∙ own))

-- `setup_IDT` changes no other entry.
setup_idt-other :
    (address : Linkage → ℕ) (stack : IdtDesc) (idt : Idt) (vector : ℕ)
    → ((l : Linkage) → vector ≢ vector_of l)
    → setup_idt address stack idt vector ≡ idt vector
unfolding setup_idt vector_of
setup_idt-other address stack idt vector away =
    update_ne (install address gates stack idt).1 0x80 vector _ (away system_call)
    ∙ install-other address gates stack idt vector refl away

-- After `setup_IDT`, wherever the linkage functions lie and whatever the stack and the table held: the
-- entry of each of the 24 vectors leads to the linkage function that hands on this very vector, through
-- the kernel's code segment, as a 32-bit interrupt gate that only the kernel may call, and for vector
-- 0x80 as a 32-bit trap gate that user code may call. No other
-- entry changes.
pub setup_idt_lem :
    (address : Linkage → ℕ) (stack : IdtDesc) (idt : Idt)
    → ((l : Linkage) → address l < 0x1_0000_0000)
    → ((l : Linkage) → IsGate (setup_idt address stack idt (vector_of l)) (address l) (access_of l))
      × ((vector : ℕ)
          → ((l : Linkage) → vector ≢ vector_of l)
          → setup_idt address stack idt vector ≡ idt vector)
setup_idt_lem address stack idt small =
    (setup_idt-IsGate address stack idt small, setup_idt-other address stack idt)
