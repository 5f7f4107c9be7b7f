-- ===== src/Tests/Machine.antt =====
-- The start of the kernel, printing, and the user programs' library.
use lightweight_operating_sy.Prelude.{
  ℕ, ◌+◌, ◌*◌, ◌%◌, ◌<◌, ◌≡◌, ◌≢◌, ◌⊎◌, ◌↔◌, inl, refl, some, true, false, arith, Memory,
}
use lightweight_operating_sy.Str.Length.{IsCString}
use lightweight_operating_sy.Str.Digits.{AreDigits, number_of}
use lightweight_operating_sy.Kernel.{Kernel, cur_process_local}
use lightweight_operating_sy.Process.{get_base_process_pcb}
use lightweight_operating_sy.Pic.Masks.{InStep, is_masked}
use lightweight_operating_sy.Interrupts.{Linkage, IdtDesc, Idt, vector_of, setup_idt}
use lightweight_operating_sy.Interrupts.Gates.{IsGate, access_of, setup_idt_lem}
use lightweight_operating_sy.Boot.{start}
use lightweight_operating_sy.Boot.Lines.{start_lem}
use lightweight_operating_sy.Terminal.{puts}
use lightweight_operating_sy.Terminal.Printf.{printf, hex_field}
use lightweight_operating_sy.Terminal.HexField.{hex_field_lem}
use lightweight_operating_sy.Terminal.PlainText.{IsPlain, IsPrinting, printf-puts}
use lightweight_operating_sy.Screen.{Display}
use lightweight_operating_sy.Support.{ece391_strcmp}
use lightweight_operating_sy.Support.Compare.{Same, ece391_strcmp_iff}
use lightweight_operating_sy.Tests.Data.{kernel, image, display}
use lightweight_operating_sy.Tests.Threads.{stack_page, stack_table, stack_pt}

-- A linkage function every 16 bytes, and an empty table.
abbrev linkage_at : Linkage → ℕ
linkage_at l = 0x40_1000 + vector_of l % 0x100 * 0x10

abbrev empty_desc : IdtDesc
empty_desc = record {
  offset_15_00 = 0;
  seg_selector = 0;
  reserved4 = 0;
  reserved3 = 0;
  reserved2 = 0;
  reserved1 = 0;
  size = 0;
  reserved0 = 0;
  dpl = 0;
  present = 0;
  offset_31_16 = 0;
}

abbrev empty_idt : Idt
empty_idt v = empty_desc

setup_idt_lem_example :
    ((l : Linkage)
      → IsGate
          (setup_idt linkage_at empty_desc empty_idt (vector_of l))
          (linkage_at l)
          (access_of l))
    × ((vector : ℕ)
        → ((l : Linkage) → vector ≢ vector_of l)
        → setup_idt linkage_at empty_desc empty_idt vector ≡ empty_idt vector)
setup_idt_lem_example = setup_idt_lem linkage_at empty_desc empty_idt (λ l. omega arith)

abbrev started : Idt × Kernel
started =
    start stack_page stack_table (λ i. stack_pt) 0x41_0000 linkage_at empty_desc 0 13 14 empty_idt
      kernel

start_lem_example :
    InStep started.1.display.hw
    × (started.1.display.hw.interrupts ≡ true)
    × ((j : ℕ)
        → j < 16
        → is_masked started.1.display.hw j ≡ false
        → (j ≡ 2)
          ⊎ ((l : Linkage) × (vector_of l ≡ 0x20 + j)
              × IsGate (started.0 (0x20 + j)) (linkage_at l) 0x8e))
start_lem_example =
    start_lem stack_page stack_table (λ i. stack_pt) 0x41_0000 linkage_at empty_desc 0 13 14
      empty_idt kernel refl refl (λ l. omega arith)

hex_field_lem_example :
    (at : ℕ) × (m' : Memory) × (hex_field 9 0x7f_d000 0xbeef image ≡ some (at, m'))
    × IsCString m' at 8
    × (number_of 16 m' at 8 ≡ 0xbeef)
    × AreDigits 16 m' at 8
    × ((a : ℕ) → a < 0x7f_d000 → m' a ≡ image a)
hex_field_lem_example = hex_field_lem 9 0x7f_d000 0xbeef image (omega arith) (omega arith)

-- "a" at 100.
name-IsPlain : IsPlain image 100 1
name-IsPlain = record {
  string = record { filled = λ i h e. ground arith; ended = refl };
  no_conversion = λ i h e. ground arith;
  away = inl (omega arith);
}

last_cell : IsPrinting 1 1 display
last_cell = record {
  cur_lo = omega arith;
  cur_hi = omega arith;
  own_lo = omega arith;
  own_hi = omega arith;
  cur_on = record { col_in = omega arith; row_in = omega arith };
  own_on = record { col_in = omega arith; row_in = omega arith };
}

printf-puts_example :
    (d : Display) × (printf 2 0x7f_d000 100 0x7f_e000 kernel
      ≡ some (1, record kernel { display = d }))
    × (puts 2 100 0 kernel ≡ some (1, record kernel { display = d }))
unfolding get_base_process_pcb cur_process_local
printf-puts_example =
    printf-puts 2 0x7f_d000 100 0x7f_e000 1 1 kernel (omega arith) name-IsPlain (omega arith) refl
      last_cell

-- "a" at 100 and at 4160.
ece391_strcmp_iff_example :
    (v : ℕ) × (ece391_strcmp 2 image 100 4160 ≡ some v) × ((v ≡ 0) ↔ Same image 100 4160 1 1)
ece391_strcmp_iff_example =
    ece391_strcmp_iff 2 image 100 4160 1 1 (λ a. ground arith) name-IsPlain.string
      (record { filled = λ i h e. ground arith; ended = refl }) (omega arith)
