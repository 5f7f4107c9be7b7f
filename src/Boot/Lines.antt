-- ===== src/Boot/Lines.antt =====
-- The interrupt lines that are open once the kernel has started.
use lightweight_operating_sy.Prelude.{
  ℕ, ◌+◌, ◌<◌, ◌≡◌, ◌⊎◌, inl, inr, refl, sym, ap₂, leb, ◌||◌, ◌-◌, if◌then◌else◌, subst, arith,
  true, false, ◌==◌,
}
use lightweight_operating_sy.Prelude.Bits.{all_below, all_below_sound}
use lightweight_operating_sy.Hardware.{Hardware}
use lightweight_operating_sy.Screen.{update_cursor}
use lightweight_operating_sy.Keyboard.{keyboard_init}
use lightweight_operating_sy.Rtc.{rtc_init}
use lightweight_operating_sy.Scheduler.{pit_init}
use lightweight_operating_sy.Pic.{enable_irq, i8259_init}
use lightweight_operating_sy.Pic.Masks.{is_set, is_masked, last_written, InStep}
use lightweight_operating_sy.Kernel.{Kernel, Keyboard}
use lightweight_operating_sy.Paging.{PdtEntryPage, PdtEntryTable, PtEntry}
use lightweight_operating_sy.Interrupts.{
  Linkage, IdtDesc, Idt, vector_of, setup_idt, pit, keyboard, rtc,
}
use lightweight_operating_sy.Interrupts.Gates.{IsGate, access_of, setup_idt_lem}
use lightweight_operating_sy.Boot.{enable_cursor, start_devices, start}

-- What is known once the devices are started.
abbrev IsStarted : Hardware → Type 0
IsStarted h = (h.master_mask ≡ 0xf8) × (h.slave_mask ≡ 0xfe) × InStep h × (h.interrupts ≡ true)

start_devices-IsStarted :
    (prev first last : ℕ) (b : Keyboard) (h : Hardware)
    → h.master_mask ≡ 0xff
    → h.slave_mask ≡ 0xff
    → IsStarted (start_devices prev first last b h).1
unfolding start_devices keyboard_init i8259_init rtc_init pit_init enable_irq enable_cursor
    update_cursor last_written
start_devices-IsStarted prev first last b h master slave =
    subst (λ (w : Hardware). IsStarted (start_devices prev first last b w).1) (sym same)
      (
        refl,
        refl,
        record {
          master_byte = omega arith;
          slave_byte = omega arith;
          master_sent = refl;
          slave_sent = refl;
        },
        refl,
      )
  where
    same : h ≡ record h { master_mask = 0xff; slave_mask = 0xff }
    same = ap₂ (λ (a b : ℕ). record h { master_mask = a; slave_mask = b }) master slave

open_table :
    all_below 16 (λ j.
      (if leb 8 j then is_set 0xfe (j - 8) else is_set 0xf8 j)
      || (j == 0 || (j == 1 || (j == 2 || j == 8))))
    ≡ true
unfolding all_below is_set
open_table = refl

one_of :
    (j : ℕ)
    → (j == 0 || (j == 1 || (j == 2 || j == 8))) ≡ true
    → (j ≡ 0) ⊎ ((j ≡ 1) ⊎ ((j ≡ 2) ⊎ (j ≡ 8)))
one_of j e = ground arith

-- The line that is open is one of four.
open_line :
    (h : Hardware) (j : ℕ)
    → h.master_mask ≡ 0xf8
    → h.slave_mask ≡ 0xfe
    → j < 16
    → is_masked h j ≡ false
    → (j ≡ 0) ⊎ ((j ≡ 1) ⊎ ((j ≡ 2) ⊎ (j ≡ 8)))
unfolding is_masked is_set
open_line h j master slave small is_open =
    let known = all_below_sound 16 _ j open_table small in
    let masked : (if leb 8 j then is_set 0xfe (j - 8) else is_set 0xf8 j) ≡ false =
      rw (master, slave) at is_open in
    one_of j (rw masked at known)

-- The kernel starts with the mask bytes of i8259.c. Then interrupts are on, the controllers are in step with
-- the mask bytes, and every line that is open is the cascade or has, at its vector, a gate to the linkage
-- function that hands on this vector: the timer's, the keyboard's or the clock's.
pub start_lem :
    (kernal_page : PdtEntryPage) (first_mb : PdtEntryTable) (video : ℕ → PtEntry) (pt0_address : ℕ)
    (address : Linkage → ℕ) (stack : IdtDesc) (prev first last : ℕ) (idt : Idt) (k : Kernel)
    → k.display.hw.master_mask ≡ 0xff
    → k.display.hw.slave_mask ≡ 0xff
    → ((l : Linkage) → address l < 0x1_0000_0000)
    → let (idt', k') =
        start kernal_page first_mb video pt0_address address stack prev first last idt k in
      InStep k'.display.hw
      × (k'.display.hw.interrupts ≡ true)
      × ((j : ℕ)
          → j < 16
          → is_masked k'.display.hw j ≡ false
          → (j ≡ 2)
            ⊎ ((l : Linkage) × (vector_of l ≡ 0x20 + j)
                × IsGate (idt' (0x20 + j)) (address l) 0x8e))
unfolding start vector_of
start_lem kernal_page first_mb video pt0_address address stack prev first last idt k master slave
      small =
    let (low, high, step, on) =
      start_devices-IsStarted prev first last k.keyboard k.display.hw master slave in
    let gate = (setup_idt_lem address stack idt small).0 in
    (
      step,
      on,
      λ j known is_open. served gate j (
          open_line (start_devices prev first last k.keyboard k.display.hw).1 j low high known
            is_open),
    )
  where
    served :
        ((l : Linkage)
          → IsGate (setup_idt address stack idt (vector_of l)) (address l) (access_of l))
        → (j : ℕ) → (j ≡ 0) ⊎ ((j ≡ 1) ⊎ ((j ≡ 2) ⊎ (j ≡ 8)))
        → (j ≡ 2)
          ⊎ ((l : Linkage) × (vector_of l ≡ 0x20 + j)
              × IsGate (setup_idt address stack idt (0x20 + j)) (address l) 0x8e)
    served gate j (inl timer) = inr (pit, rw timer refl, rw timer (gate pit))
    served gate j (inr (inl keys)) = inr (keyboard, rw keys refl, rw keys (gate keyboard))
    served gate j (inr (inr (inl cascade))) = inl cascade
    served gate j (inr (inr (inr clock))) = inr (rtc, rw clock refl, rw clock (gate rtc))
