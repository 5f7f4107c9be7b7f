-- ===== src/Hardware.antt =====
-- What the kernel tells the machine: port writes (`outb` of src/lib.h), newest first, the interrupt flag
-- of `cli` and `sti`, and the two mask bytes that src/i8259.c keeps.
use lightweight_operating_sy.Prelude.{ℕ, Bool, true, false, List, ◌∷◌}

pub record Hardware : Type 0 where
  pub master_mask : ℕ
  pub slave_mask : ℕ
  pub interrupts : Bool
  -- each write as its port and its byte
  pub io : List (ℕ × ℕ)

-- `outb(data, port)`
abbrev pub outb : ℕ → ℕ → Hardware → Hardware
outb byte port h = record h { io = (port, byte) ∷ h.io }

abbrev pub cli : Hardware → Hardware
cli h = record h { interrupts = false }

abbrev pub sti : Hardware → Hardware
sti h = record h { interrupts = true }
