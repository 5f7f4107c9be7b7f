-- ===== src/Pic/Masks.antt =====
-- The mask bytes of the two controllers, and what was last written to their data ports.
use lightweight_operating_sy.Prelude.{
  ℕ, ◌-◌, ◌/◌, ◌%◌, ◌^◌, ◌<◌, ◌≡◌, refl, arith, Bool, true, false, not, ◌&&◌, ◌||◌, List, [], ◌∷◌,
  ltb, leb, ◌==◌, if◌then◌else◌, bit_and, bit_or,
}
use lightweight_operating_sy.Prelude.Bits.{all_below, all_below_sound}
use lightweight_operating_sy.Hardware.{Hardware}
use lightweight_operating_sy.Pic.{
  enable_irq, disable_irq, i8259_init, bit8, not8, master_8259_data_port, slave_8259_data_port,
}

-- Whether bit `j` of a mask is set.
unfoldable pub is_set : ℕ → ℕ → Bool
is_set mask j = mask / 2 ^ j % 2 == 1

-- Whether interrupt line `j` is masked.
unfoldable pub is_masked : Hardware → ℕ → Bool
is_masked h j = if leb 8 j then is_set h.slave_mask (j - 8) else is_set h.master_mask j

eqb : Bool → Bool → Bool
eqb true b = b
eqb false b = not b

eqb_sound : (a b : Bool) → eqb a b ≡ true → a ≡ b
unfolding eqb
eqb_sound a b h = ground arith

clear_table :
    all_below 256 (λ mask. all_below 8 (λ i.
      all_below 8
        (λ j. eqb (is_set (bit_and mask (not8 (bit8 i))) j) (not (i == j) && is_set mask j))))
    ≡ true
unfolding all_below eqb is_set
clear_table = refl

set_table :
    all_below 256 (λ mask.
      all_below 8
        (λ i. all_below 8 (λ j. eqb (is_set (bit_or mask (bit8 i)) j) (i == j || is_set mask j))))
    ≡ true
unfolding all_below eqb is_set
set_table = refl

is_set-clear :
    (mask i j : ℕ)
    → mask < 256
    → i < 8
    → j < 8
    → is_set (bit_and mask (not8 (bit8 i))) j ≡ (not (i == j) && is_set mask j)
is_set-clear mask i j hm hi hj = eqb_sound _ _ (
    all_below_sound 8 _ j (all_below_sound 8 _ i (all_below_sound 256 _ mask clear_table hm) hi) hj)

is_set-set :
    (mask i j : ℕ)
    → mask < 256
    → i < 8
    → j < 8
    → is_set (bit_or mask (bit8 i)) j ≡ (i == j || is_set mask j)
is_set-set mask i j hm hi hj =
    eqb_sound _ _ (
      all_below_sound 8 _ j (all_below_sound 8 _ i (all_below_sound 256 _ mask set_table hm) hi) hj)

-- The last byte written to a port.
unfoldable pub last_written : ℕ → List (ℕ × ℕ) → ℕ
last_written port [] = 0
last_written port ((p, b) ∷ io) = if p == port then b else last_written port io

-- The masks are bytes, and the controllers were last sent those.
pub record InStep (h : Hardware) : Type 0 where
  pub master_byte : h.master_mask < 256
  pub slave_byte : h.slave_mask < 256
  pub master_sent : last_written master_8259_data_port h.io ≡ h.master_mask
  pub slave_sent : last_written slave_8259_data_port h.io ≡ h.slave_mask

byte_table :
    all_below 256 (λ mask.
      all_below 8 (λ i. ltb (bit_and mask (not8 (bit8 i))) 256 && ltb (bit_or mask (bit8 i)) 256))
    ≡ true
unfolding all_below
byte_table = refl

byte_masks :
    (mask i : ℕ)
    → mask < 256
    → i < 8
    → (bit_and mask (not8 (bit8 i)) < 256) × (bit_or mask (bit8 i) < 256)
byte_masks mask i hm hi =
    ground (arith, all_below_sound 8 _ i (all_below_sound 256 _ mask byte_table hm) hi)

module _ (h : Hardware) (step : InStep h) (irq : ℕ) (known : irq < 16) where
  -- `enable_irq` on a line below 16 keeps the mask bytes in step with the controllers.
  pub enable_irq-InStep : InStep (enable_irq irq h)
  unfolding enable_irq last_written
  enable_irq-InStep =
      ground (arith, byte_masks h.slave_mask (irq - 8), byte_masks h.master_mask irq)

  pub disable_irq-InStep : InStep (disable_irq irq h)
  unfolding disable_irq last_written
  disable_irq-InStep =
      ground (arith, byte_masks h.slave_mask (irq - 8), byte_masks h.master_mask irq)

  -- On lines below 16, and with masks in step, `enable_irq` unmasks its line and `disable_irq` masks
  -- it; neither changes another line, and both keep the masks in step.
  pub irq_lines :
      (j : ℕ)
      → j < 16
      → (is_masked (enable_irq irq h) j ≡ (not (irq == j) && is_masked h j))
        × (is_masked (disable_irq irq h) j ≡ (irq == j || is_masked h j))
        × InStep (enable_irq irq h)
        × InStep (disable_irq irq h)
  unfolding enable_irq disable_irq is_masked
  irq_lines j hj = (
    ground (arith, is_set-clear h.slave_mask (irq - 8) (j - 8), is_set-clear h.master_mask irq j),
    ground (arith, is_set-set h.slave_mask (irq - 8) (j - 8), is_set-set h.master_mask irq j),
    enable_irq-InStep,
    disable_irq-InStep,
  )

-- Initialisation keeps the masks and then enables line 2, the cascade: it leaves the controllers in
-- step with the mask bytes, line 2 unmasked and the others as the mask bytes had them.
pub i8259_init-InStep :
    (h : Hardware)
    → h.master_mask < 256
    → h.slave_mask < 256
    → InStep (i8259_init h)
      × ((j : ℕ) → j < 16 → is_masked (i8259_init h) j ≡ (not (2 == j) && is_masked h j))
unfolding i8259_init last_written is_masked
i8259_init-InStep h hm hs = (
  ground (arith, byte_masks h.master_mask 2),
  λ j hj. ground (arith, is_set-clear h.master_mask 2 j),
)
