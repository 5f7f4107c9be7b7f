-- ===== src/Keyboard/Switch.antt =====
-- What a switch between terminals does to the pages of video memory.
use lightweight_operating_sy.Prelude.{
  ℕ, ◌+◌, ◌<◌, ◌≤◌, ◌≡◌, ◌≢◌, ◌⊎◌, inl, inr, refl, ◌∙◌, arith, Memory,
}
use lightweight_operating_sy.Copy.{memcpy}
use lightweight_operating_sy.Copy.Region.{Copied, memcpy-Copied}
use lightweight_operating_sy.Screen.{video}
use lightweight_operating_sy.Kernel.{Kernel}
use lightweight_operating_sy.Keyboard.{show_terminal, videomem_buffer, four_kb}

-- A switch from the terminal shown, one of the three, to `selected`, another of the three: every byte of
-- the screen is saved to the page of the terminal that was shown, the screen has every byte of the
-- selected terminal's page, and no other memory changes.
pub show_terminal-Copied :
    (selected : ℕ) (k : Kernel)
    → 1 ≤ k.keyboard.cur_terminal
    → k.keyboard.cur_terminal ≤ 3
    → 1 ≤ selected
    → selected ≤ 3
    → selected ≢ k.keyboard.cur_terminal
    → let k' = show_terminal selected k in
      ((i : ℕ)
        → i < four_kb
        → k'.display.mem (videomem_buffer k.keyboard.cur_terminal + i) ≡ k.display.mem (video + i))
      × ((i : ℕ)
          → i < four_kb
          → k'.display.mem (video + i) ≡ k.display.mem (videomem_buffer selected + i))
      × ((a : ℕ)
          → (a < video) ⊎ (video + four_kb ≤ a)
          → (a < videomem_buffer k.keyboard.cur_terminal)
            ⊎ (videomem_buffer k.keyboard.cur_terminal + four_kb ≤ a)
          → k'.display.mem a ≡ k.display.mem a)
      × (k'.keyboard.cur_terminal ≡ selected)
unfolding show_terminal
show_terminal-Copied selected k lo hi slo shi other = (
  (λ i h. shown.outside (videomem_buffer cur + i) (omega arith) ∙ saved.inside i h),
  (λ i h. shown.inside i h ∙ saved.outside (videomem_buffer selected + i) (ground (arith, other))),
  (λ a p q. shown.outside a p ∙ saved.outside a q),
  refl,
)
  where
    cur : ℕ
    cur = k.keyboard.cur_terminal

    m1 : Memory
    m1 = memcpy k.display.mem (videomem_buffer cur) video four_kb

    saved : Copied k.display.mem m1 (videomem_buffer cur) video four_kb
    saved = memcpy-Copied k.display.mem (videomem_buffer cur) video four_kb (inr (omega arith))

    shown :
        Copied m1
          (memcpy m1 video (videomem_buffer selected) four_kb)
          video
          (videomem_buffer selected)
          four_kb
    shown = memcpy-Copied m1 video (videomem_buffer selected) four_kb (inl (omega arith))
