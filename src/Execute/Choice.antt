-- ===== src/Execute/Choice.antt =====
-- Every choice of a process number keeps the count of programs right, or is refused.
use lightweight_operating_sy.Prelude.{
  ℕ, ◌-◌, ◌≤◌, ◌≡◌, ◌≢◌, ◌⊎◌, inl, inr, refl, ◌∙◌, arith, Bool, true, false, update, update_ne,
  ◌==◌, Bool-cases, bit_xor,
}
use lightweight_operating_sy.Kernel.{Processes}
use lightweight_operating_sy.Execute.Slots.{Slot, program_slot, boot_slot, reboot_slot, choose_slot}
use lightweight_operating_sy.Execute.Accounts.{IsAccounted, taken, program_slot_lem, few}

taken_other : (active : ℕ → ℕ) (i j v : ℕ) → i ≢ j → taken (update active j v) i ≡ taken active i
unfolding taken
taken_other active i j v ne = rw (update_ne active j i v ne) refl

-- What the choice owes to the count.
abbrev pub IsChosen : Processes → Slot → Type 0
IsChosen p s =
    (IsAccounted s.after × (s.after.aux_processes ≤ 3))
    ⊎ ((p.aux_processes ≡ 3) × (s.after ≡ record p { aux_processes = 4 }))

program_slot-IsChosen :
    (unset : ℕ) (p : Processes) → IsAccounted p → IsChosen p (program_slot unset p)
program_slot-IsChosen unset p c = elim (program_slot_lem unset p c) [
  | inl (given, c', has_room, boots) ↦ inl (c', few (program_slot unset p).after c')
  | inr full ↦ inr full
]

reboot_slot-IsChosen :
    (unset : ℕ) (p : Processes) → IsAccounted p → IsChosen p (reboot_slot unset p)
unfolding reboot_slot
reboot_slot-IsChosen unset p c = inl (record { counted = c.counted; shells = c.shells }, few p c)

boot_slot-IsChosen :
    (p : Processes) → IsAccounted p → p.shell_init_boot ≢ 0 → IsChosen p (boot_slot p)
unfolding boot_slot
boot_slot-IsChosen p c some_shell =
    let at = p.shell_init_boot - 1 in
    let same : (i : ℕ)
        → 3 ≤ i
        → taken (update p.active_processes at 1) i ≡ taken p.active_processes i =
      λ i hi. taken_other p.active_processes i at 1 (λ e. omega (arith, c.shells)) in
    inl (
      record {
        counted =
            c.counted
            ∙ omega (arith, same 3 (omega arith), same 4 (omega arith), same 5 (omega arith));
        shells = omega arith;
      },
      few p c,
    )

-- Whatever the file is called, the choice keeps the count right, or finds all three slots taken.
pub choose_slot-IsChosen :
    (unset : ℕ) (is_shell : Bool) (p : Processes)
    → IsAccounted p
    → IsChosen p (choose_slot unset is_shell p)
unfolding choose_slot
choose_slot-IsChosen unset false p c = program_slot-IsChosen unset p c
choose_slot-IsChosen unset true p c = elim (Bool-cases (p.shell_init_boot == 0)) [
  | inl no_boot ↦
      elim (Bool-cases (bit_xor p.base_shell_booted_bitmask p.base_shell_live_bitmask == 0)) [
        | inl all_live ↦ rw (no_boot, all_live) (program_slot-IsChosen unset p c)
        | inr ended ↦ rw (no_boot, ended) (reboot_slot-IsChosen unset p c)
      ]
  | inr to_boot ↦ rw to_boot (boot_slot-IsChosen p c (λ e. ground arith))
]
