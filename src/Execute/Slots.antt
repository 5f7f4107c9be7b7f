-- ===== src/Execute/Slots.antt =====
-- How `execute` of src/sys_calls.c gives out process numbers: 1 to 3 to the terminals' own shells, 4
-- to 6 to what runs in them.
use lightweight_operating_sy.Prelude.{
  ℕ, zero, suc, ◌+◌, ◌-◌, ◌^◌, Bool, true, false, Option, none, some, update, ◌==◌, not,
  if◌then◌else◌, u8, u32, bit_or, bit_xor,
}
use lightweight_operating_sy.Kernel.{Processes}

pub record Slot : Type 0 where
  pub next_pid : ℕ
  pub base_boot : Bool
  pub after : Processes

-- `for (i = 3; i < 6; i++)`, with `left` slots to go: the first that is not active.
unfoldable pub find_slot : ℕ → ℕ → (ℕ → ℕ) → Option ℕ
find_slot zero i active = none
find_slot (suc left) i active =
    let rest = find_slot left (i + 1) active in if active i == 0 then some i else rest

-- A process of its own slot. `unset` is what `next_pid` holds when no slot is free.
unfoldable pub program_slot : ℕ → Processes → Slot
unfolding find_slot
program_slot unset p = elim (find_slot 3 3 p.active_processes) [
  | none ↦ record {
    next_pid = u32 (unset + 1);
    base_boot = false;
    after = record p { aux_processes = u32 (p.aux_processes + 1) };
  }
  | some i ↦ record {
    next_pid = i + 1;
    base_boot = false;
    after = record p {
      active_processes = update p.active_processes i 1;
      aux_processes = u32 (p.aux_processes + 1);
    };
  }
]

-- The first shell of a terminal.
unfoldable pub boot_slot : Processes → Slot
boot_slot p =
    let booted = u8 (bit_or p.base_shell_booted_bitmask (2 ^ (p.shell_init_boot - 1))) in
    record {
      next_pid = p.shell_init_boot;
      base_boot = true;
      after = record p {
        active_processes = update p.active_processes (p.shell_init_boot - 1) 1;
        base_shell_booted_bitmask = booted;
        base_shell_live_bitmask = booted;
        shell_init_boot = 0;
      };
    }

-- A terminal's shell that has ended and starts again.
unfoldable pub reboot_slot : ℕ → Processes → Slot
reboot_slot unset p =
    let dead = bit_xor p.base_shell_booted_bitmask p.base_shell_live_bitmask in
    record {
      next_pid = if dead == 1 then 1 else if dead == 2 then 2 else if dead == 4 then 3 else unset;
      base_boot = true;
      after = record p { base_shell_live_bitmask = p.base_shell_booted_bitmask };
    }

-- The whole choice, for a file whose name begins with "shell" and for any other.
unfoldable pub choose_slot : ℕ → Bool → Processes → Slot
unfolding boot_slot reboot_slot program_slot
choose_slot unset is_shell p =
    if is_shell
    then if not (p.shell_init_boot == 0)
      then boot_slot p
      else if not (bit_xor p.base_shell_booted_bitmask p.base_shell_live_bitmask == 0)
      then reboot_slot unset p
      else program_slot unset p
    else program_slot unset p
