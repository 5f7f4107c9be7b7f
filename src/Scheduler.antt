-- ===== src/Scheduler.antt =====
-- src/pit.c: the timer and the round robin between the terminals' threads, and `vidmap` of
-- src/sys_calls.c, which maps the same page of user video memory.
pub mod RoundRobin
pub mod VideoMap
use lightweight_operating_sy.Prelude.{
  ℕ, ◌+◌, ◌-◌, ◌*◌, ◌/◌, ◌%◌, Bool, true, false, not, ◌&&◌, ◌||◌, Option, none, some, Memory,
  update, ltb, ◌==◌, if◌then◌else◌, u8, u32, minus_one, bit_and,
}
use lightweight_operating_sy.Hardware.{Hardware, outb}
use lightweight_operating_sy.Pic.{enable_irq, send_eoi}
use lightweight_operating_sy.Process.{
  ProcessControlBlock, Pcbs, get_top_process_pcb, get_base_process_pcb,
}
use lightweight_operating_sy.Process.Address.{kernel_stack_top}
use lightweight_operating_sy.Copy.{store4}
use lightweight_operating_sy.Kernel.{Kernel, Paging, chain_fuel, current_block}
use lightweight_operating_sy.Paging.{
  PdtEntryPage, PdtEntryTable, PtEntry, page_val, pt_val, table_val, pdt_entry_page_setup,
}

abbrev pub max_threads : ℕ
max_threads = 4

abbrev pub vid_mem_physical : ℕ
vid_mem_physical = 0xb8000

abbrev pub kernel_ds : ℕ
kernel_ds = 0x18

-- PIT_FREQ / 100
abbrev pub pit_divisor : ℕ
pit_divisor = 1193182 / 100

unfoldable pub pit_init : Hardware → Hardware
pit_init h =
    enable_irq 0
      (outb (pit_divisor / 0x100) 0x40 (outb (bit_and pit_divisor 0xff) 0x40 (outb 0x34 0x43 h)))

-- The three tests on `cur_process` after the increment.
unfoldable pub next_process : ℕ → ℕ → ℕ
next_process booted cur =
    let wrapped = if cur + 1 == max_threads then 1 else cur + 1 in
    let second = if wrapped == 2 && (bit_and booted 2 == 0) then wrapped + 1 else wrapped in
    if second == 3 && (bit_and booted 4 == 0) then 1 else second

-- `vidmem_pt` of the handler and of `vidmap`: `entry` is what the stack holds.
abbrev pub user_video : PtEntry → ℕ → PtEntry
user_video entry address = record entry { p = 1; us = 1; rw = 1; address_31_12 = address }

-- The page that the handler maps for a thread: for one that is not shown, the byte address of the video
-- memory is taken for a page number.
unfoldable pub handler_page : ℕ → ℕ → ℕ
handler_page cur_terminal cur_process =
    if cur_terminal == cur_process then vid_mem_physical / 4096 else vid_mem_physical + cur_process

abbrev with_eoi : Kernel → Kernel
with_eoi k = record k { display = record k.display { hw = send_eoi 0 k.display.hw } }

-- `current_PCB->schedEBP = ebp`
abbrev pub save_ebp : ℕ → Kernel → Pcbs
save_ebp ebp k =
    update k.processes.pcbs k.processes.current (record (current_block k) { sched_ebp = ebp })

-- The switch to the block `top` of the thread `next`, up to the jump: `new_page` and `vidmem_pt` are
-- what the stack holds, `ebp` is the register.
unfoldable pub switch_to : PdtEntryPage → PtEntry → ℕ → ℕ → ℕ → Kernel → Kernel
unfolding handler_page
switch_to new_page vidmem_pt ebp next top k =
    let pcbs = save_ebp ebp k in
    with_eoi (record k {
      processes = record k.processes { cur_process = next; pcbs = pcbs };
      paging = record k.paging {
        pdt =
            update k.paging.pdt 32
              (page_val (pdt_entry_page_setup new_page (u32 ((pcbs top).process_id + 1)) 1));
        pt_vidmap =
            update k.paging.pt_vidmap 0
              (pt_val (user_video vidmem_pt (handler_page k.keyboard.cur_terminal next)));
        esp0 = kernel_stack_top (pcbs top).process_id;
        ss0 = kernel_ds;
      };
    })

-- The handler up to the jump. The result is the EBP that `return_to_parent` takes, or `none` if the
-- thread goes on; the whole is `none` if the chain of children has no end.
unfoldable pub pit_handler : PdtEntryPage → PtEntry → ℕ → Kernel → Option (Option ℕ × Kernel)
unfolding next_process switch_to
pit_handler new_page vidmem_pt ebp k =
    let saved_process = k.processes.cur_process in
    let next = next_process k.processes.base_shell_booted_bitmask saved_process in
    if saved_process == next
    then some (none, with_eoi (record k { processes = record k.processes { cur_process = next } }))
    else elim (get_top_process_pcb chain_fuel k.processes.pcbs next) [
      | none ↦ none
      | some top ↦
          some (some (save_ebp ebp k top).sched_ebp, switch_to new_page vidmem_pt ebp next top k)
    ]

-- Steps 2 and 3 of `vidmap`: `vidmem` and `vidmem_pt` are what the stack holds, `pt_vidmap_address` is
-- the address of `pt_vidmap`, below 2 GB.
unfoldable pub map_window : PdtEntryTable → PtEntry → ℕ → ℕ → ℕ → Kernel → Kernel
map_window vidmem vidmem_pt pt_vidmap_address screen_start cur_process_local k =
    let entry : PdtEntryTable = record vidmem {
      p = 1;
      us = 1;
      rw = 1;
      address = pt_vidmap_address / 4096;
    } in
    let page =
      if k.keyboard.cur_terminal == cur_process_local
      then vid_mem_physical / 4096
      else vid_mem_physical / 4096 + cur_process_local in
    record k {
      display = record k.display { mem = store4 k.display.mem screen_start 0 0 0x80 0x08 };
      paging = record k.paging {
        pdt = update k.paging.pdt 34 (table_val entry);
        pt_vidmap = update k.paging.pt_vidmap 0 (pt_val (user_video vidmem_pt page));
      };
    }

-- `vidmap(screen_start)`. The upper bound lets the top of the page itself pass, and a pointer whose four
-- bytes do not end within the page, where the store faults.
unfoldable pub vidmap : PdtEntryTable → PtEntry → ℕ → ℕ → Kernel → Option (ℕ × Kernel)
unfolding map_window
vidmap vidmem vidmem_pt pt_vidmap_address screen_start k =
    elim (get_base_process_pcb chain_fuel k.processes.pcbs k.processes.current) [
      | none ↦ none
      | some base ↦
          if screen_start == 0
          then some (minus_one, k)
          else if ltb 0x840_0000 screen_start || ltb screen_start 0x800_0000
          then some (minus_one, k)
          else if ltb 0x840_0000 (screen_start + 4)
          then none
          else some (
            0,
            map_window vidmem vidmem_pt pt_vidmap_address screen_start
                (k.processes.pcbs base).process_id k,
          )
    ]
