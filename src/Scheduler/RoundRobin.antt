-- ===== src/Scheduler/RoundRobin.antt =====
-- Who runs next, and what the processor uses for the thread that the timer switches to.
use lightweight_operating_sy.Prelude.{
  ℕ, zero, suc, ◌+◌, ◌-◌, ◌*◌, ◌/◌, ◌%◌, ◌^◌, ◌<◌, ◌≤◌, ◌≡◌, ◌≢◌, ◌⊎◌, inl, inr, Bool, true, not,
  ◌&&◌, ◌||◌, none, some, refl, sym, ap, arith, ◌==◌, Bool-cases, update_self, update_ne,
}
use lightweight_operating_sy.Prelude.Bits.{all_below, all_below_sound}
use lightweight_operating_sy.Process.{ProcessControlBlock, get_top_process_pcb}
use lightweight_operating_sy.Process.Address.{kernel_stack_top}
use lightweight_operating_sy.Kernel.{Kernel, chain_fuel}
use lightweight_operating_sy.Paging.{PdtEntryPage, PtEntry, page_val, pdt_entry_page_setup}
use lightweight_operating_sy.Paging.Walk.{walk, is_user_page, pdt_entry_page_setup-walk}
use lightweight_operating_sy.Scheduler.{next_process, pit_handler, save_ebp, switch_to}

-- Whether the shell of terminal `t` is booted.
unfoldable pub is_booted : ℕ → ℕ → Bool
is_booted booted t = booted / 2 ^ (t - 1) % 2 == 1

-- The thread that runs after `n` changes.
pub turns : ℕ → ℕ → ℕ → ℕ
turns booted zero cur = cur
turns booted (suc n) cur = turns booted n (next_process booted cur)

fair_at : ℕ → ℕ → ℕ → Bool
fair_at booted cur t =
    not (is_booted booted 1)
    || (cur == 0)
    || (t == 0)
    || not (is_booted booted t)
    || (turns booted 1 cur == t)
    || (turns booted 2 cur == t)
    || (turns booted 3 cur == t)

fair_table : all_below 8 (λ b. all_below 4 (λ c. all_below 4 (λ t. fair_at b c t))) ≡ true
unfolding all_below fair_at is_booted turns next_process
fair_table = refl

booted_at : ℕ → ℕ → Bool
booted_at booted cur =
    not (is_booted booted 1)
    || (cur == 0)
    || (is_booted booted (next_process booted cur)
        && ((next_process booted cur == 1)
            || (next_process booted cur == 2)
            || (next_process booted cur == 3)))

booted_table : all_below 8 (λ b. all_below 4 (λ c. booted_at b c)) ≡ true
unfolding all_below booted_at is_booted next_process
booted_table = refl

-- With the first shell booted, the thread after `cur` is one of the three and is booted; and it is not
-- left waiting: each booted thread `t` runs after at most three changes.
pub next_process-IsFair :
    (booted cur t : ℕ)
    → booted < 8
    → is_booted booted 1 ≡ true
    → 1 ≤ cur
    → cur ≤ 3
    → 1 ≤ t
    → t ≤ 3
    → is_booted booted t ≡ true
    → (is_booted booted (next_process booted cur) ≡ true)
      × (1 ≤ next_process booted cur)
      × (next_process booted cur ≤ 3)
      × ((turns booted 1 cur ≡ t) ⊎ ((turns booted 2 cur ≡ t) ⊎ (turns booted 3 cur ≡ t)))
unfolding fair_at booted_at
next_process-IsFair booted cur t small first lo hi tlo thi it =
    let fair : fair_at booted cur t ≡ true =
      all_below_sound 4 (λ t. fair_at booted cur t) t
        (all_below_sound 4 (λ c. all_below 4 (λ t. fair_at booted c t)) cur
          (all_below_sound 8 (λ b. all_below 4 (λ c. all_below 4 (λ t. fair_at b c t))) booted
            fair_table small)
          (omega arith))
        (omega arith) in
    let runs : booted_at booted cur ≡ true =
      all_below_sound 4 (λ c. booted_at booted c) cur
        (all_below_sound 8 (λ b. all_below 4 (λ c. booted_at b c)) booted booted_table small)
        (omega arith) in
    (ground arith, ground arith, ground arith, ground arith)

-- The state after a switch to the process `pid`, at the end of the chain of children of the next thread.
pub record IsSwitched (k k' : Kernel) (top : ℕ) (ebp : ℕ) : Type 0 where
  pub turn :
      k'.processes.cur_process
      ≡ next_process k.processes.base_shell_booted_bitmask k.processes.cur_process
  pub saved : (k'.processes.pcbs k.processes.current).sched_ebp ≡ ebp
  pub stack : k'.paging.esp0 ≡ kernel_stack_top (k.processes.pcbs top).process_id
  pub user_page :
      (table : ℕ → ℕ → ℕ) (va : ℕ)
      → 0x800_0000 ≤ va
      → va < 0x840_0000
      → (walk k'.paging.pdt table va
          ≡ some (((k.processes.pcbs top).process_id + 1) * 0x40_0000 + va % 0x40_0000))
        × (is_user_page k'.paging.pdt table va ≡ true)

-- A tick of the timer, where the chain of children of the next thread's shell ends in a block `top` with
-- a process number below 8, which is not the running one if the next thread is another than the running
-- one, and where bits 20 to 13 of the page entry on the stack, which the code never sets, are clear. If
-- the next thread is the running one, the handler goes on in it; otherwise it jumps to the frame that `top` saved when it was switched away,
-- with the running block's frame saved, the user's 4 MB at 128 MB mapped to the physical memory of
-- `top`'s process, for user code, and the kernel stack of that process in the TSS.
pub pit_handler-IsSwitched :
    (new_page : PdtEntryPage) (vidmem_pt : PtEntry) (ebp top : ℕ) (k : Kernel)
    → get_top_process_pcb chain_fuel k.processes.pcbs
        (next_process k.processes.base_shell_booted_bitmask k.processes.cur_process)
      ≡ some top
    → (k.processes.cur_process
          ≢ next_process k.processes.base_shell_booted_bitmask k.processes.cur_process
        → top ≢ k.processes.current)
    → new_page.address_13_20 % 0x100 ≡ 0
    → (k.processes.pcbs top).process_id < 8
    → (k' : Kernel) × (((k.processes.cur_process
            ≡ next_process k.processes.base_shell_booted_bitmask k.processes.cur_process)
          × (pit_handler new_page vidmem_pt ebp k ≡ some (none, k'))
          × (k'.paging ≡ k.paging)
          × (k'.processes ≡ k.processes))
        ⊎ ((k.processes.cur_process
              ≢ next_process k.processes.base_shell_booted_bitmask k.processes.cur_process)
            × (pit_handler new_page vidmem_pt ebp k
                ≡ some (some (k.processes.pcbs top).sched_ebp, k'))
            × IsSwitched k k' top ebp))
unfolding pit_handler switch_to
pit_handler-IsSwitched new_page vidmem_pt ebp top k chain other clear small =
    elim (Bool-cases (k.processes.cur_process == next)) [
      | inl e ↦
          let same : k.processes.cur_process ≡ next = ground arith in
          rw e (
            _,
            inl (
              same,
              refl,
              refl,
              ap (λ (c : ℕ). record k.processes { cur_process = c }) (sym same),
            ),
          )
      | inr e ↦
          let away : k.processes.cur_process ≢ next = λ same. ground arith in
          let same_top = kept (other away) in
          rw (e, chain)
            (
              switch_to new_page vidmem_pt ebp next top k,
              inr (
                away,
                ap
                    (λ (b : ProcessControlBlock).
                      some (some b.sched_ebp, switch_to new_page vidmem_pt ebp next top k))
                    same_top,
                record {
                  turn = refl;
                  saved =
                      ap (λ (b : ProcessControlBlock). b.sched_ebp)
                        (update_self k.processes.pcbs k.processes.current _);
                  stack = ap (λ (b : ProcessControlBlock). kernel_stack_top b.process_id) same_top;
                  user_page = user_page (other away);
                },
              ),
            )
    ]
  where
    next : ℕ
    next = next_process k.processes.base_shell_booted_bitmask k.processes.cur_process

    kept : top ≢ k.processes.current → save_ebp ebp k top ≡ k.processes.pcbs top
    kept away = update_ne k.processes.pcbs k.processes.current top _ away

    user_page :
        top ≢ k.processes.current
        → (table : ℕ → ℕ → ℕ) (va : ℕ) → 0x800_0000 ≤ va
        → va < 0x840_0000
        → (walk (switch_to new_page vidmem_pt ebp next top k).paging.pdt table va
            ≡ some (((k.processes.pcbs top).process_id + 1) * 0x40_0000 + va % 0x40_0000))
          × (is_user_page (switch_to new_page vidmem_pt ebp next top k).paging.pdt table va ≡ true)
    user_page away table va lo hi =
        let dir : va / 0x40_0000 ≡ 32 = omega arith in
        pdt_entry_page_setup-walk new_page ((k.processes.pcbs top).process_id + 1) 1 va
          (switch_to new_page vidmem_pt ebp next top k).paging.pdt table (omega (arith, small))
          (omega arith) clear
          (rw (dir, kept away)
            (ap (λ (f : ℕ). page_val (pdt_entry_page_setup new_page f 1)) (omega (arith, small))))
