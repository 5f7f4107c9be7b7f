-- ===== src/Tests/Threads.antt =====
-- Paging, processes and threads.
use lightweight_operating_sy.Prelude.{
  ℕ, ◌≤◌, ◌≡◌, ◌≢◌, ◌⊎◌, inr, refl, some, none, true, false, arith,
}
use lightweight_operating_sy.Process.{get_top_process_pcb}
use lightweight_operating_sy.Kernel.{Kernel, Paging}
use lightweight_operating_sy.Paging.{PdtEntryPage, PdtEntryTable, PtEntry, setup_kernel_paging}
use lightweight_operating_sy.Paging.Walk.{walk, is_user_page, setup_kernel_paging-walk}
use lightweight_operating_sy.Scheduler.{next_process, pit_handler}
use lightweight_operating_sy.Scheduler.RoundRobin.{
  is_booted, turns, next_process-IsFair, IsSwitched, pit_handler-IsSwitched,
}
use lightweight_operating_sy.Tests.Data.{kernel, tables}

-- What the stack holds: all ones, but for the bits of the address.
abbrev pub stack_page : PdtEntryPage
stack_page = record {
  p = 1;
  rw = 1;
  us = 1;
  pwt = 1;
  pcd = 1;
  a = 1;
  d = 1;
  ps = 1;
  g = 1;
  avl = 7;
  pat = 1;
  address_13_20 = 0;
  reserved = 1;
  address_22_31 = 1023;
}

abbrev pub stack_table : PdtEntryTable
stack_table = record {
  p = 1;
  rw = 1;
  us = 1;
  pwt = 1;
  pcd = 1;
  a = 1;
  avl_6 = 1;
  ps = 0;
  avl_8_11 = 15;
  address = 1;
}

abbrev pub stack_pt : PtEntry
stack_pt = record {
  p = 1;
  rw = 1;
  us = 1;
  pwt = 1;
  pcd = 1;
  a = 1;
  d = 1;
  pat = 1;
  g = 1;
  avl = 7;
  address_31_12 = 9;
}

abbrev booted_tables : Paging
booted_tables = setup_kernel_paging stack_page stack_table (λ i. stack_pt) 0x41_0000 tables

setup_kernel_paging-walk_example :
    (walk booted_tables.pdt (λ b. booted_tables.pt0) 0xb_8123 ≡ some 0xb_8123)
    × (is_user_page booted_tables.pdt (λ b. booted_tables.pt0) 0xb_8123 ≡ false)
setup_kernel_paging-walk_example =
    setup_kernel_paging-walk stack_page stack_table (λ i. stack_pt) 0x41_0000 tables (omega arith)
      (omega arith) refl (λ b. booted_tables.pt0) 0xb_8123 refl (inr (omega arith, omega arith))

next_process-IsFair_example :
    (is_booted 5 (next_process 5 1) ≡ true)
    × (1 ≤ next_process 5 1)
    × (next_process 5 1 ≤ 3)
    × ((turns 5 1 1 ≡ 3) ⊎ ((turns 5 2 1 ≡ 3) ⊎ (turns 5 3 1 ≡ 3)))
unfolding is_booted
next_process-IsFair_example =
    next_process-IsFair 5 1 3 (omega arith) refl (omega arith) (omega arith) (omega arith)
      (omega arith) refl

pit_handler-IsSwitched_example :
    (k' : Kernel) × (((1 ≡ next_process 3 1)
        × (pit_handler stack_page stack_pt 77 kernel ≡ some (none, k'))
        × (k'.paging ≡ kernel.paging)
        × (k'.processes ≡ kernel.processes))
      ⊎ ((1 ≢ next_process 3 1)
          × (pit_handler stack_page stack_pt 77 kernel ≡ some (some 0, k'))
          × IsSwitched kernel k' 2 77))
unfolding next_process get_top_process_pcb
pit_handler-IsSwitched_example =
    pit_handler-IsSwitched stack_page stack_pt 77 2 kernel refl (λ ne e. omega arith) refl
      (omega arith)

abbrev cur_terminal : ℕ
cur_terminal = 1
