-- ===== src/FileDriver/Table.antt =====
-- The descriptor table of the current process after an update.
use lightweight_operating_sy.Prelude.{
  ℕ, zero, suc, ◌≡◌, ◌≢◌, refl, ap, ◌∙◌, Option, none, some, Memory, update, update_self, update_ne,
  ◌==◌, if◌then◌else◌, ℕ_discrete,
}
use lightweight_operating_sy.Process.{
  FileDescriptor, Pcbs, ProcessControlBlock, get_base_process_pcb,
}
use lightweight_operating_sy.Kernel.{Kernel, current_block, chain_fuel, cur_process_local}
use lightweight_operating_sy.FileDriver.{file_at, with_file, with_memory}

pub file_at-with_file_self :
    (k : Kernel) (i : ℕ) (f : FileDescriptor) → file_at (with_file k i f) i ≡ f
file_at-with_file_self k i f =
    ap (λ (b : ProcessControlBlock). b.files i) (update_self k.processes.pcbs k.processes.current _)
    ∙ update_self (current_block k).files i f

pub file_at-with_file_ne :
    (k : Kernel) (i t : ℕ) (f : FileDescriptor) → t ≢ i → file_at (with_file k i f) t ≡ file_at k t
file_at-with_file_ne k i t f ne =
    ap (λ (b : ProcessControlBlock). b.files t) (update_self k.processes.pcbs k.processes.current _)
    ∙ update_ne (current_block k).files i t f ne

module _ (pcbs : Pcbs) (cur : ℕ) (b : ProcessControlBlock) where
  -- A field that the new block has alike is as it was in every block.
  kept :
      {B : Type 0} (field : ProcessControlBlock → B) (pid : ℕ)
      → field b ≡ field (pcbs cur)
      → field (update pcbs cur b pid) ≡ field (pcbs pid)
  kept field pid same = elim (ℕ_discrete pid cur) [
    | yes e ↦ rw e (ap field (update_self pcbs cur b) ∙ same)
    | no ne ↦ ap field (update_ne pcbs cur pid b ne)
  ]

  base_updated :
      b.parent_pcb ≡ (pcbs cur).parent_pcb
      → (fuel pid : ℕ)
      → get_base_process_pcb fuel (update pcbs cur b) pid ≡ get_base_process_pcb fuel pcbs pid
  unfolding get_base_process_pcb
  base_updated same_parent zero pid = refl
  base_updated same_parent (suc fuel) pid =
      rw (kept (λ c. c.parent_pcb) pid same_parent, get_base_process_pcb)
        (climb ((pcbs pid).parent_pcb) (base_updated same_parent fuel))
    where
      climb :
          (o : Option ℕ)
          → ((parent : ℕ)
              → get_base_process_pcb fuel (update pcbs cur b) parent
                ≡ get_base_process_pcb fuel pcbs parent)
          → elim o [
            | none ↦ some pid
            | some parent ↦ get_base_process_pcb fuel (update pcbs cur b) parent
          ]
            ≡ elim o [ none ↦ some pid | some parent ↦ get_base_process_pcb fuel pcbs parent ]
      climb none ih = refl
      climb (some parent) ih = ih parent

pub cur_process_local-with_file :
    (k : Kernel) (i : ℕ) (f : FileDescriptor)
    → cur_process_local (with_file k i f).processes ≡ cur_process_local k.processes
unfolding cur_process_local
cur_process_local-with_file k i f =
    let p = k.processes in
    let b : ProcessControlBlock = record (current_block k) {
      files = update (current_block k).files i f;
    } in
    rw (base_updated p.pcbs p.current b refl chain_fuel p.current, cur_process_local)
      (ap (λ (t : Option ℕ). if p.base_shell_booted_bitmask == 0 then some 1 else t)
        (same_id p.pcbs p.current b refl (get_base_process_pcb chain_fuel p.pcbs p.current)))
  where
    same_id :
        (pcbs : Pcbs) (cur : ℕ) (b : ProcessControlBlock)
        → b.process_id ≡ (pcbs cur).process_id
        → (o : Option ℕ)
        → elim o [ none ↦ none | some base ↦ some ((update pcbs cur b base).process_id) ]
          ≡ elim o [ none ↦ none | some base ↦ some ((pcbs base).process_id) ]
    same_id pcbs cur b e none = refl
    same_id pcbs cur b e (some base) = ap some (kept pcbs cur b (λ c. c.process_id) base e)

-- Of the kernel's state, `fd` is the only descriptor that is changed, and keeps its functions and flags;
-- the file system, the keyboard, the process's terminal and the cursors are as they were.
pub record SameElse (k k' : Kernel) (fd : ℕ) : Type 0 where
  pub same_table : (file_at k' fd).operations_table ≡ (file_at k fd).operations_table
  pub same_flags : (file_at k' fd).flags ≡ (file_at k fd).flags
  pub same_others : (t : ℕ) → t ≢ fd → file_at k' t ≡ file_at k t
  pub same_fs : k'.fs ≡ k.fs
  pub same_keyboard : k'.keyboard ≡ k.keyboard
  pub same_terminal : cur_process_local k'.processes ≡ cur_process_local k.processes
  pub same_cursors :
      (k'.display.screen_x ≡ k.display.screen_x) × (k'.display.screen_y ≡ k.display.screen_y)

-- A read moves a descriptor's position and stores to memory.
pub with_file-SameElse :
    (k : Kernel) (m : Memory) (fd position : ℕ)
    → SameElse k
        (with_file (with_memory k m) fd (record (file_at k fd) { file_position = position }))
        fd
with_file-SameElse k m fd position =
    let f : FileDescriptor = record (file_at k fd) { file_position = position } in
    let at_fd = file_at-with_file_self (with_memory k m) fd f in
    record {
      same_table = ap (λ (g : FileDescriptor). g.operations_table) at_fd;
      same_flags = ap (λ (g : FileDescriptor). g.flags) at_fd;
      same_others = λ t ne. file_at-with_file_ne (with_memory k m) fd t f ne;
      same_fs = refl;
      same_keyboard = refl;
      same_terminal = cur_process_local-with_file (with_memory k m) fd f;
      same_cursors = (refl, refl);
    }
