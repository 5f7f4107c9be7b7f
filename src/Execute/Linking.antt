-- ===== src/Execute/Linking.antt =====
-- The blocks that `execute` links: the new process's and its caller's.
use lightweight_operating_sy.Prelude.{
  ℕ, ◌≡◌, ◌≢◌, sym, ap, ◌∙◌, false, some, Memory, update, update_self, update_ne,
}
use lightweight_operating_sy.Process.{ProcessControlBlock}
use lightweight_operating_sy.Kernel.{Kernel, current_block}
use lightweight_operating_sy.Execute.{fill_block, link_blocks}

-- What `execute` leaves of the new process and of its caller.
pub record IsLinked (k k1 : Kernel) (pid ebp : ℕ) : Type 0 where
  pub own_id : (k1.processes.pcbs pid).process_id ≡ pid
  pub own_parent : (k1.processes.pcbs pid).parent_pcb ≡ some (current_block k).process_id
  pub caller_ebp : (k1.processes.pcbs k.processes.current).ebp ≡ ebp
  pub caller_id : (k1.processes.pcbs k.processes.current).process_id ≡ (current_block k).process_id

pub link_blocks-made :
    (pid ebp : ℕ) (name args : Memory) (k : Kernel)
    → k.processes.current ≢ pid
    → link_blocks pid false ebp name args k pid
      ≡ fill_block pid false (current_block k).process_id name args (k.processes.pcbs pid)
unfolding link_blocks fill_block
link_blocks-made pid ebp name args k apart =
    let cur = k.processes.current in
    let filled =
      fill_block pid false (current_block k).process_id name args (k.processes.pcbs pid) in
    let made = update k.processes.pcbs pid filled in
    let linked = update made cur (record (made cur) { child_pcb = some pid }) in
    update_ne linked cur pid _ (λ q. apart (sym q))
    ∙ update_ne made cur pid _ (λ q. apart (sym q))
    ∙ update_self k.processes.pcbs pid filled

pub link_blocks-IsLinked :
    (pid ebp : ℕ) (name args : Memory) (k k1 : Kernel)
    → k.processes.current ≢ pid
    → k1.processes.pcbs ≡ link_blocks pid false ebp name args k
    → IsLinked k k1 pid ebp
unfolding link_blocks fill_block
link_blocks-IsLinked pid ebp name args k k1 apart e =
    let cur = k.processes.current in
    let parent = (current_block k).process_id in
    let filled = fill_block pid false parent name args (k.processes.pcbs pid) in
    let made = update k.processes.pcbs pid filled in
    let linked = update made cur (record (made cur) { child_pcb = some pid }) in
    let Pcb = ProcessControlBlock in
    let at_cur =
      ap (λ (blocks : ℕ → Pcb). blocks cur) e
      ∙ update_self linked cur _
      ∙ ap (λ (b : Pcb). record b { ebp = ebp })
          (update_self made cur _
            ∙ ap (λ (b : Pcb). record b { child_pcb = some pid })
                (update_ne k.processes.pcbs pid cur filled apart)) in
    let at_pid =
      ap (λ (blocks : ℕ → Pcb). blocks pid) e ∙ link_blocks-made pid ebp name args k apart in
    record {
      own_id = ap (λ (b : ProcessControlBlock). b.process_id) at_pid;
      own_parent = ap (λ (b : ProcessControlBlock). b.parent_pcb) at_pid;
      caller_ebp = ap (λ (b : ProcessControlBlock). b.ebp) at_cur;
      caller_id = ap (λ (b : ProcessControlBlock). b.process_id) at_cur;
    }
