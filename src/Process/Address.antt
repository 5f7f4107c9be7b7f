-- ===== src/Process/Address.antt =====
-- Where the blocks and the kernel stacks lie: src/pit.h's BASE_MEM and PCB_MEM, and the mask that the
-- inline assembly before each use of the current block applies to ESP.
use lightweight_operating_sy.Prelude.{ℕ, ◌+◌, ◌-◌, ◌*◌, ◌<◌, ◌≤◌, ◌≡◌, arith, bit_and}
use lightweight_operating_sy.Prelude.Bits.{bit_and_high}

abbrev pub base_mem : ℕ
base_mem = 0x800000

abbrev pub pcb_mem : ℕ
pcb_mem = 0x2000

-- `BASE_MEM - (pid + 1) * PCB_MEM`
unfoldable pub pcb_address : ℕ → ℕ
pcb_address pid = base_mem - (pid + 1) * pcb_mem

-- `BASE_MEM - pid * PCB_MEM`, the value of `tss.esp0` for the process
unfoldable pub kernel_stack_top : ℕ → ℕ
kernel_stack_top pid = base_mem - pid * pcb_mem

-- `andl $0xFFFFE000, %eax`
unfoldable pub current_pcb : ℕ → ℕ
current_pcb esp = bit_and esp 0xffff_e000

-- For the six processes and the boot context: while ESP is below the top that `tss.esp0` gives for a
-- process, by at most the 8 KB of its stack, the mask finds that process's block.
pub current_pcb-pcb_address :
    (pid esp : ℕ)
    → pid ≤ 6
    → kernel_stack_top pid ≤ esp + pcb_mem
    → esp < kernel_stack_top pid
    → current_pcb esp ≡ pcb_address pid
unfolding current_pcb pcb_address kernel_stack_top
current_pcb-pcb_address pid esp small lo hi = omega (arith, bit_and_high esp)
