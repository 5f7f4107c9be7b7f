-- ===== src/Terminal/Writing.antt =====
-- `terminal_write` of src/keyboard.c ends, on every input.
use lightweight_operating_sy.Prelude.{
  ℕ, zero, suc, ◌+◌, ◌≡◌, ◌≢◌, ◌⊎◌, inl, inr, refl, arith, Bool, true, false, ◌||◌, Option, none,
  some, slt, ◌==◌, Bool-cases, Option-cases, if◌then◌else◌, minus_one,
}
use lightweight_operating_sy.Screen.{Display, putc_on}
use lightweight_operating_sy.Kernel.{Kernel, Processes, putc, cur_process_local}
use lightweight_operating_sy.Terminal.{write_loop, terminal_write, set_cli, set_sti}

-- `putc` changes the display only.
pub putc_lem :
    (c : ℕ) (b : Bool) (k : Kernel) (own : ℕ)
    → cur_process_local k.processes ≡ some own
    → putc c b k ≡ some (record k { display = putc_on k.keyboard.cur_terminal own b c k.display })
unfolding putc
putc_lem c b k own found = rw (found, putc) refl

pub write_loop_lem :
    (left i input : ℕ) (k : Kernel) (own : ℕ)
    → cur_process_local k.processes ≡ some own
    → (d : Display) × (write_loop left i input k ≡ some (record k { display = d }))
unfolding write_loop
write_loop_lem zero i input k own found = (k.display, refl)
write_loop_lem (suc left) i input k own found =
    let c : ℕ = if k.display.mem (input + i) == b'\t' then b' ' else k.display.mem (input + i) in
    let d = putc_on k.keyboard.cur_terminal own false c k.display in
    let (d', rest) = write_loop_lem left (i + 1) input (record k { display = d }) own found in
    (d', rw (putc_lem c false k own found, write_loop) rest)

-- For a process of a terminal, `terminal_write` always returns: -1 for a null buffer and for 0 bytes,
-- with interrupts left off, and else the count, 0 for a negative one, with interrupts on. Nothing but
-- the display and the interrupt flag changes.
pub terminal_write_lem :
    (buffer bytes : ℕ) (k : Kernel) (own : ℕ)
    → cur_process_local k.processes ≡ some own
    → ((d : Display) × (terminal_write buffer bytes k
          ≡ some (if slt bytes 0 then 0 else bytes, record k { display = d }))
        × (d.hw.interrupts ≡ true)
        × (buffer ≢ 0)
        × (bytes ≢ 0))
      ⊎ (((buffer ≡ 0) ⊎ (bytes ≡ 0))
          × (terminal_write buffer bytes k ≡ some (minus_one, set_cli k)))
unfolding terminal_write
terminal_write_lem buffer bytes k own found = elim (Bool-cases (buffer == 0 || bytes == 0)) [
  | inl bad ↦ inr (ground arith, rw bad refl)
  | inr good ↦
      let count : ℕ = if slt bytes 0 then 0 else bytes in
      let (d, loop) = write_loop_lem count 0 buffer (set_cli k) own found in
      inl (
        (set_sti (record k { display = d })).display,
        rw (good, loop) refl,
        refl,
        (λ z. ground arith),
        (λ z. ground arith),
      )
]

abbrev pub processes_of : Processes → Option (ℕ × Kernel) → Processes
processes_of p none = p
processes_of p (some (v, k)) = k.processes

lost_first :
    (left i input : ℕ) (k : Kernel)
    → cur_process_local k.processes ≡ none
    → write_loop (suc left) i input k ≡ none
unfolding write_loop putc
lost_first left i input k lost = rw (lost, putc, write_loop) refl

-- However it ends, `terminal_write` changes no process.
pub terminal_write-processes :
    (buffer bytes : ℕ) (k : Kernel)
    → processes_of k.processes (terminal_write buffer bytes k) ≡ k.processes
unfolding terminal_write write_loop
terminal_write-processes buffer bytes k = elim (Bool-cases (buffer == 0 || bytes == 0)) [
  | inl bad ↦ rw bad refl
  | inr good ↦ elim (Option-cases (cur_process_local k.processes)) [
    | inl lost ↦ rw good (loop (if slt bytes 0 then 0 else bytes) lost)
    | inr (own, found) ↦
        let count : ℕ = if slt bytes 0 then 0 else bytes in
        let (d, done) = write_loop_lem count 0 buffer (set_cli k) own found in rw (good, done) refl
  ]
]
  where
    loop :
        (count : ℕ)
        → cur_process_local k.processes ≡ none
        → processes_of k.processes (elim (write_loop count 0 buffer (set_cli k)) [
          | none ↦ none
          | some k' ↦ some (count, set_sti k')
        ])
          ≡ k.processes
    loop zero lost = refl
    loop (suc count) lost = rw (lost_first count 0 buffer (set_cli k) lost) refl
